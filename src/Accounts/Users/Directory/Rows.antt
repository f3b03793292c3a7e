-- ===== src/Accounts/Users/Directory/Rows.antt =====
-- The statements of the store, seen in the directory.
use backend_task_management.Base.{
  ◌≡◌, refl, sym, ◌∙◌, ap, subst, String, ◌==◌, ◌&&◌, ◌||◌, Bool, true, false, Option, none, some,
  List, [], ◌∷◌, map, any, Bool-cases, inl, inr, ◌≢◌, ◌⊎◌, eq_iff, eq_refl,
}
use backend_task_management.Common.SoftDelete.{scoped, find_first}
use backend_task_management.Rule.Repository.{is_null}
use backend_task_management.Accounts.Rows.{User}
use backend_task_management.Accounts.Users.Store.{first_user, has_id, at_id}
use backend_task_management.Accounts.Users.Directory.{Directory, directory, put, NoUser}

abbrev shows : User → String → Bool
shows u i = is_null u.deleted_at && has_id i u

directory-shown :
    (u : User) (users : List User) (i : String)
    → shows u i ≡ true
    → directory (u ∷ users) i ≡ some u
unfolding directory first_user find_first scoped
directory-shown u users i h = rw h

directory-hidden :
    (u : User) (users : List User) (i : String)
    → shows u i ≡ false
    → directory (u ∷ users) i ≡ directory users i
unfolding directory first_user find_first scoped
directory-hidden u users i h = rw h

directory-nil : (i : String) → directory [] i ≡ none
unfolding directory first_user find_first scoped
directory-nil i = refl

never-found : (i : String) (u : User) → directory [] i ≢ some u
never-found i u h = cc (directory-nil i)

both : (a b : Bool) → a && b ≡ true → b ≡ true
both true true h = refl
both true false h = h
both false b h = cc

and_false : (a b : Bool) → b ≡ false → a && b ≡ false
and_false true b h = h
and_false false b h = refl

and_left : (a b c d : Bool) → a ≡ c → b ≡ d → a && b ≡ c && d
and_left a b c d p q = cc

either : (a b : Bool) → a || b ≡ false → (a ≡ false) × (b ≡ false)
either true b h = cc
either false b h = (refl, h)

-- The first row that a directory shows, or one behind it.
directory-cases :
    (v : User) (users : List User) (i : String) (u : User)
    → directory (v ∷ users) i ≡ some u
    → ((v ≡ u) × (shows v i ≡ true)) ⊎ ((shows v i ≡ false) × (directory users i ≡ some u))
directory-cases v users i u found = elim (Bool-cases (shows v i)) [
  | inl y ↦ let here : some v ≡ some u = sym (directory-shown v users i y) ∙ found in inl (cc, y)
  | inr n ↦ inr (n, sym (directory-hidden v users i n) ∙ found)
]

-- A row that a directory shows passes what every row passes.
pub directory-NoUser :
    (p : User → Bool) (users : List User) → any p users ≡ false → NoUser (directory users) p
directory-NoUser p [] h i u found = absurd (never-found i u found)
directory-NoUser p (v ∷ users) h i u found =
    let (here, rest) = either (p v) (any p users) h in
    elim (directory-cases v users i u found) [
      | inl (same, _) ↦ ap p (sym same) ∙ here
      | inr (_, later) ↦ directory-NoUser p users rest i u later
    ]

-- A row has the id that it is found by.
pub directory-id :
    (users : List User) (i : String) (u : User) → directory users i ≡ some u → has_id i u ≡ true
directory-id [] i u found = absurd (never-found i u found)
directory-id (v ∷ users) i u found = elim (directory-cases v users i u found) [
  | inl (same, y) ↦ ap (has_id i) (sym same) ∙ both _ _ y
  | inr (_, later) ↦ directory-id users i u later
]

-- What a change of the rows at one id does to a row.
at_id-yes : (id : String) (f : User → User) (u : User) → has_id id u ≡ true → at_id id f u ≡ f u
at_id-yes id f u y = rw y

at_id-no : (id : String) (f : User → User) (u : User) → has_id id u ≡ false → at_id id f u ≡ u
at_id-no id f u n = rw n

module _ (id : String) (f : User → User) (same_id : (u : User) → (f u).id ≡ u.id) where
  -- A row that changes is not shown at another id.
  apart : (u : User) (i : String) → (id == i) ≡ false → has_id id u ≡ true → has_id i u ≡ false
  apart u i other y =
      let (there, _) = eq_iff u.id id in subst (λ s. (s == i) ≡ false) (sym (there y)) other

  pub directory-other :
      (users : List User) (i : String)
      → (id == i) ≡ false
      → directory (map (at_id id f) users) i ≡ directory users i
  directory-other [] i other = refl
  directory-other (u ∷ users) i other = elim (Bool-cases (has_id id u)) [
    | inl y ↦
        let hidden : shows (at_id id f u) i ≡ false =
          and_false _ _ (
            ap (has_id i) (at_id-yes id f u y)
            ∙ ap (λ s. s == i) (same_id u)
            ∙ apart u i other y) in
        let hidden_before : shows u i ≡ false = and_false _ _ (apart u i other y) in
        directory-hidden _ _ i hidden
        ∙ directory-other users i other
        ∙ sym (directory-hidden u users i hidden_before)
    | inr n ↦
        ap (λ v. directory (v ∷ map (at_id id f) users) i) (at_id-no id f u n)
        ∙ elim (Bool-cases (shows u i)) [
          | inl y ↦ directory-shown u _ i y ∙ sym (directory-shown u users i y)
          | inr m ↦
              directory-hidden u _ i m
              ∙ directory-other users i other
              ∙ sym (directory-hidden u users i m)
        ]
  ]

  -- A row changed at its own id is shown as before.
  seen :
      ((u : User) → (f u).deleted_at ≡ u.deleted_at)
      → (u : User) → shows (at_id id f u) id ≡ shows u id
  seen live u = elim (Bool-cases (has_id id u)) [
    | inl y ↦
        ap (λ v. shows v id) (at_id-yes id f u y)
        ∙ and_left _ _ _ _ (ap is_null (live u)) (ap (λ s. s == id) (same_id u))
    | inr n ↦ ap (λ v. shows v id) (at_id-no id f u n)
  ]

  unseen :
      ((u : User) → is_null (f u).deleted_at ≡ false) → (u : User) → shows (at_id id f u) id ≡ false
  unseen gone u = elim (Bool-cases (has_id id u)) [
    | inl y ↦ ap (λ v. shows v id) (at_id-yes id f u y) ∙ ap (λ b. b && has_id id (f u)) (gone u)
    | inr n ↦ ap (λ v. shows v id) (at_id-no id f u n) ∙ and_false _ _ n
  ]

  pub directory-same :
      ((u : User) → (f u).deleted_at ≡ u.deleted_at)
      → (users : List User) (u : User) → directory users id ≡ some u
      → directory (map (at_id id f) users) id ≡ some (f u)
  directory-same live [] u found = absurd (never-found id u found)
  directory-same live (v ∷ users) u found = elim (directory-cases v users id u found) [
    | inl (same, y) ↦
        let shown : shows (at_id id f v) id ≡ true = seen live v ∙ y in
        directory-shown _ _ id shown ∙ ap some (at_id-yes id f v (both _ _ y) ∙ ap f same)
    | inr (n, later) ↦
        let hidden : shows (at_id id f v) id ≡ false = seen live v ∙ n in
        directory-hidden _ _ id hidden ∙ directory-same live users u later
  ]

  pub directory-gone :
      ((u : User) → is_null (f u).deleted_at ≡ false)
      → (users : List User) → directory (map (at_id id f) users) id ≡ none
  directory-gone gone [] = directory-nil id
  directory-gone gone (v ∷ users) =
      let hidden : shows (at_id id f v) id ≡ false = unseen gone v in
      directory-hidden _ _ id hidden ∙ directory-gone gone users

-- A directory that agrees with another outside one id, by what it shows at the id.
put_at :
    (d d' : Directory) (id : String) (entry : Option User)
    → d' id ≡ entry
    → ((i : String) → (id == i) ≡ false → d' i ≡ d i)
    → (i : String) → d' i ≡ put d id entry i
put_at d d' id entry here there i = elim (Bool-cases (id == i)) [
  | inl y ↦ let (same, _) = eq_iff id i in ap d' (sym (same y)) ∙ here ∙ sym (rw y)
  | inr n ↦ there i n ∙ sym (rw n)
]

shown_at_own_id : (u : User) → u.deleted_at ≡ none → shows u u.id ≡ true
shown_at_own_id u live = rw live (eq_refl u.id)

pub put-added :
    (new : User) (users : List User)
    → new.deleted_at ≡ none
    → (i : String) → directory (new ∷ users) i ≡ put (directory users) new.id (some new) i
put-added new users live =
    put_at _ _ new.id (some new) (directory-shown new users new.id (shown_at_own_id new live))
      (λ i n. directory-hidden new users i (and_false _ _ n))

pub put-changed :
    (id : String) (f : User → User) (users : List User) (u : User)
    → ((v : User) → (f v).id ≡ v.id)
    → ((v : User) → (f v).deleted_at ≡ v.deleted_at)
    → directory users id ≡ some u
    → (i : String) → directory (map (at_id id f) users) i ≡ put (directory users) id (some (f u)) i
put-changed id f users u same live found =
    put_at _ _ id (some (f u)) (directory-same id f same live users u found)
      (directory-other id f same users)

pub put-dropped :
    (id : String) (f : User → User) (users : List User)
    → ((v : User) → (f v).id ≡ v.id)
    → ((v : User) → is_null (f v).deleted_at ≡ false)
    → (i : String) → directory (map (at_id id f) users) i ≡ put (directory users) id none i
put-dropped id f users same gone =
    put_at _ _ id none (directory-gone id f same gone users) (directory-other id f same users)
