-- ===== src/Accounts/Users/Directory/Refinement.antt =====
-- Every operation on users is a step of the directory.
use backend_task_management.Base.{
  ◌≡◌, refl, sym, ap, subst, String, ◌||◌, Option, some, List, any, Bool-cases, inl, inr, ℕ,
  is_some, not,
}
use backend_task_management.Common.Errors.{Result, ok, err, Thrown}
use backend_task_management.Automation.World.{
  World, Env, Fate, done, refused, lost, Exec, ended, continued, call, lift, ◌>>=◌, ◌>>◌,
}
use backend_task_management.Automation.World.Keeps.{counted, Keeps}
use backend_task_management.Automation.World.Inversion.{bind_cases}
use backend_task_management.Accounts.Rows.{User}
use backend_task_management.Accounts.Users.{Tools, CreateUser, UpdateUser}
use backend_task_management.Accounts.Users.Store.{
  with_user, with_deletion, with_changes, insert_user, update_user, delete_user, clashes, row_at,
  lacks_profile, clashes_update, new_user, changed_user,
}
use backend_task_management.Accounts.Users.Directory.{
  Operation, creating, updating, removing, Step, added, changed, dropped, Refines, directory,
}
use backend_task_management.Accounts.Users.Directory.Rows.{
  put-added, put-changed, put-dropped, directory-NoUser,
}

module _ {N : Type 0} (operation : Operation) (users : List User) where
  pub stays_or_throws :
      {A : Type 0} (e : Thrown) (w : World N)
      → w.users ≡ users
      → Refines {A = A} operation users (err e, w)
  stays_or_throws e w same = (inl (λ i. ap (λ us. directory us i) same), λ a h. cc)

  module _ {A : Type 0} where
    settled :
        (fate : Fate) (p : Result A × World N) (w : World N)
        → w.users ≡ users
        → Refines operation users p
        → Refines operation users (continued lift (ended fate p w).0 (ended fate p w).1)
    unfolding lift
    settled done p w same (world, returned) = (world, returned)
    settled (refused e) p w same (world, returned) = stays_or_throws e w same
    settled (lost e) p w same (world, returned) = (world, λ a h. cc)

    -- A statement refines the directory as its effect does.
    statement-Refines :
        (env : Env) (f : ℕ → World N → Result A × World N) (w : World N)
        → w.users ≡ users
        → Refines operation users (f (env.now w.calls) (counted w))
        → Refines operation users ((call env f >>= lift) w)
    unfolding call ◌>>=◌
    statement-Refines env f w same effect =
        settled (env.fate w.calls) (f (env.now w.calls) (counted w)) (counted w) same effect

    pub write-Refines :
        (env : Env) (f : ℕ → World N → Result A × World N) (w : World N)
        → w.users ≡ users
        → ((t : ℕ) (u : World N) → u.users ≡ users → Refines operation u.users (f t u))
        → Refines operation users ((call env f >>= lift) w)
    write-Refines env f w same effect = statement-Refines env f w same (
        subst (λ us. Refines operation us (f (env.now w.calls) (counted w))) same
          (effect (env.now w.calls) (counted w) same))

    -- What comes behind an action that keeps the users.
    pub bind-Refines :
        {C : Type 0} (m : Exec N C) (f : C → Exec N A)
        → Keeps (λ u. u.users ≡ users) m
        → (w : World N) → w.users ≡ users
        → ((c : C) (u : World N)
            → (m w).0 ≡ ok c
            → u.users ≡ users
            → Refines operation users (f c u))
        → Refines operation users ((m >>= f) w)
    bind-Refines m f kept w same rest = elim (bind_cases m f w) [
      | inl (c, answered, there) ↦
          subst (Refines operation users) (sym there) (rest c (m w).1 answered (kept.at w same))
      | inr (e, _, there) ↦
          subst (Refines operation users) (sym there) (stays_or_throws e (m w).1 (kept.at w same))
    ]

    pub then-Refines :
        {C : Type 0} (m : Exec N C) (n : Exec N A)
        → Keeps (λ u. u.users ≡ users) m
        → (w : World N) → w.users ≡ users
        → ((c : C) (u : World N) → (m w).0 ≡ ok c → u.users ≡ users → Refines operation users (n u))
        → Refines operation users ((m >> n) w)
    unfolding ◌>>◌
    then-Refines m n kept w same rest = bind-Refines m (λ _. n) kept w same rest

-- A step, whatever the statement answers.
stepped :
    {N A : Type 0} (operation : Operation) (users : List User) (r : Result A) (w : World N)
    → Step (directory users) (directory w.users) operation
    → Refines operation users (r, w)
stepped operation users r w step = (inr step, λ a h. step)

module _ {N : Type 0} (tools : Tools) where
  pub insert_user-Refines :
      (dto : CreateUser) (hashed : String) (w : World N)
      → Refines (creating dto) w.users (insert_user tools dto hashed w)
  unfolding insert_user new_user
  insert_user-Refines dto hashed w =
      let id = tools.user_id w.users in
      elim (Bool-cases (any (clashes id dto.email dto.username) w.users)) [
        | inl y ↦ rw y (stays_or_throws (creating dto) w.users _ w refl)
        | inr n ↦ rw n (
            stepped (creating dto) w.users _ (with_user tools dto hashed w) (
              added dto id hashed (directory-NoUser _ w.users n)
                (put-added (new_user id dto hashed) w.users refl)))
      ]

  pub delete_user-Refines :
      (id : String) (now : ℕ) (w : World N) (u : User)
      → directory w.users id ≡ some u
      → Refines (removing id) w.users (delete_user tools id now w)
  unfolding delete_user
  delete_user-Refines id now w u found = elim (Bool-cases (is_some (row_at id w.users))) [
    | inl y ↦ rw y (
        stepped (removing id) w.users _ (with_deletion tools id now w) (
          dropped id u found (
            put-dropped id (λ v. record v { deleted_at = some now }) w.users (λ v. refl)
              (λ v. refl))))
    | inr n ↦ rw n (stays_or_throws (removing id) w.users _ w refl)
  ]

  pub update_user-Refines :
      (id : String) (dto : UpdateUser) (hashed : Option String) (w : World N) (u : User)
      → directory w.users id ≡ some u
      → Refines (updating id dto) w.users (update_user tools id dto hashed w)
  unfolding update_user changed_user
  update_user-Refines id dto hashed w u found =
      elim (Bool-cases
        (not (is_some (row_at id w.users)) || lacks_profile dto.profile id w.admins)) [
          | inl y ↦ rw y (stays_or_throws (updating id dto) w.users _ w refl)
          | inr present ↦ elim (Bool-cases (any (clashes_update id dto) w.users)) [
            | inl y ↦ rw (present, y) (stays_or_throws (updating id dto) w.users _ w refl)
            | inr n ↦
                rw (present, n)
                  (stepped (updating id dto) w.users _ (with_changes tools id dto hashed w) (
                    changed id dto hashed u found (directory-NoUser _ w.users n) (
                      put-changed id (changed_user dto hashed) w.users u (λ v. refl) (λ v. refl)
                        found)))
          ]
        ]
