-- ===== src/Accounts/Admins/Laws.antt =====
-- When a profile can be created.
use backend_task_management.Base.{
  suc, ◌≡◌, refl, ◌&&◌, String, Bool, true, false, Option, none, List, [], ◌∷◌, any, is_some,
  Bool-cases, inl, inr, Option-cases, arith,
}
use backend_task_management.Common.Errors.{ok, err, prisma_error, Thrown}
use backend_task_management.Common.Errors.AppException
use backend_task_management.Common.SoftDelete.{first_match, find_first, scoped}
use backend_task_management.Rule.Repository.{is_null}
use backend_task_management.Automation.World.{
  World, done, Exec, call, lift, pure, throw, ◌>>=◌, ◌>>◌,
}
use backend_task_management.Automation.World.Keeps.{counted}
use backend_task_management.Accounts.Rows.{Admin}
use backend_task_management.Accounts.Users.{Tools}
use backend_task_management.Accounts.Users.Store.{row_at}
use backend_task_management.Accounts.Admins.{
  CreateAdmin, AdminView, create, insert_admin, new_admin, admin_view, of_user, find_by_user_id,
  refuse_existing, first_admin,
}

is_some-first_match :
    {A : Type 0} (p : A → Bool) (rows : List A) → is_some (first_match p rows) ≡ any p rows
is_some-first_match p [] = refl
is_some-first_match p (a ∷ rows) = elim (Bool-cases (p a)) [
  | inl y ↦ rw y refl
  | inr n ↦ rw n (is_some-first_match p rows)
]

-- A profile of the user that is not removed.
abbrev pub has_live : String → List Admin → Bool
has_live user_id admins = any (λ a. is_null a.deleted_at && of_user user_id a) admins

is_some-first_admin :
    (user_id : String) (admins : List Admin)
    → is_some (first_admin (of_user user_id) admins) ≡ has_live user_id admins
unfolding first_admin find_first scoped
is_some-first_admin user_id admins = is_some-first_match _ admins

has_live-any :
    (user_id : String) (admins : List Admin)
    → any (of_user user_id) admins ≡ false
    → has_live user_id admins ≡ false
has_live-any user_id [] h = refl
has_live-any user_id (a ∷ admins) h = ground (arith, has_live-any user_id admins)

-- A live row with what was asked.
abbrev pub IsProfile : CreateAdmin → Admin → Type 0
IsProfile dto a =
    (a.user_id ≡ dto.user_id)
    × (a.first_name ≡ dto.first_name)
    × (a.last_name ≡ dto.last_name)
    × (a.phone ≡ dto.phone)
    × (a.address ≡ dto.address)
    × (a.deleted_at ≡ none)

module _ {N : Type 0} (tools : Tools) (dto : CreateAdmin) where
  -- What follows the read of an existing profile.
  after_read : Option Admin → Exec N AdminView
  after_read existing = do
    refuse_existing tools existing
    answer ← call tools.env (λ now w. insert_admin tools dto w)
    lift answer

  create-after_read :
      (w : World N)
      → tools.env.fate w.calls ≡ done
      → create tools dto w ≡ after_read (first_admin (of_user dto.user_id) w.admins) (counted w)
  unfolding create find_by_user_id call ◌>>=◌ after_read
  create-after_read w passes = rw passes refl

  abbrev pub IsRefused : Thrown → World N → Type 0
  IsRefused e w = ((create tools dto w).0 ≡ err e) × ((create tools dto w).1.admins ≡ w.admins)

  create-IsRefused :
      (w : World N)
      → tools.env.fate w.calls ≡ done
      → has_live dto.user_id w.admins ≡ true
      → IsRefused (AppException.conflict "Admin profile already exists") w
  unfolding after_read ◌>>◌ ◌>>=◌ throw
  create-IsRefused w passes live =
      elim (Option-cases (first_admin (of_user dto.user_id) w.admins)) [
        | inl missing ↦ let found = is_some-first_admin dto.user_id w.admins in cc
        | inr (a, found) ↦ rw (create-after_read w passes, found) (refl, refl)
      ]

  inserted :
      (w : World N)
      → tools.env.fate w.calls ≡ done
      → tools.env.fate (suc w.calls) ≡ done
      → has_live dto.user_id w.admins ≡ false
      → create tools dto w ≡ insert_admin tools dto (counted (counted w))
  unfolding after_read ◌>>◌ ◌>>=◌ pure call lift
  inserted w passes passes' dead =
      elim (Option-cases (first_admin (of_user dto.user_id) w.admins)) [
        | inr (a, found) ↦ let some_found = is_some-first_admin dto.user_id w.admins in cc
        | inl missing ↦ rw (create-after_read w passes, missing, passes') refl
      ]

  -- Let the read and the insert of a creation be carried out. A user with a profile that is not
  -- removed is refused as a conflict. Any other is refused by the database when it has no row, and
  -- by the unique index when it has a removed profile. No refusal changes a profile. A user with
  -- a row and without any profile gets a live one with the data that was sent, as the one new row.
  pub create-has_live :
      (w : World N)
      → tools.env.fate w.calls ≡ done
      → tools.env.fate (suc w.calls) ≡ done
      → (has_live dto.user_id w.admins ≡ true
          → IsRefused (AppException.conflict "Admin profile already exists") w)
        × (has_live dto.user_id w.admins ≡ false
            → is_some (row_at dto.user_id w.users) ≡ false
            → IsRefused (prisma_error "P2025" "No record was found for a connection") w)
        × (has_live dto.user_id w.admins ≡ false
            → is_some (row_at dto.user_id w.users) ≡ true
            → any (of_user dto.user_id) w.admins ≡ true
            → IsRefused (prisma_error "P2002" "Unique constraint failed") w)
        × (is_some (row_at dto.user_id w.users) ≡ true
            → any (of_user dto.user_id) w.admins ≡ false
            → (v : AdminView) × ((create tools dto w).0 ≡ ok v)
              × ((create tools dto w).1.admins ≡ v.admin ∷ w.admins)
              × IsProfile dto v.admin)
  unfolding insert_admin new_admin admin_view
  create-has_live w passes passes' = (
    create-IsRefused w passes,
    λ dead gone. rw (inserted w passes passes' dead, gone) (refl, refl),
    λ dead there taken. rw (inserted w passes passes' dead, there, taken) (refl, refl),
    λ there free.
        let dead = has_live-any dto.user_id w.admins free in
        (
          admin_view w.users (new_admin (tools.admin_id w.admins) dto),
          rw (inserted w passes passes' dead, there, free) refl,
          rw (inserted w passes passes' dead, there, free) refl,
          (refl, refl, refl, refl, refl, refl),
        ),
  )
