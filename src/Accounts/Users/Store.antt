-- ===== src/Accounts/Users/Store.antt =====
-- modules/user/user.repository.ts: the statements on users, with the columns that are unique.
use backend_task_management.Base.{
  ℕ, String, ◌==◌, ◌&&◌, ◌||◌, Bool, true, false, not, Option, none, some, List, [], ◌∷◌, map, any,
  get_or, is_some, if◌then◌else◌,
}
use backend_task_management.Common.Errors.{Result, ok, err, prisma_error}
use backend_task_management.Common.SoftDelete.{user_model, only, find_first}
use backend_task_management.Automation.World.{World}
use backend_task_management.Accounts.Rows.{User, Admin}
use backend_task_management.Accounts.Users.{
  Tools, Profile, ProfileUpdate, CreateUser, UpdateUser, UserView, view_of, profile_of, is_admin,
  written, given_text,
}

-- `where: { id }` and the like, through the soft-delete extension.
unfoldable pub first_user : (User → Bool) → List User → Option User
unfolding find_first
first_user p users = find_first user_model (λ u. u.deleted_at) (only p) users

abbrev pub has_id : String → User → Bool
has_id id u = u.id == id

-- A row with one of the unique columns.
abbrev pub clashes : String → String → String → User → Bool
clashes id email username u = u.id == id || u.email == email || u.username == username

abbrev unique_violation : {A : Type 0} → Result A
unique_violation = err (prisma_error "P2002" "Unique constraint failed")

abbrev missing_record : {A : Type 0} → Result A
missing_record = err (prisma_error "P2025" "No record was found")

-- `mapCreateUserDto`
unfoldable pub new_user : String → CreateUser → String → User
new_user id dto hashed = record {
  id = id;
  email = dto.email;
  username = dto.username;
  password = hashed;
  role = dto.role;
  account_type = dto.account_type;
  status = dto.status;
  is_email_verified = dto.is_email_verified;
  deleted_at = none;
}

abbrev new_profile : String → String → Profile → Admin
new_profile id user_id p = record {
  id = id;
  user_id = user_id;
  first_name = p.first_name;
  last_name = p.last_name;
  phone = p.phone;
  address = p.address;
  deleted_at = none;
}

-- The nested create of `mapCreateUserDto`.
abbrev with_profile : Bool → String → String → Option Profile → List Admin → List Admin
with_profile true id user_id (some p) admins = new_profile id user_id p ∷ admins
with_profile true id user_id none admins = admins
with_profile false id user_id p admins = admins

abbrev set_password : Option String → String → String
set_password none old = old
set_password (some s) old = s

-- `mapUpdateUserDto` over a row, with the hash of the new password.
unfoldable pub changed_user : UpdateUser → Option String → User → User
changed_user dto hashed u = record u {
  email = written dto.email u.email;
  username = written dto.username u.username;
  password = set_password hashed u.password;
  role = get_or dto.role u.role;
  account_type = get_or dto.account_type u.account_type;
  status = get_or dto.status u.status;
  is_email_verified = get_or dto.is_email_verified u.is_email_verified;
}

abbrev optional_text : Option String → Option String → Option String
optional_text none old = old
optional_text (some s) old = some s

abbrev pub changed_profile : ProfileUpdate → Admin → Admin
changed_profile p a = record a {
  first_name = written p.first_name a.first_name;
  last_name = written p.last_name a.last_name;
  phone = optional_text p.phone a.phone;
  address = optional_text p.address a.address;
}

abbrev at_profile : Option ProfileUpdate → String → Admin → Admin
at_profile none id a = a
at_profile (some p) id a = if a.user_id == id then changed_profile p a else a

abbrev pub at_id : String → (User → User) → User → User
at_id id f u = if has_id id u then f u else u

-- Another row with the email or the username that the update writes.
abbrev takes : Option String → String → Bool
takes none actual = false
takes (some s) actual = actual == s

abbrev pub clashes_update : String → UpdateUser → User → Bool
clashes_update id dto u =
    not (has_id id u)
    && (takes (given_text dto.email) u.email || takes (given_text dto.username) u.username)

-- The profile that a nested update needs is missing.
abbrev pub lacks_profile : Option ProfileUpdate → String → List Admin → Bool
lacks_profile none id admins = false
lacks_profile (some _) id admins = not (is_some (profile_of id admins))

abbrev selected : Option User → List Admin → Result UserView
selected none admins = missing_record
selected (some u) admins = ok (view_of admins u)

-- The row with the id, deleted or not.
abbrev pub row_at : String → List User → Option User
row_at id [] = none
row_at id (u ∷ users) = let rest = row_at id users in if has_id id u then some u else rest

module _ {N : Type 0} (tools : Tools) where
  abbrev pub with_user : CreateUser → String → World N → World N
  with_user dto hashed w =
      let id = tools.user_id w.users in
      record w {
        users = new_user id dto hashed ∷ w.users;
        admins = with_profile (is_admin dto.role) (tools.admin_id w.admins) id dto.profile w.admins;
      }

  -- `create`
  unfoldable pub insert_user : CreateUser → String → World N → Result UserView × World N
  unfolding new_user
  insert_user dto hashed w =
      let id = tools.user_id w.users in
      if any (clashes id dto.email dto.username) w.users then (unique_violation, w) else (
        ok (view_of (with_user dto hashed w).admins (new_user id dto hashed)),
        with_user dto hashed w,
      )

  abbrev pub with_changes : String → UpdateUser → Option String → World N → World N
  with_changes id dto hashed w = record w {
    users = map (at_id id (changed_user dto hashed)) w.users;
    admins = map (at_profile dto.profile id) w.admins;
  }

  -- `update`
  unfoldable pub update_user :
      String → UpdateUser → Option String → World N → Result UserView × World N
  unfolding changed_user
  update_user id dto hashed w =
      if not (is_some (row_at id w.users)) || lacks_profile dto.profile id w.admins
      then (missing_record, w)
      else if any (clashes_update id dto) w.users
      then (unique_violation, w)
      else (
        selected (row_at id (with_changes id dto hashed w).users)
            (with_changes id dto hashed w).admins,
        with_changes id dto hashed w,
      )

  abbrev pub with_deletion : String → ℕ → World N → World N
  with_deletion id now w = record w {
    users = map (at_id id (λ u. record u { deleted_at = some now })) w.users;
  }

  -- `remove`
  unfoldable pub delete_user : String → ℕ → World N → Result UserView × World N
  delete_user id now w =
      if is_some (row_at id w.users)
      then (selected (row_at id (with_deletion id now w).users) w.admins, with_deletion id now w)
      else (missing_record, w)
