-- ===== src/Accounts/Users/Service.antt =====
-- modules/user/user.service.ts.
use backend_task_management.Base.{String, ◌==◌, Bool, true, false, not, Option, none, some, List}
use backend_task_management.Common.Errors.AppException
use backend_task_management.Automation.World.{Exec, pure, throw, lift, call, ◌>>=◌, ◌>>◌}
use backend_task_management.Accounts.Rows.{User, Admin}
use backend_task_management.Accounts.Users.{
  Tools, CreateUser, UpdateUser, UserView, view_of, given_text,
}
use backend_task_management.Accounts.Users.Store.{
  first_user, has_id, insert_user, update_user, delete_user,
}

-- `user && user.id !== excludeId`
abbrev pub is_other : Option String → Option User → Bool
is_other excluded none = false
is_other none (some u) = true
is_other (some id) (some u) = not (u.id == id)

abbrev pub viewed : Option User → List Admin → Option UserView
viewed none profiles = none
viewed (some u) profiles = some (view_of profiles u)

module _ {N : Type 0} (tools : Tools) where
  abbrev pub read_user : (User → Bool) → Exec N (Option User)
  read_user p = call tools.env (λ now w. (first_user p w.users, w))

  -- `findByEmail`, whose row keeps the password.
  unfoldable pub find_by_email : String → Exec N (Option User)
  find_by_email email = read_user (λ u. u.email == email)

  unfoldable pub find_by_username : String → Exec N (Option User)
  find_by_username username = read_user (λ u. u.username == username)

  abbrev pub conflict_if : Bool → String → Exec N (Unit {0})
  conflict_if true message = throw (AppException.conflict message)
  conflict_if false message = pure tt

  unfoldable pub ensure_unique_email : String → Option String → Exec N (Unit {0})
  unfolding find_by_email
  ensure_unique_email email excluded = do
    found ← find_by_email email
    conflict_if (is_other excluded found) "Email already exists"

  unfoldable pub ensure_unique_username : String → Option String → Exec N (Unit {0})
  unfolding find_by_username
  ensure_unique_username username excluded = do
    found ← find_by_username username
    conflict_if (is_other excluded found) "Username already exists"

  -- `bcrypt.hash(password, 12)`
  abbrev pub hashed_password : String → Exec N String
  hashed_password password = call tools.env (λ now w. (tools.hash password w.calls, w))

  -- `create`, whose transaction around a new administrator holds the one statement.
  unfoldable pub create : CreateUser → Exec N UserView
  unfolding ensure_unique_email ensure_unique_username insert_user
  create dto = do
    ensure_unique_email dto.email none
    ensure_unique_username dto.username none
    hashed ← hashed_password dto.password
    answer ← call tools.env (λ now w. insert_user tools dto hashed w)
    lift answer

  abbrev pub found_view : Option UserView → Exec N UserView
  found_view none = throw (AppException.not_found "User not found")
  found_view (some v) = pure v

  -- `findOne`
  unfoldable pub find_one : String → Exec N UserView
  unfolding first_user
  find_one id = do
    found ← call tools.env (λ now w. (viewed (first_user (has_id id) w.users) w.admins, w))
    found_view found

  abbrev pub check_email : Option String → String → Exec N (Unit {0})
  check_email none id = pure tt
  check_email (some email) id = ensure_unique_email email (some id)

  abbrev pub check_username : Option String → String → Exec N (Unit {0})
  check_username none id = pure tt
  check_username (some username) id = ensure_unique_username username (some id)

  abbrev pub hashed_change : Option String → Exec N (Option String)
  hashed_change none = pure none
  hashed_change (some password) = call tools.env (λ now w. (some (tools.hash password w.calls), w))

  -- `update`
  unfoldable pub update : String → UpdateUser → Exec N UserView
  unfolding find_one ensure_unique_email ensure_unique_username update_user
  update id dto = do
    find_one id
    check_email (given_text dto.email) id
    check_username (given_text dto.username) id
    hashed ← hashed_change (given_text dto.password)
    answer ← call tools.env (λ now w. update_user tools id dto hashed w)
    lift answer

  -- `remove`
  unfoldable pub remove : String → Exec N UserView
  unfolding find_one delete_user
  remove id = do
    find_one id
    answer ← call tools.env (λ now w. delete_user tools id now w)
    lift answer
