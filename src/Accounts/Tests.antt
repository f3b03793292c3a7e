-- ===== src/Accounts/Tests.antt =====
-- The theorems on users and their access at concrete inputs.
use backend_task_management.Base.{
  ℕ, String, ◌==◌, ◌<>◌, ◌≡◌, ◌≢◌, refl, true, false, none, some, [], ◌∷◌, eq_refl,
}
use backend_task_management.Common.Errors.{ok}
use backend_task_management.Common.SoftDelete.{find_first, scoped}
use backend_task_management.Automation.World.{World, call, lift, pure, throw, catching, ◌>>=◌, ◌>>◌}
use backend_task_management.Automation.Tests.Data.{calm, ready}
use backend_task_management.Accounts.Rows.{User, Role, AccountType, RecordStatus}
use backend_task_management.Accounts.Users.{Tools, UpdateUser, UserView, view_of}
use backend_task_management.Accounts.Users.Store.{first_user, delete_user, insert_user, new_user}
use backend_task_management.Accounts.Users.Service.{
  find_one, find_by_email, create, remove, ensure_unique_email, find_by_username,
  ensure_unique_username,
}
use backend_task_management.Accounts.Users.Directory.{updating, directory, Refines, perform}
use backend_task_management.Accounts.Users.Directory.Laws.{perform-Refines}
use backend_task_management.Accounts.Auth.{
  AuthPayload, Register, Registered, authorize, validate, current_user, can_activate, login,
  logged_in, sign_token, register_user, new_account,
}
use backend_task_management.Accounts.Auth.Laws.{
  HasRole, authorize_ok, remove-authorize_never, login_ok,
}
use backend_task_management.Accounts.Auth.Registration.{register_user-login}

abbrev pub ann : User
ann = record {
  id = "u1";
  email = "ann@example.com";
  username = "ann";
  password = "secret#";
  role = Role.user;
  account_type = AccountType.custom;
  is_email_verified = true;
  status = RecordStatus.active;
  deleted_at = none;
}

abbrev pub tools : Tools
tools = record {
  env = calm;
  hash = λ password n. password <> "#";
  compare = λ password hashed. hashed == password <> "#";
  sign = λ id role now. "token-" <> id;
  user_id = λ users. "u9";
  admin_id = λ admins. "a9";
  contains = λ a b. false;
}

abbrev pub peopled : World ℕ
peopled = record ready { users = ann ∷ [] }

abbrev renaming : UpdateUser
renaming = record {
  email = none;
  username = some "anna";
  password = none;
  role = none;
  account_type = none;
  status = none;
  is_email_verified = none;
  profile = none;
}

perform-Refines_example :
    Refines (updating "u1" renaming) peopled.users (perform tools (updating "u1" renaming) peopled)
perform-Refines_example = perform-Refines tools (updating "u1" renaming) peopled

-- A token that names a role which the table does not have.
abbrev forged : AuthPayload
forged = record { user_id = "u1"; role = Role.admin }

enters : (authorize tools (some (Role.user ∷ [])) forged peopled).0 ≡ ok true
unfolding authorize validate current_user can_activate find_one first_user find_first scoped view_of
    call lift pure throw catching ◌>>=◌ ◌>>◌
enters = refl

authorize_ok_example :
    (u : User) × (directory peopled.users "u1" ≡ some u) × HasRole (some (Role.user ∷ [])) u.role
authorize_ok_example = authorize_ok tools (some (Role.user ∷ [])) forged peopled true enters

abbrev removed_view : UserView
removed_view = record (view_of [] ann) { deleted_at = some 1001 }

removes : (remove tools "u1" peopled).0 ≡ ok removed_view
unfolding remove delete_user find_one first_user find_first scoped view_of call lift pure throw
    ◌>>=◌ ◌>>◌
removes = refl

remove-authorize_never_example :
    (authorize tools none forged (remove tools "u1" peopled).1).0 ≢ ok true
remove-authorize_never_example =
    remove-authorize_never tools none forged peopled removed_view true removes

logs_in : (login tools "ann@example.com" "secret" peopled).0 ≡ ok (logged_in ann "token-u1")
unfolding login find_by_email sign_token first_user find_first scoped call lift pure throw ◌>>=◌
    ◌>>◌
logs_in = refl

login_ok_example :
    (u : User) × (first_user (λ u. u.email == "ann@example.com") peopled.users ≡ some u)
    × (tools.compare "secret" u.password ≡ true)
    × (Role.user ≡ u.role)
    × ((t : ℕ) × ("token-u1" ≡ tools.sign u.id u.role t))
login_ok_example =
    login_ok tools "ann@example.com" "secret" peopled (logged_in ann "token-u1") logs_in

abbrev newcomer : Register
newcomer = record { username = "bob"; email = "bob@example.com"; password = "hunter"; role = none }

abbrev welcomed : Registered
welcomed = record { access_token = "token-u9"; role = Role.user }

registers : (register_user tools newcomer peopled).0 ≡ ok welcomed
unfolding register_user new_account create insert_user new_user ensure_unique_email
    ensure_unique_username find_by_email find_by_username sign_token first_user find_first scoped
    view_of call lift pure throw ◌>>=◌ ◌>>◌
registers = refl

register_user-login_example :
    (token : String) × ((login tools "bob@example.com" "hunter"
        (register_user tools newcomer peopled).1).0
      ≡ ok (record {
        access_token = token;
        role = Role.user;
        email = "bob@example.com";
        username = "bob";
      }))
register_user-login_example =
    register_user-login tools newcomer peopled welcomed (λ n. refl)
      (λ password n. eq_refl (password <> "#")) registers
