-- ===== src/Accounts/Auth.antt =====
-- modules/auth: registration, login, the token's strategy and the guard of the roles. The
-- signature of a token is a parameter.
pub mod Laws
pub mod Registration
use backend_task_management.Base.{
  ℕ, String, ◌==◌, Bool, true, false, Option, none, some, List, [], ◌∷◌, get_or, any, if◌then◌else◌,
}
use backend_task_management.Common.Errors.{Thrown, Result, ok, err, error}
use backend_task_management.Common.Errors.AppException
use backend_task_management.Automation.World.{
  World, Exec, pure, throw, lift, call, catching, ◌>>=◌, ◌>>◌,
}
use backend_task_management.Accounts.Rows.{Role, AccountType, RecordStatus, User}
use backend_task_management.Accounts.Users.{Tools, CreateUser, UserView}
use backend_task_management.Accounts.Users.Service.{find_by_email, create, find_one}
use backend_task_management.Accounts.Users.Listing.{is_role}

pub record Register : Type 0 where
  pub username : String
  pub email : String
  pub password : String
  pub role : Option Role

-- What `registerUser` and `login` answer.
pub record Registered : Type 0 where
  pub access_token : String
  pub role : Role

pub record LoggedIn : Type 0 where
  pub access_token : String
  pub role : Role
  pub email : String
  pub username : String

-- `AuthPayload`
pub record AuthPayload : Type 0 where
  pub user_id : String
  pub role : Role

abbrev pub invalid_token : Thrown
invalid_token = error "UnauthorizedException" "Invalid token"

-- What `registerUser` gives to `createUser`.
unfoldable pub new_account : Register → CreateUser
new_account dto = record {
  email = dto.email;
  username = dto.username;
  password = dto.password;
  role = get_or dto.role Role.user;
  account_type = AccountType.custom;
  status = RecordStatus.active;
  is_email_verified = false;
  profile = none;
}

abbrev pub logged_in : User → String → LoggedIn
logged_in u token = record {
  access_token = token;
  role = u.role;
  email = u.email;
  username = u.username;
}

module _ {N : Type 0} (tools : Tools) where
  -- `generateJwtToken`
  unfoldable pub sign_token : String → Role → Exec N String
  sign_token id role = call tools.env (λ now w. (tools.sign id role now, w))

  abbrev pub refuse_existing : Option User → Exec N (Unit {0})
  refuse_existing none = pure tt
  refuse_existing (some _) = throw (AppException.conflict "User already exists")

  -- `registerUser`
  unfoldable pub register_user : Register → Exec N Registered
  unfolding find_by_email create new_account sign_token
  register_user dto = do
    existing ← find_by_email tools dto.email
    refuse_existing existing
    result ← create tools (new_account dto)
    token ← sign_token result.id result.role
    pure (record { access_token = token; role = result.role })

  abbrev pub existing_user : Option User → Exec N User
  existing_user none = throw (AppException.not_found "User not found")
  existing_user (some u) = pure u

  abbrev pub refuse_unless : Bool → Exec N (Unit {0})
  refuse_unless true = pure tt
  refuse_unless false = throw (AppException.unauthorized "Invalid password")

  -- `login`
  unfoldable pub login : String → String → Exec N LoggedIn
  unfolding find_by_email sign_token
  login email password = do
    found ← find_by_email tools email
    result ← existing_user found
    valid ← call tools.env (λ now w. (tools.compare password result.password, w))
    refuse_unless valid
    token ← sign_token result.id result.role
    pure (logged_in result token)

  -- `profile`
  unfoldable pub profile : String → Exec N UserView
  unfolding find_one
  profile id = find_one tools id

  unfoldable pub current_user : AuthPayload → Exec N AuthPayload
  unfolding find_one
  current_user payload = do
    found ← find_one tools payload.user_id
    pure (record { user_id = found.id; role = found.role })

  -- `validate` of the strategy, at the payload of a verified token.
  unfoldable pub validate : AuthPayload → Exec N AuthPayload
  unfolding current_user
  validate payload = catching (current_user payload) (λ _. throw invalid_token)

-- `canActivate` of the guard, at the roles that the route names.
unfoldable pub can_activate : Option (List Role) → Option AuthPayload → Result Bool
can_activate none payload = ok true
can_activate (some required) none = err (error "ForbiddenException" "User not found")
can_activate (some required) (some payload) =
    if any (is_role payload.role) required
    then ok true
    else err (error "ForbiddenException" "Access Denied")

module _ {N : Type 0} (tools : Tools) where
  -- A request to a route behind both guards, with a verified token.
  unfoldable pub authorize : Option (List Role) → AuthPayload → Exec N Bool
  unfolding validate can_activate
  authorize required payload = do
    current ← validate tools payload
    lift (can_activate required (some current))
