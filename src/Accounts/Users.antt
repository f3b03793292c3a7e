-- ===== src/Accounts/Users.antt =====
-- modules/user/user.service.ts and user.repository.ts. bcrypt, the ids of new rows and the
-- database's `contains` are parameters; a hash is salted by the number of calls before it.
pub mod Store
pub mod Service
pub mod Listing
pub mod Directory
use backend_task_management.Base.{
  ℕ, String, ◌==◌, ◌&&◌, ◌||◌, Bool, true, false, not, Option, none, some, List, [], ◌∷◌, map, any,
  get_or, non_empty, if◌then◌else◌,
}
use backend_task_management.Common.Errors.{Thrown, Result, ok, err, prisma_error}
use backend_task_management.Common.Errors.AppException
use backend_task_management.Common.Pagination.{OffsetQuery, build_offset_pagination}
use backend_task_management.Common.Listing.{Ordering, Page, list_at_once}
use backend_task_management.Common.SoftDelete.{user_model, only, find_first, fits, read_with}
use backend_task_management.Automation.World.{
  World, Env, Exec, pure, throw, lift, call, ◌>>=◌, ◌>>◌,
}
use backend_task_management.Accounts.Rows.{Role, AccountType, RecordStatus, User, Admin}

-- What the services are given.
pub record Tools : Type 0 where
  pub env : Env
  pub hash : String → ℕ → String
  pub compare : String → String → Bool
  pub sign : String → Role → ℕ → String
  pub user_id : List User → String
  pub admin_id : List Admin → String
  pub contains : String → String → Bool

pub record Profile : Type 0 where
  pub first_name : String
  pub last_name : String
  pub phone : Option String
  pub address : Option String

-- `CreateUserDto`, with the schema's defaults filled in.
pub record CreateUser : Type 0 where
  pub email : String
  pub username : String
  pub password : String
  pub role : Role
  pub account_type : AccountType
  pub status : RecordStatus
  pub is_email_verified : Bool
  pub profile : Option Profile

pub record ProfileUpdate : Type 0 where
  pub first_name : Option String
  pub last_name : Option String
  pub phone : Option String
  pub address : Option String

pub record UpdateUser : Type 0 where
  pub email : Option String
  pub username : Option String
  pub password : Option String
  pub role : Option Role
  pub account_type : Option AccountType
  pub status : Option RecordStatus
  pub is_email_verified : Option Bool
  pub profile : Option ProfileUpdate

pub record UserFilter : Type 0 where
  pub search : Option String
  pub email : Option String
  pub username : Option String
  pub role : Option Role
  pub account_type : Option AccountType
  pub status : Option RecordStatus
  pub is_email_verified : Option Bool

-- `userSelect`
pub record UserView : Type 0 where
  pub id : String
  pub email : String
  pub username : String
  pub role : Role
  pub account_type : AccountType
  pub status : RecordStatus
  pub is_email_verified : Bool
  pub deleted_at : Option ℕ
  pub profile : Option Admin

abbrev pub profile_of : String → List Admin → Option Admin
profile_of id [] = none
profile_of id (a ∷ rows) = let rest = profile_of id rows in if a.user_id == id then some a else rest

unfoldable pub view_of : List Admin → User → UserView
view_of profiles u = record {
  id = u.id;
  email = u.email;
  username = u.username;
  role = u.role;
  account_type = u.account_type;
  status = u.status;
  is_email_verified = u.is_email_verified;
  deleted_at = u.deleted_at;
  profile = profile_of u.id profiles;
}

-- `role === 'admin'`
abbrev pub is_admin : Role → Bool
is_admin Role.admin = true
is_admin Role.user = false
is_admin Role.super_admin = false

-- `...(text ? { key: text } : {})` over the old value.
abbrev pub written : Option String → String → String
written none old = old
written (some s) old = if non_empty s then s else old

abbrev pub given_text : Option String → Option String
given_text none = none
given_text (some s) = if non_empty s then some s else none
