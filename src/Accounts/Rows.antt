-- ===== src/Accounts/Rows.antt =====
-- The rows of prisma/user.prisma and prisma/admin.prisma, without their time stamps, and
-- without the image and the status of an administrator, which no service reads.
use backend_task_management.Base.{ℕ, String, Bool, Option}

-- `ROLE`
pub data Role : Type 0 where
  user admin super_admin : Role

pub data AccountType : Type 0 where
  custom google : AccountType

pub data RecordStatus : Type 0 where
  active inactive blocked archived : RecordStatus

pub record User : Type 0 where
  pub id : String
  pub email : String
  pub username : String
  pub password : String
  pub role : Role
  pub account_type : AccountType
  pub is_email_verified : Bool
  pub status : RecordStatus
  pub deleted_at : Option ℕ

pub record Admin : Type 0 where
  pub id : String
  pub user_id : String
  pub first_name : String
  pub last_name : String
  pub phone : Option String
  pub address : Option String
  pub deleted_at : Option ℕ
