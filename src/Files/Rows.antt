-- ===== src/Files/Rows.antt =====
-- The rows of prisma/file.prisma, without the columns that the service leaves to their defaults,
-- and the jobs of the file queue.
use backend_task_management.Base.{ℕ, String, Bool, Option}

pub data FileCategory : Type 0 where
  image video audio document pdf other : FileCategory

pub record File : Type 0 where
  pub id : String
  pub filename : String
  pub mimetype : String
  pub size : ℕ
  pub path : String
  pub url : Option String
  pub file_key : String
  pub category : FileCategory
  pub entity_id : Option String
  pub entity_type : Option String
  pub created_by_id : Option String
  pub is_primary : Bool
  pub is_public : Bool
  pub deleted_at : Option ℕ

-- A job with its custom id.
pub data FileJob : Type 0 where
  process_uploaded : String → String → String → FileJob  -- file id, path, mimetype
  delete_object : String → FileJob  -- path
