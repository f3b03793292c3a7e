-- ===== src/Files.antt =====
-- modules/files: files.service.ts and files.repository.ts over the object storage and the queue,
-- with the helpers of common/utils and common/constants.
pub mod Rows
pub mod Service
pub mod Access
pub mod Primary
pub mod Laws
mod Tests
use backend_task_management.Base.{
  ℕ, ◌*◌, ◌/◌, String, ◌==◌, ◌<>◌, ◌||◌, Bool, true, false, Option, none, some, List, [], ◌∷◌, ltb,
  if◌then◌else◌,
}
use backend_task_management.Js.Text.{starts_with, has_part, show_nat}
use backend_task_management.Common.Errors.{Result, ok, err}
use backend_task_management.Common.Errors.AppException
use backend_task_management.Files.Rows.{FileCategory}

-- `detectFileCategory`
unfoldable pub detect_category : String → FileCategory
unfolding starts_with has_part
detect_category mimetype =
    if starts_with "image/" mimetype
    then FileCategory.image
    else if starts_with "video/" mimetype
    then FileCategory.video
    else if starts_with "audio/" mimetype
    then FileCategory.audio
    else if mimetype == "application/pdf"
    then FileCategory.pdf
    else if has_part "word" mimetype
        || has_part "excel" mimetype
        || has_part "powerpoint" mimetype
        || has_part "text" mimetype
        || has_part "application/" mimetype
    then FileCategory.document
    else FileCategory.other

-- `FILE_SIZE_LIMIT`, in megabytes.
abbrev pub megabytes : FileCategory → ℕ
megabytes FileCategory.image = 5
megabytes FileCategory.video = 50
megabytes FileCategory.audio = 20
megabytes FileCategory.pdf = 20
megabytes FileCategory.document = 20
megabytes FileCategory.other = 10

abbrev pub size_limit : FileCategory → ℕ
size_limit category = megabytes category * 1048576

abbrev show_category : FileCategory → String
show_category FileCategory.image = "image"
show_category FileCategory.video = "video"
show_category FileCategory.audio = "audio"
show_category FileCategory.pdf = "pdf"
show_category FileCategory.document = "document"
show_category FileCategory.other = "other"

-- `validateFileSize`
unfoldable pub validate_size : FileCategory → ℕ → Result (Unit {0})
validate_size category size =
    if ltb (size_limit category) size
    then err (
        AppException.bad_request (
          "File size too large. Max allowed size for "
          <> show_category category
          <> " is "
          <> show_nat (megabytes category)
          <> "MB"))
    else ok tt
