-- ===== src/Files/Access.antt =====
-- The links, listings and deletions of modules/files/files.service.ts, and the jobs of
-- modules/files/queue/file-processor.worker.ts.
use backend_task_management.Base.{
  ℕ, suc, zero, ◌*◌, String, ◌==◌, ◌&&◌, Bool, true, false, not, Option, none, some, List, map, any,
  keep, get_or, if◌then◌else◌,
}
use backend_task_management.Common.Errors.{Result, ok, err, prisma_error}
use backend_task_management.Common.Errors.AppException
use backend_task_management.Common.Listing.{Ordering, find_many, count}
use backend_task_management.Common.Pagination.{whole, OffsetPagination, Skip, desc, rows, before}
use backend_task_management.Common.SoftDelete.{file_model, only, find_first}
use backend_task_management.Rule.Repository.{is_null}
use backend_task_management.Automation.World.{World, Exec, pure, throw, lift, call, ◌>>=◌, ◌>>◌}
use backend_task_management.Files.Rows.{
  FileCategory, File, FileJob, process_uploaded, delete_object,
}
use backend_task_management.Files.Service.{Tools, find_by_file_key, add_job, is_text, truthy}

abbrev pub has_id : String → File → Bool
has_id id f = f.id == id

-- `findById`
unfoldable pub first_file : String → List File → Option File
unfolding find_first
first_file id files = find_first file_model (λ f. f.deleted_at) (only (has_id id)) files

abbrev pub deleted_at_id : String → ℕ → File → File
deleted_at_id id now f = if has_id id f then record f { deleted_at = some now } else f

-- `softDelete`
unfoldable pub delete_row : {N : Type 0} → String → ℕ → World N → Result (Unit {0}) × World N
delete_row id now w =
    if any (has_id id) w.files
    then (ok tt, record w { files = map (deleted_at_id id now) w.files })
    else (err (prisma_error "P2025" "No record was found"), w)

-- What `getPrivateFileUrl` answers.
pub record FileUrl : Type 0 where
  pub url : Option String
  pub is_public : Bool

abbrev live_or_none : Option File → Option File
live_or_none none = none
live_or_none (some f) = if is_null f.deleted_at then some f else none

module _ {N : Type 0} (tools : Tools) where
  abbrev found_file : Option File → Exec N File
  found_file none = throw (AppException.not_found "File not found")
  found_file (some f) = pure f

  -- `deleteFile`
  unfoldable pub delete_file : String → Exec N (Unit {0})
  unfolding first_file delete_row
  delete_file id = do
    found ← call tools.env (λ now w. (first_file id w.files, w))
    file ← found_file found
    answer ← call tools.env (λ now w. delete_row id now w)
    lift answer
    add_job tools (delete_object file.path)

  abbrev url_for : Bool → File → Exec N FileUrl
  url_for true f = pure (record { url = f.url; is_public = true })
  url_for false f = do
    signed ← call tools.env (λ now w. (tools.private_url f.path now, w))
    pure (record { url = some signed; is_public = false })

  -- `getPrivateFileUrl`
  unfoldable pub get_private_file_url : String → Exec N FileUrl
  unfolding find_by_file_key
  get_private_file_url key = do
    found ← find_by_file_key tools key
    file ← found_file (live_or_none found)
    url_for file.is_public file

  -- `deleteFile` of the storage, by the worker: the object is gone, present before or not.
  unfoldable pub run_job : FileJob → Exec N (Unit {0})
  run_job (process_uploaded id path mimetype) = pure tt
  run_job (delete_object path) =
      call tools.env (λ now w. (tt, record w { objects = keep (λ o. not (o == path)) w.objects }))

-- `FileQueryDto`
pub record FileQuery : Type 0 where
  pub page : Option ℕ
  pub limit : Option ℕ
  pub category : Option FileCategory
  pub entity_id : Option String
  pub entity_type : Option String
  pub created_by_id : Option String

pub record FilePage : Type 0 where
  pub page : ℕ
  pub limit : ℕ
  pub count : ℕ
  pub items : List File

abbrev is_category : FileCategory → FileCategory → Bool
is_category FileCategory.image FileCategory.image = true
is_category FileCategory.video FileCategory.video = true
is_category FileCategory.audio FileCategory.audio = true
is_category FileCategory.document FileCategory.document = true
is_category FileCategory.pdf FileCategory.pdf = true
is_category FileCategory.other FileCategory.other = true
is_category _ _ = false

abbrev category_fits : Option FileCategory → FileCategory → Bool
category_fits none actual = true
category_fits (some wanted) actual = is_category wanted actual

abbrev text_fits : Option String → Option String → Bool
text_fits none actual = true
text_fits (some wanted) actual = is_text wanted actual

-- The `where` of `listFiles`, with the `deletedAt: null` of the repository.
unfoldable pub query_fits : FileQuery → File → Bool
query_fits query f =
    is_null f.deleted_at
    && (category_fits query.category f.category
        && (text_fits (truthy query.entity_id) f.entity_id
            && (text_fits (truthy query.entity_type) f.entity_type
                && text_fits (truthy query.created_by_id) f.created_by_id)))

abbrev skip_to : ℕ → ℕ → Skip
skip_to zero limit = before limit
skip_to (suc page) limit = rows (page * limit)

abbrev newest_first : ℕ → ℕ → OffsetPagination
newest_first page limit = record {
  page = some (whole page);
  limit = some (whole limit);
  skip = skip_to page limit;
  sort_by = some "createdAt";
  sort_order = some desc;
}

module _ {N : Type 0} (tools : Tools) (db : Ordering File) where
  -- `listFiles`
  unfoldable pub list_files : FileQuery → Exec N FilePage
  unfolding find_many count query_fits
  list_files query = do
    let page = get_or query.page 1
    let limit = get_or query.limit 20
    both ← call {A = ℕ × Result (List File)} tools.env (λ now w. (
      (
        count db (query_fits query) w.files,
        find_many db (query_fits query) (newest_first page limit) w.files,
      ),
      w,
    ))
    items ← lift both.1
    pure (record { page = page; limit = limit; count = both.0; items = items })
