-- ===== src/Files/Service.antt =====
-- modules/files/files.service.ts and files.repository.ts. Upload links, private links and public
-- addresses of the storage, the hash of a file key and the name in a path are parameters.
use backend_task_management.Base.{
  ℕ, String, ◌==◌, ◌&&◌, Bool, true, false, Option, none, some, List, [], ◌∷◌, map, any, includes,
  get_or, non_empty, if◌then◌else◌,
}
use backend_task_management.Common.Errors.{Result, ok, err, prisma_error}
use backend_task_management.Common.Errors.AppException
use backend_task_management.Automation.World.{
  World, Env, Exec, pure, throw, lift, call, ◌>>=◌, ◌>>◌,
}
use backend_task_management.Files.{detect_category, validate_size}
use backend_task_management.Files.Rows.{File, FileJob, process_uploaded}

pub record Tools : Type 0 where
  pub env : Env
  pub file_id : List File → String
  pub public_url : String → String
  pub private_url : String → ℕ → String

-- `ConfirmUploadDto`, without the metadata.
pub record ConfirmUpload : Type 0 where
  pub file_key : String
  pub filename : String
  pub path : String
  pub mimetype : String
  pub size : ℕ
  pub entity_id : Option String
  pub entity_type : Option String
  pub is_primary : Option Bool
  pub is_public : Option Bool

abbrev pub is_text : String → Option String → Bool
is_text wanted none = false
is_text wanted (some s) = s == wanted

-- A primary file of an entity, deleted or not: `updateMany` is not behind the soft-delete extension.
abbrev pub is_primary_of : String → String → File → Bool
is_primary_of entity_id entity_type f =
    is_text entity_id f.entity_id && (is_text entity_type f.entity_type && f.is_primary)

abbrev pub demote : String → String → File → File
demote entity_id entity_type f =
    if is_primary_of entity_id entity_type f then record f { is_primary = false } else f

-- `unsetPrimary`
unfoldable pub unset_primary : String → String → List File → List File
unset_primary entity_id entity_type files = map (demote entity_id entity_type) files

abbrev pub truthy : Option String → Option String
truthy none = none
truthy (some s) = if non_empty s then some s else none

-- `isPublic === false ? null : getPublicUrl(path)`
abbrev url_of : Tools → Option Bool → String → Option String
url_of tools none path = some (tools.public_url path)
url_of tools (some true) path = some (tools.public_url path)
url_of tools (some false) path = none

-- The row that `confirmUpload` creates.
unfoldable pub new_file : Tools → String → ConfirmUpload → File
unfolding detect_category
new_file tools id dto = record {
  id = id;
  filename = dto.filename;
  mimetype = dto.mimetype;
  size = dto.size;
  path = dto.path;
  url = url_of tools dto.is_public dto.path;
  file_key = dto.file_key;
  category = detect_category dto.mimetype;
  entity_id = dto.entity_id;
  entity_type = dto.entity_type;
  created_by_id = none;
  is_primary = get_or dto.is_primary false;
  is_public = get_or dto.is_public true;
  deleted_at = none;
}

abbrev first_key : String → List File → Option File
first_key key [] = none
first_key key (f ∷ files) =
    let rest = first_key key files in if f.file_key == key then some f else rest

abbrev pub has_key : String → File → Bool
has_key key f = f.file_key == key

module _ {N : Type 0} (tools : Tools) where
  -- `findByFileKey`: `findUnique` is not behind the soft-delete extension.
  unfoldable pub find_by_file_key : String → Exec N (Option File)
  find_by_file_key key = call tools.env (λ now w. (first_key key w.files, w))

  unfoldable pub insert_file : ConfirmUpload → World N → Result File × World N
  unfolding new_file
  insert_file dto w =
      let f = new_file tools (tools.file_id w.files) dto in
      if any (has_key dto.file_key) w.files
      then (err (prisma_error "P2002" "Unique constraint failed"), w)
      else (ok f, record w { files = f ∷ w.files })

  -- `addProcessUploadedFileJob` and `addDeleteS3FileJob`
  abbrev pub add_job : FileJob → Exec N (Unit {0})
  add_job job = call tools.env (λ now w. (tt, record w { file_jobs = job ∷ w.file_jobs }))

  abbrev pub refuse_existing : Option File → Exec N (Unit {0})
  refuse_existing none = pure tt
  refuse_existing (some _) = throw (AppException.conflict "File already confirmed")

  abbrev pub refuse_missing : Bool → Exec N (Unit {0})
  refuse_missing true = pure tt
  refuse_missing false = throw (AppException.bad_request "File was not uploaded to S3")

  abbrev pub demoting : String → String → Exec N (Unit {0})
  demoting id type =
      call tools.env (λ now w. (tt, record w { files = unset_primary id type w.files }))

  -- `if (dto.isPrimary && dto.entityId && dto.entityType)`
  abbrev pub demote_others : Bool → Option String → Option String → Exec N (Unit {0})
  demote_others true (some id) (some type) = demoting id type
  demote_others true (some id) none = pure tt
  demote_others true none type = pure tt
  demote_others false id type = pure tt

  -- `confirmUpload`
  unfoldable pub confirm_upload : ConfirmUpload → Exec N File
  unfolding find_by_file_key detect_category validate_size insert_file unset_primary
  confirm_upload dto = do
    existing ← find_by_file_key dto.file_key
    refuse_existing existing
    uploaded ← call tools.env (λ now w. (includes w.objects dto.path, w))
    refuse_missing uploaded
    lift (validate_size (detect_category dto.mimetype) dto.size)
    demote_others (get_or dto.is_primary false) (truthy dto.entity_id) (truthy dto.entity_type)
    answer ← call tools.env (λ now w. insert_file dto w)
    file ← lift answer
    add_job (process_uploaded file.id file.path file.mimetype)
    pure file
