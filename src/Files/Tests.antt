-- ===== src/Files/Tests.antt =====
-- A new primary picture of a product.
use backend_task_management.Base.{
  ℕ, ◌≡◌, refl, true, Bool-cases, inl, inr, none, some, [], ◌∷◌, arith,
}
use backend_task_management.Automation.World.{World}
use backend_task_management.Automation.Tests.Data.{ready, failing_at}
use backend_task_management.Files.{detect_category}
use backend_task_management.Files.Rows.{FileCategory, File}
use backend_task_management.Files.Service.{Tools, ConfirmUpload, confirm_upload, is_primary_of}
use backend_task_management.Files.Primary.{OnePrimary}
use backend_task_management.Files.Laws.{confirm_upload-OnePrimary}

categories :
    (detect_category "image/png" ≡ FileCategory.image)
    × (detect_category "application/pdf" ≡ FileCategory.pdf)
    × (detect_category "application/zip" ≡ FileCategory.document)
    × (detect_category "font/woff" ≡ FileCategory.other)
unfolding detect_category
categories = (refl, refl, refl, refl)

abbrev picture : File
picture = record {
  id = "f1";
  filename = "old.png";
  mimetype = "image/png";
  size = 10;
  path = "public/old.png";
  url = none;
  file_key = "k1";
  category = FileCategory.image;
  entity_id = some "p1";
  entity_type = some "PRODUCT";
  created_by_id = none;
  is_primary = true;
  is_public = true;
  deleted_at = none;
}

abbrev shelved : World ℕ
shelved = record ready { files = picture ∷ []; objects = "public/new.png" ∷ [] }

abbrev tools : Tools
tools = record {
  env = failing_at 7;
  file_id = λ files. "f9";
  public_url = λ path. path;
  private_url = λ path now. path;
}

abbrev replacing : ConfirmUpload
replacing = record {
  file_key = "k2";
  filename = "new.png";
  path = "public/new.png";
  mimetype = "image/png";
  size = 20;
  entity_id = some "p1";
  entity_type = some "PRODUCT";
  is_primary = some true;
  is_public = none;
}

shelved-OnePrimary : OnePrimary shelved.files
shelved-OnePrimary id type a b = elim (Bool-cases (is_primary_of id type picture)) [
  | inl y ↦ rw y (omega arith)
  | inr n ↦ rw n (omega arith)
]

confirm_upload-OnePrimary_example : OnePrimary (confirm_upload tools replacing shelved).1.files
confirm_upload-OnePrimary_example =
    confirm_upload-OnePrimary tools replacing shelved shelved-OnePrimary
