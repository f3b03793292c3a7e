-- ===== src/Accounts/Admins.antt =====
-- modules/admin/admin.service.ts and admin.repository.ts, over the tables of Accounts/Rows.antt.
pub mod Laws
mod Tests
use backend_task_management.Base.{
  ℕ, String, ◌==◌, ◌&&◌, ◌||◌, Bool, true, false, not, Option, none, some, List, [], ◌∷◌, map, any,
  is_some, if◌then◌else◌,
}
use backend_task_management.Common.Errors.{Result, ok, err, prisma_error}
use backend_task_management.Common.Errors.AppException
use backend_task_management.Common.Pagination.{OffsetQuery, build_offset_pagination}
use backend_task_management.Common.Listing.{Ordering, Page, list_at_once}
use backend_task_management.Common.SoftDelete.{admin_model, only, find_first, fits, read_with}
use backend_task_management.Automation.World.{World, Exec, pure, throw, lift, call, ◌>>=◌, ◌>>◌}
use backend_task_management.Accounts.Rows.{User, Admin}
use backend_task_management.Accounts.Users.{
  Tools, UserView, view_of, written, given_text, ProfileUpdate,
}
use backend_task_management.Accounts.Users.Store.{row_at, changed_profile}

-- `CreateAdminDto`
pub record CreateAdmin : Type 0 where
  pub user_id : String
  pub first_name : String
  pub last_name : String
  pub phone : Option String
  pub address : Option String

pub record AdminFilter : Type 0 where
  pub search : Option String
  pub user_id : Option String
  pub phone : Option String

-- `adminSelect`
pub record AdminView : Type 0 where
  pub admin : Admin
  pub account : Option UserView

abbrev pub of_id : String → Admin → Bool
of_id id a = a.id == id

abbrev pub of_user : String → Admin → Bool
of_user user_id a = a.user_id == user_id

-- A row of `findFirst`, behind the soft-delete extension.
unfoldable pub first_admin : (Admin → Bool) → List Admin → Option Admin
unfolding find_first
first_admin p admins = find_first admin_model (λ a. a.deleted_at) (only p) admins

abbrev shown_account : Option User → Option UserView
shown_account none = none
shown_account (some u) = some (view_of [] u)

unfoldable pub admin_view : List User → Admin → AdminView
unfolding view_of
admin_view users a = record { admin = a; account = shown_account (row_at a.user_id users) }

abbrev shown_admin : List User → Option Admin → Option AdminView
shown_admin users none = none
shown_admin users (some a) = some (admin_view users a)

-- The row of `mapCreateAdminDto`.
unfoldable pub new_admin : String → CreateAdmin → Admin
new_admin id dto = record {
  id = id;
  user_id = dto.user_id;
  first_name = dto.first_name;
  last_name = dto.last_name;
  phone = dto.phone;
  address = dto.address;
  deleted_at = none;
}

abbrev pub at_admin : String → (Admin → Admin) → Admin → Admin
at_admin id f a = if of_id id a then f a else a

abbrev selected : List User → Option Admin → Result AdminView
selected users none = err (prisma_error "P2025" "No record was found for an update")
selected users (some a) = ok (admin_view users a)

abbrev any_admin : String → List Admin → Option Admin
any_admin id [] = none
any_admin id (a ∷ admins) = let rest = any_admin id admins in if of_id id a then some a else rest

module _ {N : Type 0} (tools : Tools) where
  -- `create`: the user is connected, and has no profile, removed or not.
  unfoldable pub insert_admin : CreateAdmin → World N → Result AdminView × World N
  unfolding new_admin admin_view
  insert_admin dto w =
      let a = new_admin (tools.admin_id w.admins) dto in
      if not (is_some (row_at dto.user_id w.users))
      then (err (prisma_error "P2025" "No record was found for a connection"), w)
      else if any (of_user dto.user_id) w.admins
      then (err (prisma_error "P2002" "Unique constraint failed"), w)
      else (ok (admin_view w.users a), record w { admins = a ∷ w.admins })

  -- `update`, with a change of the row with the id.
  unfoldable pub update_admin : String → (Admin → Admin) → World N → Result AdminView × World N
  unfolding admin_view
  update_admin id f w =
      let admins = map (at_admin id f) w.admins in
      (selected w.users (any_admin id admins), record w { admins = admins })

  abbrev pub refuse_existing : Option Admin → Exec N (Unit {0})
  refuse_existing none = pure tt
  refuse_existing (some _) = throw (AppException.conflict "Admin profile already exists")

  unfoldable pub find_by_user_id : String → Exec N (Option Admin)
  unfolding first_admin
  find_by_user_id user_id = call tools.env (λ now w. (first_admin (of_user user_id) w.admins, w))

  -- `create`
  unfoldable pub create : CreateAdmin → Exec N AdminView
  unfolding find_by_user_id insert_admin
  create dto = do
    existing ← find_by_user_id dto.user_id
    refuse_existing existing
    answer ← call tools.env (λ now w. insert_admin dto w)
    lift answer

  abbrev found_admin : Option AdminView → Exec N AdminView
  found_admin none = throw (AppException.not_found "Admin profile not found")
  found_admin (some v) = pure v

  -- `findOne`
  unfoldable pub find_one : String → Exec N AdminView
  unfolding first_admin admin_view
  find_one id = do
    found ← call tools.env (λ now w. (shown_admin w.users (first_admin (of_id id) w.admins), w))
    found_admin found

  -- `update`, whose data is that of a nested update of a profile.
  unfoldable pub update : String → ProfileUpdate → Exec N AdminView
  unfolding find_one update_admin
  update id dto = do
    find_one id
    answer ← call tools.env (λ now w. update_admin id (changed_profile dto) w)
    lift answer

  -- `remove`
  unfoldable pub remove : String → Exec N AdminView
  unfolding find_one update_admin
  remove id = do
    find_one id
    answer ← call tools.env (λ now w. update_admin id (λ a. record a { deleted_at = some now }) w)
    lift answer

abbrev phone_has : (String → String → Bool) → String → Option String → Bool
phone_has contains s none = false
phone_has contains s (some phone) = contains phone s

module _ (tools : Tools) where
  abbrev search_has : Option String → Admin → Bool
  search_has none a = true
  search_has (some s) a =
      tools.contains a.first_name s
      || tools.contains a.last_name s
      || phone_has tools.contains s a.phone

  abbrev id_fits : Option String → Admin → Bool
  id_fits none a = true
  id_fits (some id) a = a.user_id == id

  abbrev phone_fits : Option String → Admin → Bool
  phone_fits none a = true
  phone_fits (some s) a = phone_has tools.contains s a.phone

  -- `buildWhereFilter`, behind the soft-delete extension.
  unfoldable pub admin_fits : AdminFilter → Admin → Bool
  admin_fits filter =
      fits admin_model (λ a. a.deleted_at)
        (read_with admin_model (λ a. a.deleted_at)
          (only (λ a.
            search_has (given_text filter.search) a
            && (id_fits (given_text filter.user_id) a && phone_fits (given_text filter.phone) a))))

  -- `findAll`
  unfoldable pub find_all :
      {N : Type 0} → Ordering Admin → AdminFilter → OffsetQuery → Exec N (Page Admin)
  unfolding admin_fits
  find_all db filter query =
      list_at_once db tools.env (λ w. w.admins) (admin_fits filter)
        (build_offset_pagination query ("createdAt" ∷ "firstName" ∷ "lastName" ∷ []))
