-- ===== src/Accounts/Users/Listing.antt =====
-- `findAll` of modules/user/user.service.ts and user.repository.ts.
use backend_task_management.Base.{
  String, ◌&&◌, ◌||◌, Bool, true, false, not, Option, none, some, if◌then◌else◌, List, [], ◌∷◌,
}
use backend_task_management.Common.Pagination.{OffsetQuery, build_offset_pagination}
use backend_task_management.Common.Listing.{Ordering, Page, list_at_once}
use backend_task_management.Common.SoftDelete.{user_model, only, fits, read_with}
use backend_task_management.Automation.World.{Exec}
use backend_task_management.Accounts.Rows.{Role, AccountType, RecordStatus, User}
use backend_task_management.Accounts.Users.{Tools, UserFilter, given_text}

abbrev pub is_role : Role → Role → Bool
is_role Role.user Role.user = true
is_role Role.admin Role.admin = true
is_role Role.super_admin Role.super_admin = true
is_role _ _ = false

abbrev is_account_type : AccountType → AccountType → Bool
is_account_type AccountType.custom AccountType.custom = true
is_account_type AccountType.google AccountType.google = true
is_account_type _ _ = false

abbrev is_status : RecordStatus → RecordStatus → Bool
is_status RecordStatus.active RecordStatus.active = true
is_status RecordStatus.inactive RecordStatus.inactive = true
is_status RecordStatus.blocked RecordStatus.blocked = true
is_status RecordStatus.archived RecordStatus.archived = true
is_status _ _ = false

-- `...(wanted ? { key: wanted } : {})`, whose absence fits every row.
abbrev fits_if : {A : Type 0} → (A → Bool) → Option A → Bool
fits_if p none = true
fits_if p (some a) = p a

abbrev pub sortable_users : List String
sortable_users = "email" ∷ "username" ∷ "role" ∷ "status" ∷ []

module _ (tools : Tools) where
  -- `buildWhereFilter`
  unfoldable pub user_fits : UserFilter → User → Bool
  user_fits filter u =
      fits_if (λ s. tools.contains u.email s || tools.contains u.username s)
        (given_text filter.search)
      && (fits_if (tools.contains u.email) (given_text filter.email)
          && (fits_if (tools.contains u.username) (given_text filter.username)
              && (fits_if (is_role u.role) filter.role
                  && (fits_if (is_account_type u.account_type) filter.account_type
                      && (fits_if (is_status u.status) filter.status
                          && fits_if (λ b. if u.is_email_verified then b else not b)
                              filter.is_email_verified)))))

  -- The rows of a filter, behind the soft-delete extension.
  unfoldable pub matches_filter : UserFilter → User → Bool
  unfolding user_fits
  matches_filter filter =
      fits user_model (λ u. u.deleted_at)
        (read_with user_model (λ u. u.deleted_at) (only (user_fits filter)))

  -- `findAll`
  unfoldable pub find_all :
      {N : Type 0} → Ordering User → UserFilter → OffsetQuery → Exec N (Page User)
  unfolding matches_filter
  find_all db filter query =
      list_at_once db tools.env (λ w. w.users) (matches_filter filter)
        (build_offset_pagination query ("createdAt" ∷ sortable_users))
