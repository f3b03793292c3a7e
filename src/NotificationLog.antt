-- ===== src/NotificationLog.antt =====
-- modules/notification-log: the service, its repository and its query builder. The database's
-- `contains` is a parameter.
pub mod Laws
mod Tests
use backend_task_management.Base.{
  ℕ, String, ◌==◌, ◌&&◌, ◌||◌, Bool, true, false, not, leb, eqb, Option, none, some, List, [], ◌∷◌,
  map, keep, length, any, non_empty, if◌then◌else◌,
}
use backend_task_management.Js.Text.{trim}
use backend_task_management.Common.Errors.{Result, ok, err, error, prisma_error}
use backend_task_management.Common.Errors.AppException
use backend_task_management.Common.Pagination.{OffsetQuery, build_offset_pagination}
use backend_task_management.Common.Listing.{Ordering, Page, list_page}
use backend_task_management.Rule.Repository.{is_null}
use backend_task_management.Automation.World.{
  World, Env, Exec, NotificationLog, pure, throw, lift, call, ◌>>=◌, ◌>>◌,
}

-- `NotificationLogQueryFilter` beside its offset query, with dates as times.
pub record LogFilter : Type 0 where
  pub search : Option String
  pub service_name : Option String
  pub user_id : Option String
  pub channel : Option String
  pub type : Option String
  pub priority : Option String
  pub audience_type : Option String
  pub audience_key : Option String
  pub entity_type : Option String
  pub entity_id : Option String
  pub is_read : Option Bool
  pub from_date : Option ℕ
  pub to_date : Option ℕ

-- `if (wanted) { where.key = wanted }`
abbrev text_fits : Option String → Option String → Bool
text_fits none actual = true
text_fits (some wanted) none = not (non_empty wanted)
text_fits (some wanted) (some actual) = if non_empty wanted then actual == wanted else true

abbrev bool_fits : Option Bool → Bool → Bool
bool_fits none actual = true
bool_fits (some true) actual = actual
bool_fits (some false) actual = not actual

abbrev has_text : (String → String → Bool) → String → Option String → Bool
has_text contains s none = false
has_text contains s (some actual) = contains actual s

-- `addDateRange`
abbrev since : Option ℕ → ℕ → Bool
since none time = true
since (some from) time = leb from time

abbrev until : Option ℕ → ℕ → Bool
until none time = true
until (some to) time = leb time to

module _ {N : Type 0} where
  -- `addFilters`, without its condition on `isRead`.
  abbrev pub fields_fit : LogFilter → NotificationLog N → Bool
  fields_fit filter n =
      text_fits filter.service_name (some n.service_name)
      && (text_fits filter.user_id n.user_id
          && (text_fits filter.channel (some n.channel)
              && (text_fits filter.type (some n.type)
                  && (text_fits filter.priority (some n.priority)
                      && (text_fits filter.audience_type (some n.audience_type)
                          && (text_fits filter.audience_key n.audience_key
                              && (text_fits filter.entity_type n.entity_type
                                  && text_fits filter.entity_id n.entity_id)))))))

  abbrev pub dates_fit : LogFilter → NotificationLog N → Bool
  dates_fit filter n = since filter.from_date n.created_at && until filter.to_date n.created_at

  module _ (contains : String → String → Bool) where
    -- `addSearch`, over `NOTIFICATION_LOG_SEARCHABLE_FIELDS`.
    unfoldable pub search_fits : Option String → NotificationLog N → Bool
    unfolding trim
    search_fits none n = true
    search_fits (some s) n =
        if non_empty (trim s)
        then contains n.title (trim s)
          || contains n.message (trim s)
          || has_text contains (trim s) n.user_id
          || has_text contains (trim s) n.audience_key
          || has_text contains (trim s) n.entity_type
          || has_text contains (trim s) n.entity_id
        else true

    -- The `where` of `findAll`.
    unfoldable pub is_listed : LogFilter → NotificationLog N → Bool
    unfolding search_fits
    is_listed filter n =
        is_null n.deleted_at
        && (search_fits filter.search n
            && (fields_fit filter n && (bool_fits filter.is_read n.is_read && dates_fit filter n)))

  -- The `where` of `markAllAsRead`, which sets its own condition on `isRead` last.
  unfoldable pub is_unread : LogFilter → NotificationLog N → Bool
  is_unread filter n =
      is_null n.deleted_at && (not n.is_read && (fields_fit filter n && dates_fit filter n))

  abbrev pub marked : ℕ → NotificationLog N → NotificationLog N
  marked now n = record n { is_read = true; read_at = some now }

  abbrev pub mark : LogFilter → ℕ → NotificationLog N → NotificationLog N
  mark filter now n = if is_unread filter n then marked now n else n

  module _ (env : Env) where
    -- `markAllAsRead`, with the number of rows that it answers.
    unfoldable pub mark_all_as_read : LogFilter → Exec N ℕ
    unfolding is_unread
    mark_all_as_read filter = call env λ now w. (
      length (keep (is_unread filter) w.notification_logs),
      record w { notification_logs = map (mark filter now) w.notification_logs },
    )

    -- `findAll`
    unfoldable pub find_all :
        (String → String → Bool)
        → Ordering (NotificationLog N)
        → LogFilter
        → OffsetQuery
        → Exec N (Page (NotificationLog N))
    unfolding is_listed
    find_all contains db filter query =
        list_page db env (λ w. w.notification_logs) (is_listed contains filter)
          (build_offset_pagination query (
            "createdAt" ∷ "title" ∷ "channel" ∷ "type" ∷ "priority" ∷ "audienceType" ∷ "isRead"
            ∷ []))

    module _ (takes_compound : Bool) where
      abbrev find_in : ℕ → String → List (NotificationLog N) → Option (NotificationLog N)
      find_in id service [] = none
      find_in id service (n ∷ rows) =
          let rest = find_in id service rows in
          if eqb n.id id && (n.service_name == service && is_null n.deleted_at)
          then some n
          else rest

      -- `findOne` of the repository. Whether `findFirst` takes the key `id_serviceName`, which the
      -- client declares for `findUnique` alone, is a parameter.
      unfoldable pub find_row : ℕ → String → Exec N (Option (NotificationLog N))
      find_row id service =
          if takes_compound
          then call env (λ now w. (find_in id service w.notification_logs, w))
          else throw (error "PrismaClientValidationError" "Unknown argument id_serviceName")

      abbrev found_row : Option (NotificationLog N) → Exec N (NotificationLog N)
      found_row none = throw (AppException.not_found "Notification log not found")
      found_row (some n) = pure n

      -- `findOne`
      unfoldable pub find_one : ℕ → String → Exec N (NotificationLog N)
      unfolding find_row
      find_one id service = do found ← find_row id service; found_row found

      abbrev has_key : ℕ → String → NotificationLog N → Bool
      has_key id service n = eqb n.id id && n.service_name == service

      abbrev mark_one : ℕ → String → ℕ → NotificationLog N → NotificationLog N
      mark_one id service now n = if has_key id service n then marked now n else n

      abbrev first_row : ℕ → String → List (NotificationLog N) → Result (NotificationLog N)
      first_row id service [] = err (prisma_error "P2025" "No record was found for an update")
      first_row id service (n ∷ rows) =
          let rest = first_row id service rows in if has_key id service n then ok n else rest

      -- `update` of the repository, with the data of `markAsRead`.
      unfoldable pub update_row : ℕ → String → ℕ → World N → Result (NotificationLog N) × World N
      update_row id service now w =
          let rows = map (mark_one id service now) w.notification_logs in
          (first_row id service rows, record w { notification_logs = rows })

      abbrev marking : ℕ → String → NotificationLog N → Exec N (NotificationLog N)
      marking id service n =
          if n.is_read
          then find_one id service
          else do answer ← call env (λ now w. update_row id service now w); lift answer

      -- `markAsRead`
      unfoldable pub mark_as_read : ℕ → String → Exec N (NotificationLog N)
      unfolding find_one update_row
      mark_as_read id service = do existing ← find_one id service; marking id service existing
