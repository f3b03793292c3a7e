-- ===== src/NotificationLog/Laws.antt =====
-- What marking notifications as read does.
use backend_task_management.Base.{
  ℕ, ◌≡◌, refl, sym, ap, ◌∙◌, ◌&&◌, Bool, true, false, List, [], ◌∷◌, map, keep, length, not,
  Bool-cases, String, none, some, inl, inr,
}
use backend_task_management.Common.Errors.{ok, ok-injective}
use backend_task_management.Rule.Repository.{is_null}
use backend_task_management.Automation.World.{World, Env, NotificationLog}
use backend_task_management.Automation.World.Inversion.{call_ok}
use backend_task_management.NotificationLog.{
  LogFilter, fields_fit, dates_fit, is_listed, search_fits, is_unread, marked, mark,
  mark_all_as_read,
}

and_false : (a : Bool) → a && false ≡ false
and_false true = refl
and_false false = refl

-- What the listing must be asked for to show what is marked: the filter without its search text, at
-- unread notifications.
abbrev pub unread_of : LogFilter → LogFilter
unread_of filter = record filter { search = none; is_read = some false }

and_swap : (a b c : Bool) → a && (b && c) ≡ b && (a && c)
and_swap true true c = refl
and_swap true false c = refl
and_swap false true c = refl
and_swap false false c = refl

module _ {N : Type 0} (filter : LogFilter) where
  marked-is_unread : (now : ℕ) (n : NotificationLog N) → is_unread filter (marked now n) ≡ false
  unfolding is_unread
  marked-is_unread now n = and_false (is_null n.deleted_at)

  mark-is_unread : (now : ℕ) (n : NotificationLog N) → is_unread filter (mark filter now n) ≡ false
  mark-is_unread now n = elim (Bool-cases (is_unread filter n)) [
    | inl y ↦ rw y (marked-is_unread now n)
    | inr n_not ↦ rw n_not n_not
  ]

  all_marked :
      (now : ℕ) (rows : List (NotificationLog N))
      → keep (is_unread filter) (map (mark filter now) rows) ≡ []
  all_marked now [] = refl
  all_marked now (n ∷ rows) = rw (mark-is_unread now n) (all_marked now rows)

  mark-fixed :
      (now later : ℕ) (n : NotificationLog N)
      → mark filter later (mark filter now n) ≡ mark filter now n
  mark-fixed now later n = rw (mark-is_unread now n)

  all-fixed :
      (now later : ℕ) (rows : List (NotificationLog N))
      → map (mark filter later) (map (mark filter now) rows) ≡ map (mark filter now) rows
  all-fixed now later [] = refl
  all-fixed now later (n ∷ rows) = cc (mark-fixed now later n, all-fixed now later rows)

  is_unread-is_listed :
      (contains : String → String → Bool) (n : NotificationLog N)
      → is_unread filter n ≡ is_listed contains (unread_of filter) n
  unfolding is_unread is_listed search_fits
  is_unread-is_listed contains n =
      ap (λ b. is_null n.deleted_at && b)
        (and_swap (not n.is_read) (fields_fit filter n) (dates_fit filter n))

  keep-is_listed :
      (contains : String → String → Bool) (rows : List (NotificationLog N))
      → keep (is_unread filter) rows ≡ keep (is_listed contains (unread_of filter)) rows
  keep-is_listed contains [] = refl
  keep-is_listed contains (n ∷ rows) =
      rw (is_unread-is_listed contains n, keep-is_listed contains rows)

  -- Let marking all notifications of a filter return. It answers how many notifications a listing
  -- shows in all that asks for the unread ones with the filter's other fields and dates, but not
  -- its search text and not its own condition on being read; such a listing is empty after it; and
  -- another marking with the filter, at any later time, would change no row, so the times of
  -- reading stay.
  pub mark_all_as_read_lem :
      (contains : String → String → Bool) (env : Env) (w : World N) (answer later : ℕ)
      → (mark_all_as_read env filter w).0 ≡ ok answer
      → let after = (mark_all_as_read env filter w).1.notification_logs in
        (answer ≡ length (keep (is_listed contains (unread_of filter)) w.notification_logs))
        × (keep (is_listed contains (unread_of filter)) after ≡ [])
        × (map (mark filter later) after ≡ after)
  unfolding mark_all_as_read
  mark_all_as_read_lem contains env w answer later h =
      let (_, found) = call_ok env _ w h in
      let rows = ap (λ r. r.1.notification_logs) found in
      let now = env.now w.calls in
      (
        sym (ok-injective _ answer (sym (ap (λ r. r.0) found) ∙ h))
            ∙ ap length (keep-is_listed contains w.notification_logs),
        sym (keep-is_listed contains _)
            ∙ ap (keep (is_unread filter)) rows
            ∙ all_marked now w.notification_logs,
        ap (map (mark filter later)) rows ∙ all-fixed now later w.notification_logs ∙ sym rows,
      )
