-- ===== src/Automation/Idempotency/Table.antt =====
-- The three statements on `automation_idempotency_keys`.
use backend_task_management.Base.{
  ℕ, ◌+◌, String, ◌==◌, Bool, true, false, Option, none, some, List, [], ◌∷◌, ltb, ◌≡◌, ◌≢◌, refl,
  arith, eq_iff, eq_refl, if◌then◌else◌,
}
use backend_task_management.Automation.Constants.{IdempotencyStatus, processing, completed, failed}
use backend_task_management.Automation.World.{KeyRow}

-- `IdempotencyAcquireInput`
pub record AcquireInput : Type 0 where
  pub key : String
  pub event_id : String
  pub rule_id : Option String
  pub action_type : String
  pub target : Option String

-- The row of `VALUES (...)`.
unfoldable pub acquire_row : ℕ → AcquireInput → KeyRow
acquire_row now input = record {
  key = input.key;
  event_id = input.event_id;
  rule_id = input.rule_id;
  action_type = input.action_type;
  target = input.target;
  status = processing;
  locked_at = now;
  attempts = 1;
  completed_at = none;
  failed_at = none;
  failure_reason = none;
}

abbrev status_allows : IdempotencyStatus → ℕ → ℕ → Bool
status_allows failed locked stale_before = true
status_allows processing locked stale_before = ltb locked stale_before
status_allows completed locked stale_before = false

-- The `WHERE` of `DO UPDATE`.
unfoldable pub may_retake : ℕ → KeyRow → Bool
may_retake stale_before r = status_allows r.status r.locked_at stale_before

-- The `SET` of `DO UPDATE`.
unfoldable pub retake : ℕ → KeyRow → KeyRow
retake now r = record r { status = processing; locked_at = now; attempts = r.attempts + 1 }

-- `INSERT ... ON CONFLICT (key) DO UPDATE ... RETURNING status`: whether a row came back.
unfoldable pub upsert : ℕ → ℕ → AcquireInput → List KeyRow → Bool × List KeyRow
unfolding acquire_row may_retake retake
upsert now stale_before input [] = (true, acquire_row now input ∷ [])
upsert now stale_before input (r ∷ rows) =
    let (acquired, rest) = upsert now stale_before input rows in
    if r.key == input.key
    then (if may_retake stale_before r then (true, retake now r ∷ rows) else (false, r ∷ rows))
    else (acquired, r ∷ rest)

-- `UPDATE ... WHERE key = ...`
unfoldable pub update : String → (KeyRow → KeyRow) → List KeyRow → List KeyRow
update key set [] = []
update key set (r ∷ rows) =
    if r.key == key then set r ∷ update key set rows else r ∷ update key set rows

unfoldable pub complete_row : ℕ → KeyRow → KeyRow
complete_row now r = record r { status = completed; completed_at = some now }

unfoldable pub fail_row : ℕ → String → KeyRow → KeyRow
fail_row now reason r = record r {
  status = failed;
  failed_at = some now;
  failure_reason = some reason;
}

-- The row of a key.
unfoldable pub find : String → List KeyRow → Option KeyRow
find key [] = none
find key (r ∷ rows) = if r.key == key then some r else find key rows

abbrev pub retaken : ℕ → ℕ → AcquireInput → Option KeyRow → Bool × KeyRow
retaken now stale_before input none = (true, acquire_row now input)
retaken now stale_before input (some r) =
    if may_retake stale_before r then (true, retake now r) else (false, r)

-- The statement as a function of the key's row alone: what it returns, the row it leaves under
-- its key, and that it leaves every other key alone.
module _ (now stale_before : ℕ) (input : AcquireInput) where
  pub upsert-returns :
      (rows : List KeyRow)
      → (upsert now stale_before input rows).0
        ≡ (retaken now stale_before input (find input.key rows)).0
  unfolding upsert find
  upsert-returns [] = refl
  upsert-returns (r ∷ rows) = ground (arith, upsert-returns rows)

  pub find-upsert_self :
      (rows : List KeyRow)
      → find input.key (upsert now stale_before input rows).1
        ≡ some (retaken now stale_before input (find input.key rows)).1
  unfolding upsert find
  find-upsert_self [] = ground (arith, eq_refl input.key)
  find-upsert_self (r ∷ rows) = ground (arith, find-upsert_self rows, eq_refl input.key)

  pub find-upsert_ne :
      (key : String) (rows : List KeyRow)
      → (input.key == key) ≡ false
      → find key (upsert now stale_before input rows).1 ≡ find key rows
  unfolding upsert find
  find-upsert_ne key [] h = ground arith
  find-upsert_ne key (r ∷ rows) h = ground (
    arith,
    find-upsert_ne key rows,
    eq_iff r.key input.key,
    eq_iff r.key key,
    eq_iff input.key key,
  )

abbrev pub status_of : Option KeyRow → Option IdempotencyStatus
status_of none = none
status_of (some r) = some r.status

abbrev changed : (KeyRow → KeyRow) → Option KeyRow → Option KeyRow
changed set none = none
changed set (some r) = some (set r)

module _ (set : KeyRow → KeyRow) (keyed : (r : KeyRow) → (set r).key ≡ r.key) where
  find-update_self :
      (key : String) (rows : List KeyRow)
      → find key (update key set rows) ≡ changed set (find key rows)
  unfolding update find
  find-update_self key [] = refl
  find-update_self key (r ∷ rows) = ground (arith, find-update_self key rows, keyed r)

  find-update_ne :
      (key other : String) (rows : List KeyRow)
      → (other == key) ≡ false
      → find key (update other set rows) ≡ find key rows
  unfolding update find
  find-update_ne key other [] h = refl
  find-update_ne key other (r ∷ rows) h = ground (
    arith,
    find-update_ne key other rows,
    keyed r,
    eq_iff r.key other,
    eq_iff r.key key,
    eq_iff other key,
  )

-- The status under a key after `complete` and `fail` of that key or of another.
pub status-complete_self :
    (now : ℕ) (key : String) (rows : List KeyRow)
    → status_of (find key rows) ≢ none
    → status_of (find key (update key (complete_row now) rows)) ≡ some completed
unfolding complete_row
status-complete_self now key rows h =
    rw (find-update_self (complete_row now) (λ r. refl) key rows) (ground arith)

pub status-complete_ne :
    (now : ℕ) (key other : String) (rows : List KeyRow)
    → (other == key) ≡ false
    → find key (update other (complete_row now) rows) ≡ find key rows
unfolding complete_row
status-complete_ne now key other rows h =
    find-update_ne (complete_row now) (λ r. refl) key other rows h

pub status-fail_self :
    (now : ℕ) (reason key : String) (rows : List KeyRow)
    → status_of (find key rows) ≢ none
    → status_of (find key (update key (fail_row now reason) rows)) ≡ some failed
unfolding fail_row
status-fail_self now reason key rows h =
    rw (find-update_self (fail_row now reason) (λ r. refl) key rows) (ground arith)

pub status-fail_ne :
    (now : ℕ) (reason key other : String) (rows : List KeyRow)
    → (other == key) ≡ false
    → find key (update other (fail_row now reason) rows) ≡ find key rows
unfolding fail_row
status-fail_ne now reason key other rows h =
    find-update_ne (fail_row now reason) (λ r. refl) key other rows h
