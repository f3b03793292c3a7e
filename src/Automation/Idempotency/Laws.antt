-- ===== src/Automation/Idempotency/Laws.antt =====
-- Who acquires a key, and what becomes of it.
use backend_task_management.Base.{
  ℕ, ◌-◌, ◌<◌, String, ◌==◌, ◌≡◌, refl, sym, subst, ◌∙◌, ◌↔◌, inl, inr, Bool, true, false, Option,
  none, some, List, arith, eq_iff, Bool-cases,
}
use backend_task_management.Common.Errors.{Thrown, ok}
use backend_task_management.Automation.Constants.{IdempotencyStatus, processing, completed, failed}
use backend_task_management.Automation.World.{KeyRow, World, Env, done, call}
use backend_task_management.Automation.World.Keeps.{Keeps, Keeps-call}
use backend_task_management.Automation.Idempotency.{acquire, complete, fail}
use backend_task_management.Automation.Idempotency.Table.{
  AcquireInput, upsert, retaken, acquire_row, retake, may_retake, find, status_of, upsert-returns,
  find-upsert_self, find-upsert_ne, status-complete_self, status-complete_ne, status-fail_ne,
}

-- When a key may be taken: no row, a failed row, or a lock that is older than its time to live.
pub data Takeable (now ttl : ℕ) : Option KeyRow → Type 0 where
  fresh : Takeable now ttl none
  retry : (r : KeyRow) → r.status ≡ failed → Takeable now ttl (some r)
  stale : (r : KeyRow) → r.status ≡ processing → r.locked_at < now - ttl → Takeable now ttl (some r)

module _ (now ttl : ℕ) (input : AcquireInput) where
  taken_at :
      (r : KeyRow) (s : IdempotencyStatus)
      → r.status ≡ s
      → (retaken now (now - ttl) input (some r)).0 ≡ true
      → Takeable now ttl (some r)
  unfolding may_retake
  taken_at r processing e h = stale r e (ground arith)
  taken_at r completed e h = absurd (ground arith)
  taken_at r failed e h = retry r e

  taken-Takeable :
      (o : Option KeyRow) → (retaken now (now - ttl) input o).0 ≡ true → Takeable now ttl o
  taken-Takeable none h = fresh
  taken-Takeable (some r) h = taken_at r r.status refl h

  Takeable-taken :
      {o : Option KeyRow} → Takeable now ttl o → (retaken now (now - ttl) input o).0 ≡ true
  unfolding may_retake
  Takeable-taken fresh = refl
  Takeable-taken (retry r s) = ground arith
  Takeable-taken (stale r s t) = ground arith

  retaken_locked :
      (o : Option KeyRow)
      → (retaken now (now - ttl) input o).0 ≡ true
      → status_of (some (retaken now (now - ttl) input o).1) ≡ some processing
  unfolding may_retake acquire_row retake
  retaken_locked none h = refl
  retaken_locked (some r) h = ground arith

  retaken_kept :
      (o : Option KeyRow)
      → (retaken now (now - ttl) input o).0 ≡ false
      → some (retaken now (now - ttl) input o).1 ≡ o
  unfolding may_retake
  retaken_kept none h = cc
  retaken_kept (some r) h = ground arith

  upsert_completed :
      (key : String) (rows : List KeyRow)
      → status_of (find key rows) ≡ some completed
      → status_of (find key (upsert now (now - ttl) input rows).1) ≡ some completed
  unfolding may_retake
  upsert_completed key rows h = elim (Bool-cases (input.key == key)) [
    | inl same ↦
        let e : input.key ≡ key = (eq_iff input.key key).0 same in
        rw (← e, find-upsert_self now (now - ttl) input rows)
          (ground (arith, subst (λ k. status_of (find k rows) ≡ some completed) (sym e) h))
    | inr apart ↦ rw (find-upsert_ne now (now - ttl) input key rows apart) h
  ]

abbrev pub IsCompleted : {N : Type 0} → String → World N → Type 0
IsCompleted key w = status_of (find key w.keys) ≡ some completed

module _ {N : Type 0} (env : Env) (ttl : ℕ) (key : String) where
  -- Whatever the environment does, no acquisition reopens a completed key.
  pub acquire-IsCompleted :
      (input : AcquireInput) → Keeps (IsCompleted {N = N} key) (acquire env ttl input)
  unfolding acquire
  acquire-IsCompleted input =
      Keeps-call env _ (λ w h. h) (λ now w h. upsert_completed now ttl input key w.keys h)

  pub complete-IsCompleted : (other : String) → Keeps (IsCompleted {N = N} key) (complete env other)
  unfolding complete
  complete-IsCompleted other =
      Keeps-call env _ (λ w h. h)
        λ now w h. elim (Bool-cases (other == key)) [
          | inl same ↦
              let e : other ≡ key = (eq_iff other key).0 same in
              rw e (status-complete_self now key w.keys (cc))
          | inr apart ↦ rw (status-complete_ne now key other w.keys apart) h
        ]

  pub fail-IsCompleted :
      (other : String) (e : Thrown)
      → (other == key) ≡ false
      → Keeps (IsCompleted {N = N} key) (fail env other e)
  unfolding fail
  fail-IsCompleted other e apart =
      Keeps-call env _ (λ w h. h) (λ now w h. rw (status-fail_ne now _ key other w.keys apart) h)

-- At a statement that the database carries out, `acquire` returns true exactly when the key has
-- no row, a failed one, or a lock older than the time to live; the row under the key is then
-- locked now, and otherwise it is what it was. Every other key keeps its row.
pub acquire_exact :
    {N : Type 0} (env : Env) (ttl : ℕ) (input : AcquireInput) (w : World N)
    → env.fate w.calls ≡ done
    → (taken : Bool) × ((acquire env ttl input w).0 ≡ ok taken)
      × ((taken ≡ true) ↔ Takeable (env.now w.calls) ttl (find input.key w.keys))
      × (taken ≡ true
          → status_of (find input.key (acquire env ttl input w).1.keys) ≡ some processing)
      × (taken ≡ false → find input.key (acquire env ttl input w).1.keys ≡ find input.key w.keys)
      × ((key : String)
          → (input.key == key) ≡ false
          → find key (acquire env ttl input w).1.keys ≡ find key w.keys)
unfolding acquire call
acquire_exact env ttl input w passes = rw passes (
  (upsert now (now - ttl) input w.keys).0,
  refl,
  (
    λ t. taken-Takeable now ttl input _ (sym (upsert-returns now (now - ttl) input w.keys) ∙ t),
    λ t. upsert-returns now (now - ttl) input w.keys ∙ Takeable-taken now ttl input t,
  ),
  λ t.
      rw (find-upsert_self now (now - ttl) input w.keys)
        (retaken_locked now ttl input _ (sym (upsert-returns now (now - ttl) input w.keys) ∙ t)),
  λ t.
      find-upsert_self now (now - ttl) input w.keys
      ∙ retaken_kept now ttl input _ (sym (upsert-returns now (now - ttl) input w.keys) ∙ t),
  λ key apart. find-upsert_ne now (now - ttl) input key w.keys apart,
)
  where
    now : ℕ
    now = env.now w.calls
