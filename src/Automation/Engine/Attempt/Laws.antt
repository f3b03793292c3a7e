-- ===== src/Automation/Engine/Attempt/Laws.antt =====
-- What an attempt does to the keys, whatever becomes of its calls.
use backend_task_management.Base.{
  ℕ, ◌-◌, String, ◌==◌, ◌≡◌, ◌≢◌, refl, sym, ap, subst, ◌∙◌, inl, inr, Bool, true, false, Option,
  none, some, eq_iff, Bool-cases,
}
use backend_task_management.Common.Errors.{Thrown, ok, err, ok-injective}
use backend_task_management.Automation.Constants.{IdempotencyStatus, processing, completed, failed}
use backend_task_management.Automation.World.{
  KeyRow, World, Env, done, Exec, pure, call, throw, catching, ◌>>=◌, ◌>>◌,
}
use backend_task_management.Automation.World.Keeps.{
  Keeps, Keeps-pure, Keeps-throw, Keeps-catching, Keeps-bind, Keeps-then, Keeps-call,
}
use backend_task_management.Automation.World.Inversion.{
  bind_ok, then_ok, catching_cases, call_ok, bind_cases,
}
use backend_task_management.Automation.Idempotency.{acquire, complete, fail}
use backend_task_management.Automation.Idempotency.Table.{
  AcquireInput, find, status_of, find-upsert_ne, status-complete_self, status-complete_ne,
  status-fail_ne, status-fail_self,
}
use backend_task_management.Automation.Idempotency.Laws.{
  Takeable, fresh, retry, stale, acquire_exact, IsCompleted, acquire-IsCompleted,
}
use backend_task_management.Automation.Engine.Attempt.{recorded, when_acquired, attempt}

-- The row of a key is `o`.
abbrev pub HasRow : {N : Type 0} → String → Option KeyRow → World N → Type 0
HasRow key o w = find key w.keys ≡ o

not-Takeable :
    (now ttl : ℕ) {o : Option KeyRow} → status_of o ≡ some completed → Takeable now ttl o → ⊥
not-Takeable now ttl h fresh = cc
not-Takeable now ttl h (retry r e) = cc
not-Takeable now ttl h (stale r e l) = cc

-- What the three statements and the action keep, the attempt keeps.
module _ {N : Type 0} (env : Env) (P : World N → Type 0) where
  when_acquired-Keeps :
      (key : String) (action : Exec N (Unit {0}))
      → Keeps P (complete env key)
      → ((e : Thrown) → Keeps P (fail env key e))
      → Keeps P action
      → (acquired : Bool) → Keeps P (when_acquired env key action acquired)
  unfolding recorded
  when_acquired-Keeps key action completes fails kept true =
      Keeps-catching _ _ (Keeps-then action _ kept completes)
        (λ e. Keeps-then _ _ (fails e) (Keeps-throw e))
  when_acquired-Keeps key action completes fails kept false = Keeps-pure tt

  pub attempt-Keeps :
      (ttl : ℕ) (input : AcquireInput) (action : Exec N (Unit {0}))
      → Keeps P (acquire env ttl input)
      → Keeps P (complete env input.key)
      → ((e : Thrown) → Keeps P (fail env input.key e))
      → Keeps P action
      → Keeps P (attempt env ttl input action)
  unfolding attempt
  attempt-Keeps ttl input action acquires completes fails kept =
      Keeps-bind _ _ acquires (when_acquired-Keeps input.key action completes fails kept)

-- The keys that a statement does not name keep their rows.
module _ {N : Type 0} (env : Env) (key : String) (o : Option KeyRow) where
  acquire-HasRow :
      (ttl : ℕ) (input : AcquireInput)
      → (input.key == key) ≡ false
      → Keeps (HasRow {N = N} key o) (acquire env ttl input)
  unfolding acquire
  acquire-HasRow ttl input apart =
      Keeps-call env _ (λ w h. h)
        λ now w h. find-upsert_ne now (now - ttl) input key w.keys apart ∙ h

  complete-HasRow :
      (other : String) → (other == key) ≡ false → Keeps (HasRow {N = N} key o) (complete env other)
  unfolding complete
  complete-HasRow other apart =
      Keeps-call env _ (λ w h. h) λ now w h. status-complete_ne now key other w.keys apart ∙ h

  fail-HasRow :
      (other : String) (e : Thrown)
      → (other == key) ≡ false
      → Keeps (HasRow {N = N} key o) (fail env other e)
  unfolding fail
  fail-HasRow other e apart =
      Keeps-call env _ (λ w h. h) λ now w h. status-fail_ne now _ key other w.keys apart ∙ h

  -- Whatever the environment does, an attempt leaves the rows of other keys alone.
  pub attempt-HasRow :
      (ttl : ℕ) (input : AcquireInput) (action : Exec N (Unit {0}))
      → (input.key == key) ≡ false
      → Keeps (HasRow key o) action
      → Keeps (HasRow key o) (attempt env ttl input action)
  attempt-HasRow ttl input action apart =
      attempt-Keeps env (HasRow key o) ttl input action (acquire-HasRow ttl input apart)
        (complete-HasRow input.key apart) (λ e. fail-HasRow input.key e apart)

module _ {N : Type 0} (env : Env) (ttl : ℕ) (input : AcquireInput) where
  -- An acquisition that succeeds found no completed row, and locks the key.
  pub acquired_true :
      (w : World N)
      → (acquire env ttl input w).0 ≡ ok true
      → ¬ IsCompleted input.key w
        × (status_of (find input.key (acquire env ttl input w).1.keys) ≡ some processing)
  unfolding acquire
  acquired_true w h =
      let (passes, _) = call_ok env _ w h in
      let (taken, e, exact, locks, _, _) = acquire_exact env ttl input w passes in
      let t : taken ≡ true = ok-injective taken true (sym e ∙ h) in
      (λ c. not-Takeable (env.now w.calls) ttl c (exact.0 t), locks t)

  -- One that does not leaves the key's row alone, which then was no takeable one.
  pub acquired_false :
      (w : World N)
      → (acquire env ttl input w).0 ≡ ok false
      → ¬ Takeable (env.now w.calls) ttl (find input.key w.keys)
        × (find input.key (acquire env ttl input w).1.keys ≡ find input.key w.keys)
  unfolding acquire
  acquired_false w h =
      let (passes, _) = call_ok env _ w h in
      let (taken, e, exact, _, keeps, _) = acquire_exact env ttl input w passes in
      let f : taken ≡ false = ok-injective taken false (sym e ∙ h) in
      (λ t. (let y : taken ≡ true = exact.1 t in cc), keeps f)

settled :
    (now ttl : ℕ) (o : Option KeyRow)
    → ¬ Takeable now ttl o
    → status_of o ≢ some processing
    → status_of o ≡ some completed
settled now ttl none h k = absurd (h fresh)
settled now ttl (some r) h k = status_cases r r.status refl h k
  where
    status_cases :
        (r : KeyRow) (s : IdempotencyStatus)
        → r.status ≡ s
        → ¬ Takeable now ttl (some r)
        → status_of (some r) ≢ some processing
        → status_of (some r) ≡ some completed
    status_cases r processing e h k = absurd (k (ap some e))
    status_cases r completed e h k = ap some e
    status_cases r failed e h k = absurd (h (retry r e))

module _ {N : Type 0} (env : Env) (ttl : ℕ) (input : AcquireInput)
    (action : Exec N (Unit {0})) where
  -- An attempt at a completed key does nothing after the acquisition.
  pub attempt_idle :
      (w : World N)
      → IsCompleted input.key w
      → (attempt env ttl input action w).1 ≡ (acquire env ttl input w).1
  unfolding attempt pure
  attempt_idle w h =
      elim (bind_cases (acquire env ttl input) (when_acquired env input.key action) w) [
        | inl (true, e, same) ↦ absurd ((acquired_true env ttl input w e).0 h)
        | inl (false, e, same) ↦ ap (λ p. p.1) same
        | inr (_, e, same) ↦ ap (λ p. p.1) same
      ]

  completes_ok :
      (w : World N)
      → ((v : World N) → (action v).1.keys ≡ v.keys)
      → status_of (find input.key w.keys) ≡ some processing
      → ((action >> complete env input.key) w).0 ≡ ok tt
      → IsCompleted input.key ((action >> complete env input.key) w).1
  unfolding complete
  completes_ok w spares locked h =
      let (_, _, same) = then_ok action (complete env input.key) w h in
      let (passes, done_call) = call_ok env _ (action w).1 (sym (ap (λ p. p.0) same) ∙ h) in
      rw (same, done_call, spares w)
        (status-complete_self (env.now (action w).1.calls) input.key w.keys (cc))

  handler_throws :
      (e : Thrown) (w : World N) → ((fail env input.key e >> throw {A = Unit {0}} e) w).0 ≢ ok tt
  unfolding throw
  handler_throws e w h =
      let (_, _, same) = then_ok (fail env input.key e) (throw {A = Unit {0}} e) w h in
      let q : err e ≡ ok tt = sym (ap (λ p. p.0) same) ∙ h in cc

  recorded_ok :
      (w : World N)
      → ((v : World N) → (action v).1.keys ≡ v.keys)
      → status_of (find input.key w.keys) ≡ some processing
      → (recorded env input.key action w).0 ≡ ok tt
      → IsCompleted input.key (recorded env input.key action w).1
  unfolding recorded
  recorded_ok w spares locked h =
      elim (catching_cases (action >> complete env input.key) (λ e. fail env input.key e >> throw e)
        w) [
          | inl (_, _, same) ↦ rw same (completes_ok w spares locked (sym (ap (λ p. p.0) same) ∙ h))
          | inr (e, _, same) ↦ absurd (handler_throws e _ (sym (ap (λ p. p.0) same) ∙ h))
        ]

  attempt_ok_at :
      (acquired : Bool) (w : World N)
      → ((v : World N) → (action v).1.keys ≡ v.keys)
      → status_of (find input.key w.keys) ≢ some processing
      → (acquire env ttl input w).0 ≡ ok acquired
      → (when_acquired env input.key action acquired (acquire env ttl input w).1).0 ≡ ok tt
      → IsCompleted input.key
          (when_acquired env input.key action acquired (acquire env ttl input w).1).1
  unfolding pure
  attempt_ok_at true w spares free e h =
      recorded_ok (acquire env ttl input w).1 spares (acquired_true env ttl input w e).1 h
  attempt_ok_at false w spares free e h =
      let (closed, kept) = acquired_false env ttl input w e in
      ap status_of kept ∙ settled (env.now w.calls) ttl (find input.key w.keys) closed free

  -- An attempt that returned, at a key that nobody held, completed the key.
  pub attempt_ok :
      (w : World N)
      → ((v : World N) → (action v).1.keys ≡ v.keys)
      → status_of (find input.key w.keys) ≢ some processing
      → (attempt env ttl input action w).0 ≡ ok tt
      → IsCompleted input.key (attempt env ttl input action w).1
  unfolding attempt
  attempt_ok w spares free h =
      let (acquired, e, same) =
        bind_ok (acquire env ttl input) (when_acquired env input.key action) w h in
      rw same (attempt_ok_at acquired w spares free e (sym (ap (λ p. p.0) same) ∙ h))

  -- An acquired action that throws is thrown on, and its key is failed, if the statement that
  -- records the failure is carried out.
  pub attempt_failed :
      (w : World N) (e : Thrown)
      → ((v : World N) → (action v).1.keys ≡ v.keys)
      → (acquire env ttl input w).0 ≡ ok true
      → (action (acquire env ttl input w).1).0 ≡ err e
      → env.fate (action (acquire env ttl input w).1).1.calls ≡ done
      → ((attempt env ttl input action w).0 ≡ err e)
        × (status_of (find input.key (attempt env ttl input action w).1.keys) ≡ some failed)
  unfolding attempt recorded ◌>>=◌ ◌>>◌ catching throw fail call
  attempt_failed w e spares acquired thrown passes =
      rw (acquired, thrown, passes, spares (acquire env ttl input w).1)
        (
          refl,
          status-fail_self _ _ input.key (acquire env ttl input w).1.keys
              (λ h. (let l = (acquired_true env ttl input w acquired).1 in cc)),
        )

  -- A completed key stays completed, whichever key the attempt is about.
  pub attempt-IsCompleted :
      (key : String)
      → ((v : World N) → (action v).1.keys ≡ v.keys)
      → Keeps (IsCompleted key) (attempt env ttl input action)
  attempt-IsCompleted key spares = record {
    at = λ w h. elim (Bool-cases (input.key == key)) [
      | inl same ↦
          let e : input.key ≡ key = (eq_iff input.key key).0 same in
          let k : IsCompleted input.key w = subst (λ j. IsCompleted j w) (sym e) h in
          rw (attempt_idle w k) ((acquire-IsCompleted env ttl key input).at w h)
      | inr apart ↦
          rw
            ((attempt-HasRow env key (find key w.keys) ttl input action apart
                (record { at = λ v r. ap (find key) (spares v) ∙ r })).at
              w refl)
            h
    ];
  }
