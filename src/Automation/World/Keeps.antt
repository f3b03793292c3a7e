-- ===== src/Automation/World/Keeps.antt =====
-- Rules by which a property of the world survives an action, whether it returns or throws.
use backend_task_management.Base.{
  ℕ, suc, ◌≡◌, refl, String, Option, Bool, true, false, List, if◌then◌else◌,
}
use backend_task_management.Common.Errors.{Thrown, Result, ok, err}
use backend_task_management.Automation.Event.{Event}
use backend_task_management.Rule.Rows.{RuleRow}
use backend_task_management.Automation.World.{
  KeyRow, JobLog, DlqJob, World, Env, Fate, done, refused, lost, Exec, ended, handled, continued,
  pure, throw, lift, call, catching, ◌>>=◌, ◌>>◌,
}

pub record Keeps {N A : Type 0} (P : World N → Type 0) (m : Exec N A) : Type 0 where
  pub at : (w : World N) → P w → P (m w).1

-- The number of calls that were made, which the environment alone reads.
abbrev pub counted : {N : Type 0} → World N → World N
counted w = record w { calls = suc w.calls }

-- The tables that no action touches.
pub record Kept (N : Type 0) : Type 0 where
  pub keys : List KeyRow
  pub rules : List (RuleRow N)
  pub job_logs : List JobLog
  pub audit_logs : List (Event N)
  pub dlq : List (DlqJob N)
  pub discarded : List (Option String)

abbrev pub kept_of : {N : Type 0} → World N → Kept N
kept_of w = record {
  keys = w.keys;
  rules = w.rules;
  job_logs = w.job_logs;
  audit_logs = w.audit_logs;
  dlq = w.dlq;
  discarded = w.discarded;
}

-- A property of those tables alone.
abbrev pub OfKeys : {N : Type 0} → (Kept N → Type 0) → World N → Type 0
OfKeys P w = P (kept_of w)

ended_keeps :
    {N A : Type 0} (P : World N → Type 0) (fate : Fate) (after : A × World N) (w : World N)
    → P w
    → P after.1
    → P (ended fate after w).1
ended_keeps P done after w h k = k
ended_keeps P (refused e) after w h k = h
ended_keeps P (lost e) after w h k = k

module _ {N A : Type 0} {P : World N → Type 0} where
  pub Keeps-pure : (a : A) → Keeps P (pure a)
  unfolding pure
  Keeps-pure a = record { at = λ w h. h }

  pub Keeps-throw : (e : Thrown) → Keeps P (throw {A = A} e)
  unfolding throw
  Keeps-throw e = record { at = λ w h. h }

  pub Keeps-lift : (r : Result A) → Keeps P (lift r)
  unfolding lift
  Keeps-lift r = record { at = λ w h. h }

  -- A call keeps what neither the counter nor its effect breaks.
  pub Keeps-call :
      (env : Env) (f : ℕ → World N → A × World N)
      → ((w : World N) → P w → P (counted w))
      → ((t : ℕ) (w : World N) → P w → P (f t w).1)
      → Keeps P (call env f)
  unfolding call
  Keeps-call env f skip keep = record {
    at = λ w h.
        ended_keeps P (env.fate w.calls) (f (env.now w.calls) (counted w)) (counted w) (skip w h)
          (keep (env.now w.calls) (counted w) (skip w h));
  }

  handled_keeps :
      (h : Thrown → Exec N A) (r : Result A) (w : World N)
      → ((e : Thrown) → Keeps P (h e))
      → P w
      → P (handled h r w).1
  handled_keeps h (ok a) w kh p = p
  handled_keeps h (err e) w kh p = (kh e).at w p

  pub Keeps-catching :
      (m : Exec N A) (h : Thrown → Exec N A)
      → Keeps P m
      → ((e : Thrown) → Keeps P (h e))
      → Keeps P (catching m h)
  unfolding catching
  Keeps-catching m h km kh = record {
    at = λ w p. let (r, w') = m w in handled_keeps h r w' kh (km.at w p);
  }

  pub Keeps-if :
      (test : Bool) (then_do else_do : Exec N A) (on_yes : test ≡ true → Keeps P then_do)
      (on_no : test ≡ false → Keeps P else_do)
      → Keeps P (if test then then_do else else_do)
  Keeps-if false then_do else_do on_yes on_no = on_no refl
  Keeps-if true then_do else_do on_yes on_no = on_yes refl

module _ {N A B : Type 0} {P : World N → Type 0} where
  continued_keeps :
      (f : A → Exec N B) (r : Result A) (w : World N)
      → ((a : A) → Keeps P (f a))
      → P w
      → P (continued f r w).1
  continued_keeps f (ok a) w kf p = (kf a).at w p
  continued_keeps f (err e) w kf p = p

  pub Keeps-bind :
      (m : Exec N A) (f : A → Exec N B) → Keeps P m → ((a : A) → Keeps P (f a)) → Keeps P (m >>= f)
  unfolding ◌>>=◌
  Keeps-bind m f km kf = record {
    at = λ w p. let (r, w') = m w in continued_keeps f r w' kf (km.at w p);
  }

  pub Keeps-then : (m : Exec N A) (n : Exec N B) → Keeps P m → Keeps P n → Keeps P (m >> n)
  unfolding ◌>>◌
  Keeps-then m n km kn = Keeps-bind m (λ _. n) km (λ _. kn)

pub ruleset keeps_rules =
    (Keeps-pure, Keeps-throw, Keeps-lift, Keeps-catching, Keeps-if, Keeps-bind, Keeps-then)

-- The same from a world where more is known.
module _ {N A : Type 0} (P : World N → Type 0) where
  pub call_at :
      (env : Env) (f : ℕ → World N → A × World N) (w : World N)
      → P (counted w)
      → P (f (env.now w.calls) (counted w)).1
      → P (call env f w).1
  unfolding call
  call_at env f w skip effect =
      ended_keeps P (env.fate w.calls) (f (env.now w.calls) (counted w)) (counted w) skip effect

  pub bind_at :
      {B : Type 0} (m : Exec N B) (f : B → Exec N A) (w : World N)
      → P (m w).1
      → ((b : B) → Keeps P (f b))
      → P ((m >>= f) w).1
  unfolding ◌>>=◌
  bind_at m f w there rest = let (r, w') = m w in continued_keeps f r w' rest there
