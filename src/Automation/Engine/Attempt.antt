-- ===== src/Automation/Engine/Attempt.antt =====
-- The body of the loop of `executeRule`, around the action itself.
pub mod Laws
use backend_task_management.Base.{ℕ, String, Bool, true, false}
use backend_task_management.Automation.World.{Env, Exec, pure, throw, catching, ◌>>=◌, ◌>>◌}
use backend_task_management.Automation.Idempotency.{acquire, complete, fail}
use backend_task_management.Automation.Idempotency.Table.{AcquireInput}

module _ {N : Type 0} (env : Env) where
  -- The `try` around an acquired action.
  unfoldable pub recorded : String → Exec N (Unit {0}) → Exec N (Unit {0})
  recorded key action = catching (action >> complete env key) (λ e. do fail env key e; throw e)

  abbrev pub when_acquired : String → Exec N (Unit {0}) → Bool → Exec N (Unit {0})
  when_acquired key action true = recorded key action
  when_acquired key action false = pure tt

  -- Acquire the key, and if it was acquired run the action and record how it ended.
  unfoldable pub attempt : ℕ → AcquireInput → Exec N (Unit {0}) → Exec N (Unit {0})
  unfolding recorded acquire
  attempt lock_ttl input action = do
    acquired ← acquire env lock_ttl input
    when_acquired input.key action acquired
