-- ===== src/Automation/Idempotency.antt =====
-- modules/automation/services/idempotency.service.ts. The unique index on `key` makes the table an
-- association list; process and database are taken to read one clock.
pub mod Table
pub mod Laws
use backend_task_management.Base.{ℕ, ◌-◌, String, Bool, Option, List}
use backend_task_management.Common.Errors.{Thrown, message_of}
use backend_task_management.Automation.Constants.{ActionType}
use backend_task_management.Automation.World.{KeyRow, World, Env, Exec, call}
use Table.{AcquireInput, acquire_row, complete_row, fail_row, upsert, update}

module _ {N : Type 0} (env : Env) (lock_ttl : ℕ) where
  -- `acquire`: true if the statement returned a row.
  unfoldable pub acquire : AcquireInput → Exec N Bool
  unfolding upsert
  acquire input = call env λ now w.
      let (acquired, keys) = upsert now (now - lock_ttl) input w.keys in
      (acquired, record w { keys = keys })

module _ {N : Type 0} (env : Env) where
  -- `complete`
  unfoldable pub complete : String → Exec N Unit
  unfolding complete_row update
  complete key = call env λ now w. (tt, record w { keys = update key (complete_row now) w.keys })

  -- `fail`
  unfoldable pub fail : String → Thrown → Exec N Unit
  unfolding fail_row update
  fail key e =
      call env λ now w. (tt, record w { keys = update key (fail_row now (message_of e)) w.keys })
