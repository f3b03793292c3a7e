-- ===== src/Rule/Service/Query/Laws.antt =====
-- What the listing of rules shows.
use backend_task_management.Automation.World.{World}
