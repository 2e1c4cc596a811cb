-- ===== src/Team/Board/Task.antt =====
-- The tasks of agentiso/src/team/task_board.rs. A time is a number.
use agentiso.Prelude.{ℕ, Bool, true, false, Option, List, Str, codes}

pub data TaskStatus : Type 0 where
  pending claimed in_progress completed failed : TaskStatus

unfoldable pub same_status : TaskStatus → TaskStatus → Bool
same_status pending pending = true
same_status claimed claimed = true
same_status in_progress in_progress = true
same_status completed completed = true
same_status failed failed = true
same_status s t = false

unfoldable pub display : TaskStatus → Str
display pending = codes "pending"
display claimed = codes "claimed"
display in_progress = codes "inprogress"
display completed = codes "completed"
display failed = codes "failed"

pub data TaskPriority : Type 0 where
  low medium high critical : TaskPriority

unfoldable pub display_priority : TaskPriority → Str
display_priority low = codes "low"
display_priority medium = codes "medium"
display_priority high = codes "high"
display_priority critical = codes "critical"

pub record BoardTask : Type 0 where
  pub id : Str
  pub title : Str
  pub status : TaskStatus
  pub owner : Option Str
  pub priority : TaskPriority
  pub depends_on : List Str
  pub created_at : ℕ
  pub updated_at : ℕ
  pub body : Str
