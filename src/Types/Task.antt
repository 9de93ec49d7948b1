-- ===== src/Types/Task.antt =====
-- frontend/src/types/task.types.ts
use bubllio_crm.Prelude.{ℕ, String, Bool, Option, ◌==◌}

pub data TaskKind : Type 0 where
  task call email meeting : TaskKind

abbrev pub kind_name : TaskKind → String
kind_name task = "task"
kind_name call = "call"
kind_name email = "email"
kind_name meeting = "meeting"

pub data TaskPriority : Type 0 where
  low normal high urgent : TaskPriority

-- `effective_status`
pub data TaskStatus : Type 0 where
  open_task overdue completed : TaskStatus

abbrev pub is_overdue : TaskStatus → Bool
is_overdue overdue = Bool.true
is_overdue open_task = Bool.false
is_overdue completed = Bool.false

pub data TaskWorkflowStatus : Type 0 where
  todo in_progress waiting completed : TaskWorkflowStatus

abbrev pub workflow_name : TaskWorkflowStatus → String
workflow_name todo = "todo"
workflow_name in_progress = "in_progress"
workflow_name waiting = "waiting"
workflow_name completed = "completed"

-- `===` of two workflow statuses
abbrev pub is_workflow : TaskWorkflowStatus → TaskWorkflowStatus → Bool
is_workflow a b = workflow_name a == workflow_name b

pub record CrmTask : Type 0 where
  pub id : String
  pub organization : String
  pub company : String
  pub company_name : String
  pub contact : Option String
  pub contact_name : String
  pub deal : Option String
  pub deal_title : String
  pub assigned_to : Option ℕ
  pub assigned_to_name : String
  pub created_by_name : String
  pub completed_by_name : String
  pub title : String
  pub kind : TaskKind
  pub priority : TaskPriority
  pub workflow_status : TaskWorkflowStatus
  pub due_at : String
  pub reminder_at : Option String
  pub notes : String
  pub effective_status : TaskStatus
  pub completed_at : Option String
  pub created_at : String
  pub updated_at : String
