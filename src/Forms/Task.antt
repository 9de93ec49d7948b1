-- ===== src/Forms/Task.antt =====
-- The schema of the task form (frontend/src/features/tasks/taskSchema.ts); the kind, the priority and
-- the status are options of their fields. `clock` reads the local times of the form.
use bubllio_crm.Prelude.{ℕ, String, Bool, false, not, ◌&&◌, Option, none, some}
use bubllio_crm.Forms.{Zod, within, filled_within, optional_uuid, optional_positive}
use bubllio_crm.Js.Text.{truthy}
use bubllio_crm.Tasks.Clock.{Clock}
use bubllio_crm.Types.Task.{TaskKind, TaskPriority, TaskWorkflowStatus}

pub record TaskFormValues : Type 0 where
  pub company : String
  pub contact : Option String
  pub deal : Option String
  pub assigned_to : Option ℕ
  pub title : String
  pub kind : TaskKind
  pub priority : TaskPriority
  pub workflow_status : TaskWorkflowStatus
  pub due_at : String
  pub reminder_at : Option String
  pub notes : String

module _ (zod : Zod) (clock : Clock) where
  -- values.reminder_at && values.due_at && new Date(values.reminder_at) > new Date(values.due_at)
  abbrev pub is_late_reminder : Option String → String → Bool
  is_late_reminder none due = false
  is_late_reminder (some reminder) due =
      truthy reminder && (truthy due && clock.before (clock.parse due) (clock.parse reminder))

  unfoldable pub task_accepted : TaskFormValues → Bool
  task_accepted v =
      truthy v.company
      && optional_uuid zod v.contact
      && optional_uuid zod v.deal
      && optional_positive v.assigned_to
      && filled_within zod 255 v.title
      && truthy v.due_at
      && within zod 5000 v.notes
      && not (is_late_reminder v.reminder_at v.due_at)
