-- ===== src/Tasks/Drawer.antt =====
-- The drawer of a task (frontend/src/features/tasks/components/TaskDrawer.tsx).
pub mod Laws
use Prim.Native.String
use bubllio_crm.Prelude.{
  zero, suc, ℕ, String, Bool, true, false, not, ◌&&◌, ◌||◌, Option, none, some, List, [], ◌∷◌, ◌==◌,
  if◌then◌else◌, filter, ◌≡◌,
}
use bubllio_crm.Drawers.{Save, save_as, update, create}
use bubllio_crm.Forms.{Zod}
use bubllio_crm.Forms.Task.{TaskFormValues, task_accepted}
use bubllio_crm.Tasks.Clock.{Clock}
use bubllio_crm.Js.Integers.{ℤ, minus, times}
use bubllio_crm.Js.Patch.{option_or, is_some}
use bubllio_crm.Js.Text.{truthy, trim}
use bubllio_crm.Types.Contact.{Contact}
use bubllio_crm.Types.Deal.{Deal}
use bubllio_crm.Types.Task.{CrmTask, TaskKind, TaskPriority, normal, TaskWorkflowStatus, todo}

-- What is sent of a task; the status only of one that exists.
pub record TaskBody : Type 0 where
  pub company : String
  pub contact : Option String
  pub deal : Option String
  pub assigned_to : Option ℕ
  pub title : String
  pub kind : TaskKind
  pub priority : TaskPriority
  pub workflow_status : Option TaskWorkflowStatus
  pub due_at : String
  pub reminder_at : Option String
  pub notes : String

-- What the drawer is opened with besides a task.
pub record Initial : Type 0 where
  pub user : Option ℕ
  pub company : Option String
  pub contact : Option String
  pub deal : Option String

-- a ?? b, of two that may be missing
abbrev pub or_else : Option String → Option String → Option String
or_else none b = b
or_else (some a) b = some a

abbrev pub or_user : Option ℕ → Option ℕ → Option ℕ
or_user none b = b
or_user (some a) b = some a

-- `Date` of the host, for texts that are dates: for another, `toISOString` throws.
pub record Inputs : Type 0 where
  -- new Date(text).getTime()
  pub get_time : String → ℤ
  -- getTimezoneOffset() of the date with a time, in minutes
  pub timezone_offset : ℤ → ℤ
  -- toISOString() of the date with a time
  pub iso_string : ℤ → String
  -- toISOString() of tomorrow at nine in the local time zone
  pub tomorrow : String

-- text.slice(0, n), for a text whose characters are one unit each
abbrev pub first_units : ℕ → String → String
first_units zero text = ""
first_units (suc n) String.[] = ""
first_units (suc n) (String.◌∷◌ c text) = String.◌∷◌ c (first_units n text)

-- a || b, and a || null
abbrev pub or_text : String → String → String
or_text a b = if truthy a then a else b

abbrev pub or_null : String → Option String
or_null a = if truthy a then some a else none

-- What the schema makes of the values: it trims the title and the notes.
abbrev pub parsed : TaskFormValues → TaskFormValues
parsed v = record v { title = trim v.title; notes = trim v.notes }

module _ (inputs : Inputs) where
  open inputs use {get_time, timezone_offset, iso_string, tomorrow}

  -- toLocalInput(value)
  abbrev pub local_input : Option String → String
  local_input none = ""
  local_input (some value) =
      let time = get_time value in
      if truthy value
      then first_units 16 (iso_string (minus time (times 60000 (timezone_offset time))))
      else ""

  -- tomorrowMorning()
  abbrev pub tomorrow_morning : String
  tomorrow_morning = local_input (some tomorrow)

  -- new Date(text).toISOString()
  abbrev pub to_iso : String → String
  to_iso text = iso_string (get_time text)

  unfoldable pub task_values : Option CrmTask → Initial → TaskFormValues
  task_values none i = record {
    company = option_or i.company "";
    contact = i.contact;
    deal = i.deal;
    assigned_to = i.user;
    title = "";
    kind = TaskKind.task;
    priority = normal;
    workflow_status = todo;
    due_at = tomorrow_morning;
    reminder_at = none;
    notes = "";
  }
  task_values (some t) i = record {
    company = t.company;
    contact = or_else t.contact i.contact;
    deal = or_else t.deal i.deal;
    assigned_to = or_user t.assigned_to i.user;
    title = t.title;
    kind = t.kind;
    priority = t.priority;
    workflow_status = t.workflow_status;
    due_at = or_text (local_input (some t.due_at)) tomorrow_morning;
    reminder_at = or_null (local_input t.reminder_at);
    notes = t.notes;
  }

  abbrev pub iso_or_null : Option String → Option String
  iso_or_null none = none
  iso_or_null (some s) = if truthy s then some (to_iso s) else none

  abbrev pub status_of : Option CrmTask → TaskFormValues → Option TaskWorkflowStatus
  status_of none v = none
  status_of (some t) v = some v.workflow_status

  abbrev pub task_body : Option CrmTask → TaskFormValues → TaskBody
  task_body task v = record {
    company = v.company;
    contact = v.contact;
    deal = v.deal;
    assigned_to = v.assigned_to;
    title = v.title;
    kind = v.kind;
    priority = v.priority;
    workflow_status = status_of task v;
    due_at = to_iso v.due_at;
    reminder_at = iso_or_null v.reminder_at;
    notes = v.notes;
  }

  -- The mutation that the form runs, if the schema accepts its values.
  unfoldable pub submit : Zod → Clock → Option CrmTask → TaskFormValues → Option (Save TaskBody)
  submit zod clock task v =
      if task_accepted zod clock v
      then some (save_as (λ (t : CrmTask). t.id) task (task_body task (parsed v)))
      else none

-- The contacts and deals of the company that is chosen.
unfoldable pub company_contacts : String → List Contact → List Contact
company_contacts company = filter (λ (c : Contact). c.company == company)

unfoldable pub company_deals : String → List Deal → List Deal
company_deals company = filter (λ (d : Deal). d.company == company)

-- Choosing a company clears the contact and the deal.
unfoldable pub choose_company : String → TaskFormValues → TaskFormValues
choose_company company v = record v { company = company; contact = none; deal = none }

-- What `submit` and `deleteTask` do when their mutation ends: the callbacks that run.
pub data Callback : Type 0 where
  on_saved on_close : Callback

abbrev pub after_submit : (succeeded : Bool) → List Callback
after_submit true = on_saved ∷ on_close ∷ []
after_submit false = []

-- The task that is deleted: the one of the drawer, once the user confirms.
abbrev pub deleted : Option CrmTask → (confirmed : Bool) → Option String
deleted none confirmed = none
deleted (some t) confirmed = if confirmed then some t.id else none

abbrev pub after_delete : (succeeded : Bool) → List Callback
after_delete true = on_close ∷ []
after_delete false = []
