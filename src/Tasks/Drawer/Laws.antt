-- ===== src/Tasks/Drawer/Laws.antt =====
-- What the drawer of a task saves (frontend/src/features/tasks/components/TaskDrawer.tsx and
-- frontend/src/features/tasks/taskSchema.ts).
use bubllio_crm.Prelude.{String, true, false, Option, none, some, ◌≡◌, sym, ap, ◌∙◌, arith}
use bubllio_crm.Forms.{Zod, filled}
use bubllio_crm.Forms.Task.{TaskFormValues, task_accepted, is_late_reminder}
use bubllio_crm.Js.Text.{truthy, trim}
use bubllio_crm.Tasks.Clock.{Clock}
use bubllio_crm.Tasks.Drawer.{TaskBody, Initial, or_else, or_user, Inputs, local_input, to_iso}
use bubllio_crm.Types.Task.{CrmTask}

module _ (inputs : Inputs) where
  open inputs use {get_time, iso_string}

  abbrev same_instant : Option String → Option String
  same_instant none = none
  same_instant (some s) = some (to_iso inputs s)

  -- What saving a task unchanged sends: its own values, the times as `toISOString` writes them, but
  -- for what it lacks and the drawer was opened with.
  abbrev pub kept_body : CrmTask → Initial → TaskBody
  kept_body t i = record {
    company = t.company;
    contact = or_else t.contact i.contact;
    deal = or_else t.deal i.deal;
    assigned_to = or_user t.assigned_to i.user;
    title = trim t.title;
    kind = t.kind;
    priority = t.priority;
    workflow_status = some t.workflow_status;
    due_at = to_iso inputs t.due_at;
    reminder_at = same_instant t.reminder_at;
    notes = trim t.notes;
  }

  -- A time that is given, and for which the text in the input, to the minute of the local time zone,
  -- is read as the same time.
  abbrev pub KeepsTime : String → Type 0
  KeepsTime s =
      (truthy s ≡ true)
      × (truthy (local_input inputs (some s)) ≡ true)
      × (get_time (local_input inputs (some s)) ≡ get_time s)

  abbrev pub KeepsReminder : Option String → Type 0
  KeepsReminder none = Unit
  KeepsReminder (some s) = KeepsTime s

module _ (zod : Zod) (clock : Clock) where
  -- A task that the form accepts has a company, a title that is not blank, a due time, and no
  -- reminder after that time; one at that very time is accepted.
  pub task_accepted_sound :
      (v : TaskFormValues) (reminder : String)
      → task_accepted zod clock v ≡ true
      → v.reminder_at ≡ some reminder
      → truthy reminder ≡ true
      → (truthy v.company ≡ true)
        × (filled zod v.title ≡ true)
        × (truthy v.due_at ≡ true)
        × (clock.before (clock.parse v.due_at) (clock.parse reminder) ≡ false)
  unfolding task_accepted
  task_accepted_sound v reminder h given set =
      let due : truthy v.due_at ≡ true = ground arith in
      let on_time : is_late_reminder zod clock v.reminder_at v.due_at ≡ false = ground arith in
      let in_time : is_late_reminder zod clock (some reminder) v.due_at ≡ false =
        sym (ap (λ o. is_late_reminder zod clock o v.due_at) given) ∙ on_time in
      (ground arith, ground arith, due, ground arith)
