-- ===== src/Tasks/List.antt =====
-- Searching and grouping the tasks of a list (frontend/src/features/tasks/taskListConfig.ts).
pub mod Groups
use bubllio_crm.Prelude.{
  String, Bool, true, false, not, ◌||◌, List, [], ◌∷◌, ◌++◌, if◌then◌else◌, filter, is_empty,
}
use bubllio_crm.Js.Text.{trim, truthy, includes, join}
use bubllio_crm.Types.Task.{CrmTask, is_overdue}
use bubllio_crm.Tasks.Clock.{Clock}

pub data TaskView : Type 0 where
  focus upcoming all completed : TaskView

pub data TaskGroupKey : Type 0 where
  overdue today upcoming all completed : TaskGroupKey

pub record TaskGroup : Type 0 where
  pub key : TaskGroupKey
  pub tasks : List CrmTask

-- `lower` is `toLocaleLowerCase`, which goes by the locale of the host.
module _ (lower : String → String) where
  abbrev pub search_text : CrmTask → String
  search_text t = lower (
      join " " (t.title ∷ t.company_name ∷ t.deal_title ∷ t.contact_name ∷ t.assigned_to_name ∷ []))

  unfoldable pub filter_tasks : List CrmTask → String → List CrmTask
  filter_tasks tasks query =
      let normalized = lower (trim query) in
      if truthy normalized then filter (λ t. includes normalized (search_text t)) tasks else tasks

-- The three lists that the loop of `groupTasks` fills.
pub record Buckets : Type 0 where
  pub overdue : List CrmTask
  pub today : List CrmTask
  pub upcoming : List CrmTask

-- group.tasks.length > 0
abbrev pub has_tasks : TaskGroup → Bool
has_tasks group = not (is_empty group.tasks)

module _ (clock : Clock) where
  open clock use {Time, parse, before, end_of_day}

  abbrev pub is_late : Time → CrmTask → Bool
  is_late now task = is_overdue task.effective_status || before (parse task.due_at) now

  -- dueAt < endOfToday
  abbrev pub is_due_by : Time → CrmTask → Bool
  is_due_by limit task = before (parse task.due_at) limit

  -- One round of the loop.
  abbrev pub put_task : Time → Time → Buckets → CrmTask → Buckets
  put_task now limit b task =
      if is_late now task
      then record b { overdue = b.overdue ++ task ∷ [] }
      else (if is_due_by limit task
          then record b { today = b.today ++ task ∷ [] }
          else record b { upcoming = b.upcoming ++ task ∷ [] })

  fill_buckets : Time → Time → Buckets → List CrmTask → Buckets
  fill_buckets now limit b [] = b
  fill_buckets now limit b (task ∷ tasks) = fill_buckets now limit (put_task now limit b task) tasks

  unfoldable pub group_tasks : List CrmTask → TaskView → Time → List TaskGroup
  unfolding fill_buckets
  group_tasks tasks completed now = record { key = completed; tasks = tasks } ∷ []
  group_tasks tasks all now = record { key = all; tasks = tasks } ∷ []
  group_tasks tasks upcoming now = record { key = upcoming; tasks = tasks } ∷ []
  group_tasks tasks focus now =
      let b =
        fill_buckets now (end_of_day now) (record { overdue = []; today = []; upcoming = [] })
          tasks in
      filter has_tasks (
        record { key = overdue; tasks = b.overdue }
        ∷ record { key = today; tasks = b.today }
        ∷ record { key = upcoming; tasks = b.upcoming }
        ∷ [])
