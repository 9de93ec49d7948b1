-- ===== src/Tasks/List/Groups.antt =====
-- The groups of the task list and the tasks in them
-- (frontend/src/features/tasks/taskListConfig.ts, `groupTasks`).
use bubllio_crm.Prelude.{
  ◌+◌, Bool, not, ◌&&◌, List, [], ◌∷◌, ◌++◌, ◌≡◌, refl, arith, filter, count, count-append,
  Bool-cases, inl, inr, ◌∙◌,
}
use mathlib.Core.List.{append_assoc, append-nil}
use bubllio_crm.Types.Task.{CrmTask}
use bubllio_crm.Tasks.Clock.{Clock}
use bubllio_crm.Tasks.List.{
  TaskView, TaskGroup, Buckets, focus, is_late, is_due_by, put_task, fill_buckets, has_tasks,
  group_tasks, TaskGroupKey,
}

-- The tasks of a list of groups, in order.
abbrev pub tasks_of : List TaskGroup → List CrmTask
tasks_of [] = []
tasks_of (g ∷ gs) = g.tasks ++ tasks_of gs

count-tasks_of-has_tasks :
    (p : CrmTask → Bool) (gs : List TaskGroup)
    → count p (tasks_of (filter has_tasks gs)) ≡ count p (tasks_of gs)
count-tasks_of-has_tasks p [] = refl
count-tasks_of-has_tasks p (g ∷ gs) = ground (
  arith,
  count-append p g.tasks (tasks_of gs),
  count-append p g.tasks (tasks_of (filter has_tasks gs)),
  count-tasks_of-has_tasks p gs,
)

abbrev pub three : List CrmTask → List CrmTask → List CrmTask → List TaskGroup
three a b c =
    record { key = TaskGroupKey.overdue; tasks = a }
    ∷ record { key = TaskGroupKey.today; tasks = b }
    ∷ record { key = TaskGroupKey.upcoming; tasks = c }
    ∷ []

count-three :
    (p : CrmTask → Bool) (a b c : List CrmTask)
    → count p (tasks_of (three a b c)) ≡ count p a + (count p b + count p c)
count-three p a b c =
    omega
      (arith, count-append p a (b ++ (c ++ [])), count-append p b (c ++ []), count-append p c [])

module _ (clock : Clock) where
  open clock use {Time, end_of_day}

  -- The tasks of each bucket, as a filter of the list.
  abbrev pub late : Time → List CrmTask → List CrmTask
  late now = filter (is_late clock now)

  abbrev pub due_today : Time → List CrmTask → List CrmTask
  due_today now = filter (λ t. not (is_late clock now t) && is_due_by clock (end_of_day now) t)

  abbrev pub due_later : Time → List CrmTask → List CrmTask
  due_later now =
      filter (λ t. not (is_late clock now t) && not (is_due_by clock (end_of_day now) t))

  module _ (now : Time) where
    fill_buckets_lem :
        (b : Buckets) (tasks : List CrmTask)
        → fill_buckets clock now (end_of_day now) b tasks ≡ record {
          overdue = b.overdue ++ late now tasks;
          today = b.today ++ due_today now tasks;
          upcoming = b.upcoming ++ due_later now tasks;
        }
    unfolding fill_buckets
    fill_buckets_lem b [] = simp append-nil
    fill_buckets_lem b (t ∷ tasks) =
        fill_buckets_lem (put_task clock now (end_of_day now) b t) tasks
        ∙ elim (Bool-cases (is_late clock now t)) [
          | inl yes_late ↦ simp (yes_late, append_assoc)
          | inr not_late ↦ elim (Bool-cases (is_due_by clock (end_of_day now) t)) [
            | inl soon ↦ simp (not_late, soon, append_assoc)
            | inr later ↦ simp (not_late, later, append_assoc)
          ]
        ]

    count_buckets :
        (p : CrmTask → Bool) (tasks : List CrmTask)
        → count p (late now tasks) + (count p (due_today now tasks) + count p (due_later now tasks))
          ≡ count p tasks
    count_buckets p [] = omega arith
    count_buckets p (t ∷ tasks) = ground (arith, count_buckets p tasks)

    -- The groups of the focus view are the late tasks, those due by the end of the day and the
    -- others, each in the order of the list, less the empty groups.
    pub group_tasks-focus :
        (tasks : List CrmTask)
        → group_tasks clock tasks focus now
          ≡ filter has_tasks (three (late now tasks) (due_today now tasks) (due_later now tasks))
    unfolding group_tasks
    group_tasks-focus tasks =
        rw (fill_buckets_lem (record { overdue = []; today = []; upcoming = [] }) tasks)

    -- Whatever the view, each task stands in the groups as often as in the list.
    pub count-group_tasks :
        (p : CrmTask → Bool) (tasks : List CrmTask) (view : TaskView)
        → count p (tasks_of (group_tasks clock tasks view now)) ≡ count p tasks
    count-group_tasks p tasks TaskView.completed = unfold group_tasks in rw append-nil refl
    count-group_tasks p tasks TaskView.all = unfold group_tasks in rw append-nil refl
    count-group_tasks p tasks TaskView.upcoming = unfold group_tasks in rw append-nil refl
    count-group_tasks p tasks TaskView.focus = rw (group_tasks-focus tasks) (
        count-tasks_of-has_tasks p
          (three (late now tasks) (due_today now tasks) (due_later now tasks))
        ∙ count-three p (late now tasks) (due_today now tasks) (due_later now tasks)
        ∙ count_buckets p tasks)
