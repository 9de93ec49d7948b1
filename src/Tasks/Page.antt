-- ===== src/Tasks/Page.antt =====
-- The task page: the query that the URL parameters select, the summary of the rows, and completing
-- a task (frontend/src/pages/Tasks/TasksPage.tsx).
use bubllio_crm.Prelude.{
  ℕ, ◌+◌, ◌≤◌, String, Bool, false, not, ◌&&◌, Option, none, some, List, [], ◌∷◌, if◌then◌else◌,
  ◌≡◌, arith, length, length-filter, count,
}
use bubllio_crm.Js.Patch.{option_or}
use bubllio_crm.Js.Text.{truthy}
use bubllio_crm.Types.Task.{CrmTask, TaskKind, is_overdue}
use bubllio_crm.Tasks.Clock.{Clock}
use bubllio_crm.Tasks.List.{TaskView, focus, is_late, is_due_by}
use bubllio_crm.Tasks.List.Groups.{late}
use bubllio_crm.Tasks.Search.{
  TaskSearch, TaskOwner, me, all_owners, unassigned, KindFilter, all_kinds, only,
}

pub data TaskBucket : Type 0 where
  open_bucket upcoming_bucket completed_bucket : TaskBucket

-- The filters that the page asks for; `''` is `none`.
pub record PageFilters : Type 0 where
  pub bucket : TaskBucket
  pub assigned_to : Option TaskOwner
  pub kind : Option TaskKind

abbrev pub bucket_of : TaskView → TaskBucket
bucket_of TaskView.upcoming = upcoming_bucket
bucket_of TaskView.completed = completed_bucket
bucket_of TaskView.focus = open_bucket
bucket_of TaskView.all = open_bucket

-- owner === 'all' ? '' : owner
abbrev pub owner_filter : TaskOwner → Option TaskOwner
owner_filter all_owners = none
owner_filter me = some me
owner_filter unassigned = some unassigned

-- kind === 'all' ? '' : kind
abbrev pub kind_filter : KindFilter → Option TaskKind
kind_filter all_kinds = none
kind_filter (only kind) = some kind

unfoldable pub page_filters : TaskSearch → PageFilters
page_filters s = record {
  bucket = bucket_of (option_or s.view focus);
  assigned_to = owner_filter (option_or s.owner me);
  kind = kind_filter (option_or s.kind all_kinds);
}

-- Number(owner !== 'me') + Number(kind !== 'all')
abbrev owner_counts : TaskOwner → ℕ
owner_counts me = 0
owner_counts all_owners = 1
owner_counts unassigned = 1

abbrev kind_counts : KindFilter → ℕ
kind_counts all_kinds = 0
kind_counts (only kind) = 1

unfoldable pub active_filter_count : TaskSearch → ℕ
active_filter_count s =
    owner_counts (option_or s.owner me) + kind_counts (option_or s.kind all_kinds)

-- updateSearch({ owner: undefined, kind: undefined })
unfoldable pub clear_filters : TaskSearch → TaskSearch
clear_filters s = record s { owner = none; kind = none }

-- Boolean(text) of a text or `null`
abbrev pub has_text : Option String → Bool
has_text none = false
has_text (some s) = truthy s

pub record Summary : Type 0 where
  pub overdue : ℕ
  pub today : ℕ

module _ (clock : Clock) where
  open clock use {Time, end_of_day}

  -- One round of the loop of `summary`.
  abbrev pub summary_step : Time → Summary → CrmTask → Summary
  summary_step limit s task =
      if has_text task.completed_at
      then s
      else (if is_overdue task.effective_status
          then record s { overdue = s.overdue + 1 }
          else (if is_due_by clock limit task then record s { today = s.today + 1 } else s))

  summary_loop : Time → Summary → List CrmTask → Summary
  summary_loop limit s [] = s
  summary_loop limit s (task ∷ tasks) = summary_loop limit (summary_step limit s task) tasks

  unfoldable pub summary : Time → List CrmTask → Summary
  unfolding summary_loop
  summary now rows = summary_loop (end_of_day now) (record { overdue = 0; today = 0 }) rows

  abbrev pub counts_overdue : CrmTask → Bool
  counts_overdue t = not (has_text t.completed_at) && is_overdue t.effective_status

  abbrev pub counts_today : Time → CrmTask → Bool
  counts_today now t =
      not (has_text t.completed_at)
      && (not (is_overdue t.effective_status) && is_due_by clock (end_of_day now) t)

  summary_loop_lem :
      (now : Time) (s : Summary) (rows : List CrmTask)
      → ((summary_loop (end_of_day now) s rows).overdue ≡ s.overdue + count counts_overdue rows)
        × ((summary_loop (end_of_day now) s rows).today ≡ s.today + count (counts_today now) rows)
  unfolding summary_loop
  summary_loop_lem now s [] = (omega arith, omega arith)
  summary_loop_lem now s (t ∷ rows) =
      let (o, d) = summary_loop_lem now (summary_step (end_of_day now) s t) rows in
      (ground arith, ground arith)

  -- The summary counts the tasks that are not completed and that the server calls overdue, and the
  -- other tasks that are not completed and fall due by the end of the day.
  pub summary_lem :
      (now : Time) (rows : List CrmTask)
      → ((summary now rows).overdue ≡ count counts_overdue rows)
        × ((summary now rows).today ≡ count (counts_today now) rows)
  unfolding summary
  summary_lem now rows =
      let (o, d) = summary_loop_lem now (record { overdue = 0; today = 0 }) rows in
      (omega arith, omega arith)

  overdue-le :
      (now : Time) (rows : List CrmTask)
      → count counts_overdue rows ≤ count (is_late clock now) rows
  overdue-le now [] = omega arith
  overdue-le now (t ∷ rows) = ground (arith, overdue-le now rows)

  -- The summary never calls more tasks overdue than the `overdue` group of the list holds.
  pub summary-overdue-le :
      (now : Time) (rows : List CrmTask) → (summary now rows).overdue ≤ length (late clock now rows)
  summary-overdue-le now rows =
      omega
        (arith, summary_lem now rows, length-filter (is_late clock now) rows, overdue-le now rows)
