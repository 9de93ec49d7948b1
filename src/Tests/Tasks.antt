-- ===== src/Tests/Tasks.antt =====
-- The theorems on tasks at a list of three tasks.
use bubllio_crm.Prelude.{
  String, none, ℕ, Bool, true, false, some, ◌≡◌, ◌≤◌, refl, count, length, filter,
}
use bubllio_crm.Js.Value.{Fields, field, str, end}
use bubllio_crm.Types.Task.{CrmTask, TaskWorkflowStatus, in_progress, todo}
use bubllio_crm.Js.Map
use bubllio_crm.Tasks.Service.{TaskFilters, text, task_params, lookup-task_params}
use bubllio_crm.Tests.Data.{ones, tasks, clock}
use bubllio_crm.Tasks.List.{focus, group_tasks, has_tasks}
use bubllio_crm.Tasks.List.Groups.{
  group_tasks-focus, count-group_tasks, tasks_of, three, late, due_today, due_later,
}
use bubllio_crm.Tasks.Board.{
  board_tasks, count-board_tasks, drag_end, drag_end-on_move, TaskDragEvent, TaskMove,
}
use bubllio_crm.Tasks.Drag.{
  lane_data, card_data, from_drag_data-board_data, task_status_from_drag_data, task_from_drag_data,
}
use bubllio_crm.Tasks.Search.{parse_task_search, task_search_fields, parse_task_search_idempotent}
use bubllio_crm.Tasks.Page.{summary, summary_lem, summary-overdue-le, counts_today}

abbrev is_waiting : CrmTask → Bool
is_waiting t = elim t.workflow_status [ TaskWorkflowStatus.waiting ↦ true | _ ↦ false ]

group_tasks-focus_example :
    group_tasks clock tasks focus 2
    ≡ filter has_tasks
        (three (late clock 2 tasks) (due_today clock 2 tasks) (due_later clock 2 tasks))
group_tasks-focus_example = group_tasks-focus clock 2 tasks

count-group_tasks_example :
    count is_waiting (tasks_of (group_tasks clock tasks focus 2)) ≡ count is_waiting tasks
count-group_tasks_example = count-group_tasks clock 2 is_waiting tasks focus

count-board_tasks_example : count is_waiting (board_tasks tasks) ≡ count is_waiting tasks
count-board_tasks_example = count-board_tasks is_waiting tasks

abbrev card : Fields ℕ
card = field "id" (str "t") (
    field "workflow_status" (str "todo") (
      field "title" (str "Call") (
        field "company_name" (str "") (
          field "deal_title" (str "") (
            field "kind" (str "call") (
              field "priority" (str "low") (
                field "effective_status" (str "open")
                  (field "due_at" (str "") (field "assigned_to_name" (str "") end)))))))))

abbrev drop : TaskDragEvent ℕ
drop = record { active = card_data card todo; over = some (lane_data in_progress) }

abbrev move : TaskMove ℕ
move = record { task = card; status = in_progress }

drop_lem : (drag_end false drop).1 ≡ some move
unfolding drag_end card_data lane_data task_from_drag_data task_status_from_drag_data
drop_lem = refl

drag_end-on_move_example : false ≡ false
drag_end-on_move_example = (drag_end-on_move false drop move drop_lem).0

from_drag_data-board_data_example :
    task_status_from_drag_data (lane_data {N = ℕ} in_progress) ≡ some in_progress
from_drag_data-board_data_example = (from_drag_data-board_data card in_progress).0

-- ?view=all&owner=nobody
abbrev url : Fields ℕ
url = field "view" (str "all") (field "owner" (str "nobody") end)

parse_task_search_idempotent_example :
    parse_task_search (task_search_fields {N = ℕ} (parse_task_search url)) ≡ parse_task_search url
parse_task_search_idempotent_example = parse_task_search_idempotent ℕ url

summary_lem_example : (summary clock 2 tasks).today ≡ count (counts_today clock 2) tasks
summary_lem_example = (summary_lem clock 2 tasks).1

summary-overdue-le_example : (summary clock 2 tasks).overdue ≤ length (late clock 2 tasks)
summary-overdue-le_example = summary-overdue-le clock 2 tasks

abbrev as_is : String → String
as_is s = s

abbrev filters : TaskFilters
filters = record {
  bucket = some "open";
  assigned_to = some (text "me");
  company = none;
  contact = none;
  deal = none;
  kind = some "";
}

lookup-task_params_example : Map.lookup "bucket" (task_params as_is ones filters) ≡ some "open"
lookup-task_params_example = (lookup-task_params as_is ones filters).0
