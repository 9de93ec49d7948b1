-- ===== src/Tasks/Drag.antt =====
-- What the task board reads from a drag source and from a drop target
-- (frontend/src/features/tasks/taskBoardDnd.ts).
use bubllio_crm.Prelude.{Bool, ◌&&◌, Option, none, some, List, [], ◌∷◌, if◌then◌else◌, ◌≡◌, refl}
use bubllio_crm.Js.Value.{
  Value, undefined, null, str, obj, Fields, end, field, get, is_string, as_record, one_of, spelled,
}
use bubllio_crm.Js.Patch.{is_some}
use bubllio_crm.Types.Task.{TaskWorkflowStatus, workflow_name}

-- taskWorkflowStatuses
abbrev pub workflow_statuses : List TaskWorkflowStatus
workflow_statuses =
    TaskWorkflowStatus.todo ∷ TaskWorkflowStatus.in_progress ∷ TaskWorkflowStatus.waiting
    ∷ TaskWorkflowStatus.completed ∷ []

-- a ?? b
abbrev pub nullish_or : {N : Type 0} → Value N → Value N → Value N
nullish_or undefined b = b
nullish_or null b = b
nullish_or a b = a

module _ {N : Type 0} where
  -- The tests of `isTask` on the properties of an object.
  abbrev pub is_task_record : Fields N → Bool
  is_task_record value =
      is_string (get "id" value)
      && (is_string (get "workflow_status" value)
          && (is_some (one_of workflow_name workflow_statuses (get "workflow_status" value))
              && (is_string (get "title" value)
                  && (is_string (get "company_name" value)
                      && (is_string (get "deal_title" value)
                          && (is_string (get "kind" value)
                              && (is_string (get "priority" value)
                                  && (is_string (get "effective_status" value)
                                      && (is_string (get "due_at" value)
                                          && is_string (get "assigned_to_name" value))))))))))

  abbrev as_task : Option (Fields N) → Option (Fields N)
  as_task none = none
  as_task (some value) = if is_task_record value then some value else none

  abbrev task_of : Option (Fields N) → Option (Fields N)
  task_of none = none
  task_of (some source) = as_task (as_record (get "task" source))

  unfoldable pub task_from_drag_data : Value N → Option (Fields N)
  task_from_drag_data source = task_of (as_record source)

  -- isRecord(data.task) ? data.task.workflow_status : undefined
  abbrev nested_status : Option (Fields N) → Value N
  nested_status none = undefined
  nested_status (some task) = get "workflow_status" task

  abbrev status_of : Option (Fields N) → Option TaskWorkflowStatus
  status_of none = none
  status_of (some source) =
      one_of workflow_name workflow_statuses
        (nullish_or (get "workflowStatus" source) (nested_status (as_record (get "task" source))))

  unfoldable pub task_status_from_drag_data : Value N → Option TaskWorkflowStatus
  task_status_from_drag_data source = status_of (as_record source)

  -- { workflowStatus }, the data of a lane (frontend/src/features/tasks/components/TaskBoard.tsx)
  unfoldable pub lane_data : TaskWorkflowStatus → Value N
  lane_data status = obj "[object Object]" (field "workflowStatus" (str (workflow_name status)) end)

  -- { task, workflowStatus }, the data of a card
  unfoldable pub card_data : Fields N → TaskWorkflowStatus → Value N
  card_data task status = obj "[object Object]" (
      field "task" (obj "[object Object]" task)
        (field "workflowStatus" (str (workflow_name status)) end))

pub spelled-workflow_name :
    (s : TaskWorkflowStatus) → spelled workflow_name workflow_statuses (workflow_name s) ≡ some s
spelled-workflow_name TaskWorkflowStatus.todo = refl
spelled-workflow_name TaskWorkflowStatus.in_progress = refl
spelled-workflow_name TaskWorkflowStatus.waiting = refl
spelled-workflow_name TaskWorkflowStatus.completed = refl

-- Over a lane the target status is the lane's, and over a card it is the card's; a card's data give
-- back its task exactly when the guard accepts the task.
pub from_drag_data-board_data :
    {N : Type 0} (task : Fields N) (status : TaskWorkflowStatus)
    → (task_status_from_drag_data (lane_data {N = N} status) ≡ some status)
      × (task_status_from_drag_data (card_data task status) ≡ some status)
      × (task_from_drag_data (card_data task status)
          ≡ (if is_task_record task then some task else none))
unfolding lane_data card_data task_status_from_drag_data task_from_drag_data
from_drag_data-board_data task status =
    (spelled-workflow_name status, spelled-workflow_name status, refl)
