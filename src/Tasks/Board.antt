-- ===== src/Tasks/Board.antt =====
-- The lanes of the task board and its drag handlers
-- (frontend/src/features/tasks/components/TaskBoard.tsx).
use bubllio_crm.Prelude.{
  ℕ, ◌+◌, String, Bool, true, false, not, ◌&&◌, Option, none, some, List, [], ◌∷◌, ◌++◌, ◌==◌,
  if◌then◌else◌, ◌≡◌, refl, arith, filter, count, Bool-cases, inl, inr, count-append,
}
use bubllio_crm.Js.Value.{Value, undefined, Fields, get, as_string}
use bubllio_crm.Js.Patch.{option_or}
use bubllio_crm.Types.Task.{
  CrmTask, TaskWorkflowStatus, todo, in_progress, waiting, workflow_name, is_workflow,
}
use bubllio_crm.Tasks.Drag.{task_from_drag_data, task_status_from_drag_data, workflow_statuses}

-- The lanes, in the order of `lanes`, each with `tasks.filter(workflow_status === lane.value)`.
abbrev pub lane_tasks : List CrmTask → TaskWorkflowStatus → List CrmTask
lane_tasks tasks status = filter (λ (t : CrmTask). is_workflow t.workflow_status status) tasks

abbrev pub lanes_from : List CrmTask → List TaskWorkflowStatus → List CrmTask
lanes_from tasks [] = []
lanes_from tasks (status ∷ more) = lane_tasks tasks status ++ lanes_from tasks more

-- All the cards on the board, lane by lane.
unfoldable pub board_tasks : List CrmTask → List CrmTask
board_tasks tasks = lanes_from tasks workflow_statuses

module _ (N : Type 0) where
  -- `active.data.current`, and `over`, whose data may be missing.
  pub record TaskDragEvent : Type 0 where
    pub active : Value N
    pub over : Option (Value N)

  -- The arguments of `onMove`.
  pub record TaskMove : Type 0 where
    pub task : Fields N
    pub status : TaskWorkflowStatus

-- status !== task.workflow_status
abbrev pub same_status : TaskWorkflowStatus → Option String → Bool
same_status status none = false
same_status status (some text) = workflow_name status == text

module _ {N : Type 0} where
  -- The new `activeTask`.
  unfoldable pub drag_start : TaskDragEvent N → Option (Fields N)
  drag_start event = task_from_drag_data event.active

  abbrev pub move_if : Bool → Option (Fields N) → Option TaskWorkflowStatus → Option (TaskMove N)
  move_if moving none status = none
  move_if moving (some task) none = none
  move_if moving (some task) (some status) =
      if not (same_status status (as_string (get "workflow_status" task))) && not moving
      then some (record { task = task; status = status })
      else none

  -- The new `activeTask`, and the call of `onMove` if there is one.
  unfoldable pub drag_end : Bool → TaskDragEvent N → Option (Fields N) × Option (TaskMove N)
  drag_end moving event = (
    none,
    move_if moving (task_from_drag_data event.active)
        (task_status_from_drag_data (option_or event.over undefined)),
  )

  move_if-some :
      (moving : Bool) (task : Option (Fields N)) (status : Option TaskWorkflowStatus)
      (m : TaskMove N)
      → move_if moving task status ≡ some m
      → (moving ≡ false)
        × (task ≡ some m.task)
        × (status ≡ some m.status)
        × (same_status m.status (as_string (get "workflow_status" m.task)) ≡ false)
  move_if-some moving none status m e = absurd (cc e)
  move_if-some moving (some task) none m e = absurd (cc e)
  move_if-some moving (some task) (some status) m e =
      elim (Bool-cases
        (not (same_status status (as_string (get "workflow_status" task))) && not moving)) [
          | inl ok ↦
              let same : record { task = task; status = status } ≡ m = cc (rw ok at e) in
              rw (← same) (ground arith, refl, refl, ground arith)
          | inr bad ↦ absurd (cc (rw bad at e))
        ]

-- A drop calls `onMove` only while no move is running, with the dragged task and the status under
-- the pointer, and never for a task that has this status already.
pub drag_end-on_move :
    {N : Type 0} (moving : Bool) (event : TaskDragEvent N) (m : TaskMove N)
    → (drag_end moving event).1 ≡ some m
    → (moving ≡ false)
      × (task_from_drag_data event.active ≡ some m.task)
      × (task_status_from_drag_data (option_or event.over undefined) ≡ some m.status)
      × (same_status m.status (as_string (get "workflow_status" m.task)) ≡ false)
unfolding drag_end
drag_end-on_move moving event m e = move_if-some moving _ _ m e

weight : Bool → Bool → ℕ
weight b c = if b && c then 1 else 0

count-lane_tasks :
    (p : CrmTask → Bool) (t : CrmTask) (tasks : List CrmTask) (status : TaskWorkflowStatus)
    → count p (lane_tasks (t ∷ tasks) status)
      ≡ weight (p t) (is_workflow t.workflow_status status) + count p (lane_tasks tasks status)
unfolding weight
count-lane_tasks p t tasks status = ground arith

one_lane :
    (b : Bool) (s : TaskWorkflowStatus)
    → weight b (is_workflow s todo)
        + weight b (is_workflow s in_progress)
        + weight b (is_workflow s waiting)
        + weight b (is_workflow s TaskWorkflowStatus.completed)
      ≡ (if b then 1 else 0)
unfolding weight
one_lane true todo = refl
one_lane true in_progress = refl
one_lane true waiting = refl
one_lane true TaskWorkflowStatus.completed = refl
one_lane false s = refl

count_lanes :
    (p : CrmTask → Bool) (tasks : List CrmTask)
    → count p (lane_tasks tasks todo)
        + count p (lane_tasks tasks in_progress)
        + count p (lane_tasks tasks waiting)
        + count p (lane_tasks tasks TaskWorkflowStatus.completed)
      ≡ count p tasks
count_lanes p [] = omega arith
count_lanes p (t ∷ tasks) = omega (
  arith,
  count-lane_tasks p t tasks todo,
  count-lane_tasks p t tasks in_progress,
  count-lane_tasks p t tasks waiting,
  count-lane_tasks p t tasks TaskWorkflowStatus.completed,
  one_lane (p t) t.workflow_status,
  count_lanes p tasks,
)

-- Every task stands on the board exactly as often as in the list: the lanes share no task and
-- leave none out.
pub count-board_tasks :
    (p : CrmTask → Bool) (tasks : List CrmTask) → count p (board_tasks tasks) ≡ count p tasks
unfolding board_tasks
count-board_tasks p tasks = omega (
  arith,
  count-append p (lane todo)
      (lane in_progress ++ (lane waiting ++ (lane TaskWorkflowStatus.completed ++ []))),
  count-append p (lane in_progress) (lane waiting ++ (lane TaskWorkflowStatus.completed ++ [])),
  count-append p (lane waiting) (lane TaskWorkflowStatus.completed ++ []),
  count-append p (lane TaskWorkflowStatus.completed) [],
  count_lanes p tasks,
)
  where
    lane : TaskWorkflowStatus → List CrmTask
    lane = lane_tasks tasks
