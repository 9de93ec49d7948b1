-- ===== src/Tasks/Service.antt =====
-- The requests of tasks (frontend/src/features/tasks/services/taskService.ts).
use Prim.Native.String
use bubllio_crm.Prelude.{ℕ, String, Option, none, some, List, [], if◌then◌else◌, ◌≡◌, nat_eq}
use bubllio_crm.Js.Map
use bubllio_crm.Js.Map.{lookup-set}
use bubllio_crm.Requests.{
  sent, set_if, Method, get, post, patch, delete, organization_path, segment, lookup-set_if,
  or_none,
}
use bubllio_crm.Types.Task.{TaskWorkflowStatus, workflow_name}

pub data Assignee : Type 0 where
  user : ℕ → Assignee
  text : String → Assignee

-- A filter that is not given is `none`; `''` is a text.
pub record TaskFilters : Type 0 where
  pub bucket : Option String
  pub assigned_to : Option Assignee
  pub company : Option String
  pub contact : Option String
  pub deal : Option String
  pub kind : Option String

-- What is passed to `request`: the path, the parameters after `?`, the method, and whether there is
-- a body; a status is the body of a move.
pub record TaskRequest : Type 0 where
  pub path : String
  pub params : List (String × String)
  pub method : Method
  pub status : Option String

-- `encode` is encodeURIComponent, and `to_text` gives the text of a number.
module _ (encode : String → String) (to_text : ℕ → String) where
  unfoldable pub task_path : String → Option String → String
  task_path organization task =
      String.◌++◌ (organization_path encode organization)
        (String.◌++◌ "tasks/" (segment encode task))

  -- String(filters.assignedTo), where it is truthy
  abbrev pub assignee_text : Option Assignee → Option String
  assignee_text none = none
  assignee_text (some (user n)) = if nat_eq n 0 then none else some (to_text n)
  assignee_text (some (text s)) = some s

  unfoldable pub task_params : TaskFilters → List (String × String)
  task_params f = set_if "kind" f.kind (
      set_if "deal" f.deal (
        set_if "contact" f.contact (
          set_if "company" f.company (
            set_if "assigned_to" (assignee_text f.assigned_to)
              (set_if "bucket" f.bucket Map.empty)))))

  abbrev plain : String → Method → TaskRequest
  plain path method = record { path = path; params = []; method = method; status = none }

  abbrev pub list_request : String → TaskFilters → TaskRequest
  list_request organization f = record (plain (task_path organization none) get) {
    params = task_params f;
  }

  abbrev pub create_request : String → TaskRequest
  create_request organization = plain (task_path organization none) post

  abbrev pub update_request : String → String → TaskRequest
  update_request organization task = plain (task_path organization (some task)) patch

  abbrev pub remove_request : String → String → TaskRequest
  remove_request organization task = plain (task_path organization (some task)) delete

  abbrev pub complete_request : String → String → TaskRequest
  complete_request organization task =
      plain (String.◌++◌ (task_path organization (some task)) "complete/") post

  abbrev pub reopen_request : String → String → TaskRequest
  reopen_request organization task =
      plain (String.◌++◌ (task_path organization (some task)) "reopen/") post

  abbrev pub move_request : String → String → TaskWorkflowStatus → TaskRequest
  move_request organization task status =
      record (plain (String.◌++◌ (task_path organization (some task)) "move/") post) {
        status = some (workflow_name status);
      }

  -- The request of a task list has each filter that is given and not empty, under its own key, and
  -- no parameter for a filter that is not given or empty.
  pub lookup-task_params :
      (f : TaskFilters)
      → (Map.lookup "bucket" (task_params f) ≡ sent f.bucket)
        × (Map.lookup "assigned_to" (task_params f) ≡ sent (assignee_text f.assigned_to))
        × (Map.lookup "company" (task_params f) ≡ sent f.company)
        × (Map.lookup "contact" (task_params f) ≡ sent f.contact)
        × (Map.lookup "deal" (task_params f) ≡ sent f.deal)
        × (Map.lookup "kind" (task_params f) ≡ sent f.kind)
  unfolding task_params Map.lookup
  lookup-task_params f = (
    simp (lookup-set_if, or_none),
    simp (lookup-set_if, or_none),
    simp (lookup-set_if, or_none),
    simp (lookup-set_if, or_none),
    simp (lookup-set_if, or_none),
    simp (lookup-set_if, or_none),
  )
