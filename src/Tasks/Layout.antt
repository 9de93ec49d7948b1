-- ===== src/Tasks/Layout.antt =====
-- The layout of the tasks page and the completion of a task (frontend/src/pages/Tasks/TasksPage.tsx).
-- The local storage is a map, or none where the browser refuses it and each access throws.
use Prim.Native.String
use bubllio_crm.Prelude.{
  ℕ, String, Bool, false, Option, none, some, List, ◌==◌, if◌then◌else◌, ◌≡◌, refl, eq_refl,
}
use bubllio_crm.Js.Concat.{eq-append}
use bubllio_crm.Js.Map
use bubllio_crm.Js.Map.{lookup-set}
use bubllio_crm.Js.Text.{truthy}
use bubllio_crm.Tasks.Service.{TaskRequest, complete_request, reopen_request}
use bubllio_crm.Types.Task.{CrmTask}

pub data TaskLayout : Type 0 where
  list board : TaskLayout

abbrev pub layout_name : TaskLayout → String
layout_name list = "list"
layout_name board = "board"

abbrev pub preference_key : String → String
preference_key organization = String.◌++◌ "bubllio:tasks-view:v2:" organization

abbrev is_board : Option String → Bool
is_board none = false
is_board (some s) = s == "board"

-- The layout that the page of an organization starts with.
unfoldable pub initial_layout : String → Option (List (String × String)) → TaskLayout
initial_layout organization none = list
initial_layout organization (some storage) =
    if is_board (Map.lookup (preference_key organization) storage) then board else list

abbrev save_layout :
    String → TaskLayout → Option (List (String × String)) → Option (List (String × String))
save_layout organization next none = none
save_layout organization next (some storage) =
    some (Map.set (preference_key organization) (layout_name next) storage)

-- The layout of the page, and the storage.
unfoldable pub change_layout :
    String
    → TaskLayout
    → Option (List (String × String))
    → TaskLayout × Option (List (String × String))
change_layout organization next storage = (next, save_layout organization next storage)

-- A time of completion that is given and not empty.
abbrev is_completed : Option String → Bool
is_completed none = false
is_completed (some t) = truthy t

module _ (encode : String → String) (to_text : ℕ → String) where
  unfoldable pub toggle_complete : String → CrmTask → TaskRequest
  toggle_complete organization task =
      if is_completed task.completed_at
      then reopen_request encode to_text organization task.id
      else complete_request encode to_text organization task.id

layout_kept : (next : TaskLayout) → (if layout_name next == "board" then board else list) ≡ next
layout_kept list = refl
layout_kept board = refl

-- Where the storage can be used, the page of an organization starts next time with the layout that was
-- chosen, and that of another organization with the layout it had; where it cannot, the page still
-- shows the chosen layout.
pub initial_layout-change_layout :
    (organization other : String) (next : TaskLayout) (storage : List (String × String))
    → (organization == other) ≡ false
    → ((initial_layout organization (change_layout organization next (some storage)).1) ≡ next)
      × (initial_layout other (change_layout organization next (some storage)).1
          ≡ initial_layout other (some storage))
      × ((change_layout organization next none).0 ≡ next)
unfolding initial_layout change_layout
initial_layout-change_layout organization other next storage differ = (
  rw
      (lookup-set (preference_key organization) (preference_key organization) (layout_name next)
        storage)
      (rw (eq_refl (preference_key organization)) (layout_kept next)),
  rw (lookup-set (preference_key organization) (preference_key other) (layout_name next) storage)
      (rw (eq-append "bubllio:tasks-view:v2:" organization other) (rw differ refl)),
  refl,
)
