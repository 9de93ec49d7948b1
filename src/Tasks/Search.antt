-- ===== src/Tasks/Search.antt =====
-- The URL parameters of the task page (frontend/src/features/tasks/taskSearchConfig.ts) and what
-- the page makes of them (frontend/src/pages/Tasks/TasksPage.tsx).
use bubllio_crm.Prelude.{String, Bool, Option, some, List, [], ◌∷◌, ◌≡◌, refl}
use bubllio_crm.Js.Value.{str, Fields, end, get, as_string, is_true, one_of, spelled}
use bubllio_crm.Js.Patch.{
  present, non_blank, flag, get-present, get-flag, one_of-shown, as_string-shown, is_true-if,
  non_blank_idempotent,
}
use bubllio_crm.Types.Task.{TaskKind, kind_name}
use bubllio_crm.Tasks.List.{TaskView}

-- TASK_VIEWS
abbrev pub view_name : TaskView → String
view_name TaskView.focus = "focus"
view_name TaskView.upcoming = "upcoming"
view_name TaskView.all = "all"
view_name TaskView.completed = "completed"

abbrev pub task_views : List TaskView
task_views = TaskView.focus ∷ TaskView.upcoming ∷ TaskView.all ∷ TaskView.completed ∷ []

pub data TaskOwner : Type 0 where
  me all_owners unassigned : TaskOwner

abbrev pub owner_name : TaskOwner → String
owner_name me = "me"
owner_name all_owners = "all"
owner_name unassigned = "unassigned"

-- TASK_OWNERS
abbrev pub task_owners : List TaskOwner
task_owners = me ∷ all_owners ∷ unassigned ∷ []

pub data KindFilter : Type 0 where
  all_kinds : KindFilter
  only : TaskKind → KindFilter

abbrev pub kind_filter_name : KindFilter → String
kind_filter_name all_kinds = "all"
kind_filter_name (only kind) = kind_name kind

-- TASK_KINDS
abbrev pub task_kinds : List KindFilter
task_kinds =
    all_kinds
    ∷ only TaskKind.task
    ∷ only TaskKind.call
    ∷ only TaskKind.email
    ∷ only TaskKind.meeting
    ∷ []

pub record TaskSearch : Type 0 where
  pub view : Option TaskView
  pub owner : Option TaskOwner
  pub kind : Option KindFilter
  pub q : Option String
  pub create : Bool

module _ {N : Type 0} where
  unfoldable pub parse_task_search : Fields N → TaskSearch
  parse_task_search search = record {
    view = one_of view_name task_views (get "view" search);
    owner = one_of owner_name task_owners (get "owner" search);
    kind = one_of kind_filter_name task_kinds (get "kind" search);
    q = non_blank (as_string (get "q" search));
    create = is_true (get "create" search);
  }

  unfoldable pub task_search_fields : TaskSearch → Fields N
  task_search_fields s =
      present "view" (λ v. str (view_name v)) s.view
        (present "owner" (λ v. str (owner_name v)) s.owner
          (present "kind" (λ v. str (kind_filter_name v)) s.kind
            (present "q" (λ t. str t) s.q (flag "create" s.create end))))

spelled-view_name : (v : TaskView) → spelled view_name task_views (view_name v) ≡ some v
spelled-view_name TaskView.focus = refl
spelled-view_name TaskView.upcoming = refl
spelled-view_name TaskView.all = refl
spelled-view_name TaskView.completed = refl

spelled-owner_name : (v : TaskOwner) → spelled owner_name task_owners (owner_name v) ≡ some v
spelled-owner_name me = refl
spelled-owner_name all_owners = refl
spelled-owner_name unassigned = refl

spelled-kind_filter_name :
    (v : KindFilter) → spelled kind_filter_name task_kinds (kind_filter_name v) ≡ some v
spelled-kind_filter_name all_kinds = refl
spelled-kind_filter_name (only TaskKind.task) = refl
spelled-kind_filter_name (only TaskKind.call) = refl
spelled-kind_filter_name (only TaskKind.email) = refl
spelled-kind_filter_name (only TaskKind.meeting) = refl

parse-fields :
    (N : Type 0) (s : TaskSearch)
    → non_blank s.q ≡ s.q
    → parse_task_search (task_search_fields {N = N} s) ≡ s
unfolding parse_task_search task_search_fields
parse-fields N s normal = simp (
  get-present,
  get-flag,
  as_string-shown N,
  is_true-if N,
  normal,
  one_of-shown N view_name task_views spelled-view_name,
  one_of-shown N owner_name task_owners spelled-owner_name,
  one_of-shown N kind_filter_name task_kinds spelled-kind_filter_name,
)

-- Parsing the URL parameters that parsing gave changes nothing.
pub parse_task_search_idempotent :
    (N : Type 0) (search : Fields N)
    → parse_task_search (task_search_fields {N = N} (parse_task_search search))
      ≡ parse_task_search search
parse_task_search_idempotent N search =
    parse-fields N (parse_task_search search)
      (unfold parse_task_search in non_blank_idempotent (as_string (get "q" search)))
