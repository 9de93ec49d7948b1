-- ===== src/GlobalSearch/State.antt =====
-- frontend/src/features/global-search/globalSearchState.ts
use bubllio_crm.Prelude.{ℕ, String, Bool, true, false}

pub record GlobalSearchState : Type 0 where
  pub is_open : Bool
  pub query : String
  pub active_index : ℕ
  pub search_all_workspaces : Bool

pub data GlobalSearchAction : Type 0 where
  open_search close : GlobalSearchAction
  query_changed : (query : String) → GlobalSearchAction
  scope_changed : (search_all_workspaces : Bool) → GlobalSearchAction
  active_index_changed : (active_index : ℕ) → GlobalSearchAction

abbrev pub initial_global_search_state : GlobalSearchState
initial_global_search_state = record {
  is_open = false;
  query = "";
  active_index = 0;
  search_all_workspaces = false;
}

unfoldable pub global_search_reducer : GlobalSearchState → GlobalSearchAction → GlobalSearchState
global_search_reducer s open_search = record s { is_open = true; search_all_workspaces = false }
global_search_reducer s close = initial_global_search_state
global_search_reducer s (query_changed q) = record s { query = q; active_index = 0 }
global_search_reducer s (scope_changed everywhere) = record s {
  search_all_workspaces = everywhere;
  active_index = 0;
}
global_search_reducer s (active_index_changed i) = record s { active_index = i }
