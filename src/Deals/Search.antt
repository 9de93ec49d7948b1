-- ===== src/Deals/Search.antt =====
-- The URL parameters of the deals board and the filters that they select
-- (frontend/src/features/deals/dealBoardConfig.ts, and `useDealBoardController`).
pub mod Laws
use bubllio_crm.Prelude.{
  String, Bool, true, false, not, ◌&&◌, ◌||◌, Option, none, some, List, [], ◌∷◌, ◌==◌,
  if◌then◌else◌,
}
use bubllio_crm.Js.Value.{Value, str, bool, Fields, end, field, get, as_string, is_true, one_of}
use bubllio_crm.Js.Text.{trim, truthy}
use bubllio_crm.Js.Patch.{Change, keep, assign, changed, present, non_blank, flag, option_or}
use bubllio_crm.Types.Deal.{DealStage, stage_name, deal_stages}

pub data DealView : Type 0 where
  active all mine no_next_action closing_this_month archived : DealView

abbrev pub view_name : DealView → String
view_name active = "active"
view_name all = "all"
view_name mine = "mine"
view_name no_next_action = "no_next_action"
view_name closing_this_month = "closing_this_month"
view_name archived = "archived"

-- DEAL_VIEWS
abbrev pub deal_views : List DealView
deal_views = active ∷ all ∷ mine ∷ no_next_action ∷ closing_this_month ∷ archived ∷ []

abbrev pub is_view : DealView → DealView → Bool
is_view a b = view_name a == view_name b

-- DealSearchPatch as the parsed URL parameters; `create` is present or not.
pub record DealSearch : Type 0 where
  pub deal : Option String
  pub create : Bool
  pub q : Option String
  pub view : Option DealView
  pub stage : Option DealStage

module _ {N : Type 0} where
  unfoldable pub parse_deal_search : Fields N → DealSearch
  parse_deal_search search = record {
    deal = as_string (get "deal" search);
    create = is_true (get "create" search);
    q = non_blank (as_string (get "q" search));
    view = one_of view_name deal_views (get "view" search);
    stage = one_of stage_name deal_stages (get "stage" search);
  }

  -- The object that the parser returns, as the router sees it again.
  unfoldable pub deal_search_fields : DealSearch → Fields N
  deal_search_fields s =
      present "deal" (λ t. str t) s.deal
        (flag "create" s.create (
          present "q" (λ t. str t) s.q
            (present "view" (λ v. str (view_name v)) s.view
              (present "stage" (λ v. str (stage_name v)) s.stage end))))

-- A patch of `updateSearch`: a key that it does not name is kept.
pub record DealSearchPatch : Type 0 where
  pub deal : Change String
  pub create : Change Bool
  pub q : Change String
  pub view : Change DealView
  pub stage : Change DealStage

-- { ...routeSearch, ...patch }
unfoldable pub update_search : DealSearchPatch → DealSearch → DealSearch
update_search patch s = record {
  deal = changed patch.deal s.deal;
  create = option_or (changed patch.create (some s.create)) false;
  q = changed patch.q s.q;
  view = changed patch.view s.view;
  stage = changed patch.stage s.stage;
}

abbrev keep_all : DealSearchPatch
keep_all = record { deal = keep; create = keep; q = keep; view = keep; stage = keep }

unfoldable pub clear_filters : DealSearch → DealSearch
unfolding update_search
clear_filters s =
    update_search (record keep_all { q = assign none; view = assign none; stage = assign none }) s

-- nextView === 'active' ? undefined : nextView
unfoldable pub select_view : DealView → DealSearch → DealSearch
unfolding update_search
select_view next s =
    update_search
      (record keep_all { view = assign (if is_view next active then none else some next) }) s

-- routeSearch.view ?? 'active'
abbrev pub current_view : DealSearch → DealView
current_view s = option_or s.view active

abbrev pub current_search : DealSearch → String
current_search s = option_or s.q ""

abbrev has_stage : Option DealStage → Bool
has_stage none = false
has_stage (some stage) = true

unfoldable pub has_filters : DealSearch → Bool
has_filters s =
    truthy (current_search s) || has_stage s.stage || not (is_view (current_view s) active)

-- canManage && view === 'active' && !search && !stage
unfoldable pub can_move : Bool → DealSearch → Bool
can_move can_manage s =
    can_manage
    && is_view (current_view s) active
    && not (truthy (current_search s))
    && not (has_stage s.stage)

-- stage ? [stage] : DEAL_STAGES
unfoldable pub visible_stages : DealSearch → List DealStage
visible_stages s = elim s.stage [ none ↦ deal_stages | some stage ↦ stage ∷ [] ]
