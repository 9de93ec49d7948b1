-- ===== src/Deals/Search/Laws.antt =====
-- The URL parameters of the deals board through the URL, and the changes of the controller
-- (frontend/src/features/deals/dealBoardConfig.ts, and `useDealBoardController`).
use bubllio_crm.Prelude.{
  Bool, true, false, none, some, ◌≡◌, refl, arith, Bool-cases, inl, inr, not, ◌&&◌, sym,
  if◌then◌else◌,
}
use bubllio_crm.Js.Value.{Fields, as_string, get, spelled, name_injective}
use bubllio_crm.Js.Patch.{
  non_blank, option_or, get-present, get-flag, as_string-shown, one_of-shown, is_true-if,
  non_blank_idempotent,
}
use bubllio_crm.Types.Deal.{stage_name, deal_stages, spelled-stage_name}
use bubllio_crm.Deals.Search.{
  DealSearch, DealView, active, view_name, deal_views, parse_deal_search, deal_search_fields,
  clear_filters, select_view, has_filters, current_view, can_move, visible_stages, is_view,
}

spelled-view_name : (v : DealView) → spelled view_name deal_views (view_name v) ≡ some v
spelled-view_name DealView.active = refl
spelled-view_name DealView.all = refl
spelled-view_name DealView.mine = refl
spelled-view_name DealView.no_next_action = refl
spelled-view_name DealView.closing_this_month = refl
spelled-view_name DealView.archived = refl

parse-fields :
    (N : Type 0) (s : DealSearch)
    → non_blank s.q ≡ s.q
    → parse_deal_search (deal_search_fields {N = N} s) ≡ s
unfolding parse_deal_search deal_search_fields
parse-fields N s normal = simp (
  get-present,
  get-flag,
  as_string-shown N,
  is_true-if N,
  normal,
  one_of-shown N view_name deal_views spelled-view_name,
  one_of-shown N stage_name deal_stages spelled-stage_name,
)

-- Parsing the URL parameters that parsing gave changes nothing: what the board writes to the URL is
-- read back as it was.
pub parse_deal_search_idempotent :
    (N : Type 0) (search : Fields N)
    → parse_deal_search (deal_search_fields {N = N} (parse_deal_search search))
      ≡ parse_deal_search search
parse_deal_search_idempotent N search =
    parse-fields N (parse_deal_search search)
      (unfold parse_deal_search in non_blank_idempotent (as_string (get "q" search)))

-- Clearing the filters leaves no filter and all lanes, and keeps the opened deal and `create`.
pub clear_filters_lem :
    (s : DealSearch)
    → (has_filters (clear_filters s) ≡ false)
      × (visible_stages (clear_filters s) ≡ deal_stages)
      × ((clear_filters s).deal ≡ s.deal)
      × ((clear_filters s).create ≡ s.create)
unfolding clear_filters has_filters visible_stages
clear_filters_lem s = (refl, refl, refl, refl)

is_view→eq : (a b : DealView) → is_view a b ≡ true → a ≡ b
is_view→eq = name_injective view_name deal_views spelled-view_name

-- Selecting a view shows that view, the default one too, and changes no other parameter.
pub select_view_lem :
    (next : DealView) (s : DealSearch)
    → (current_view (select_view next s) ≡ next)
      × ((select_view next s).q ≡ s.q)
      × ((select_view next s).stage ≡ s.stage)
      × ((select_view next s).deal ≡ s.deal)
      × ((select_view next s).create ≡ s.create)
unfolding select_view
select_view_lem next s = (shows next, refl, refl, refl, refl)
  where
    shows : (v : DealView) → option_or (if is_view v active then none else some v) active ≡ v
    shows v = elim (Bool-cases (is_view v active)) [
      | inl same ↦ rw same (sym (is_view→eq v active same))
      | inr other ↦ rw other refl
    ]

-- Deals can be dragged exactly when the user may create records and no filter is set.
pub can_move-has_filters :
    (can_manage : Bool) (s : DealSearch)
    → can_move can_manage s ≡ (can_manage && not (has_filters s))
unfolding can_move has_filters
can_move-has_filters can_manage s = ground arith
