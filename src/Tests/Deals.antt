-- ===== src/Tests/Deals.antt =====
-- The theorems on deals at a board of three deals.
use bubllio_crm.Prelude.{
  if◌then◌else◌, ◌==◌, not, ◌+◌, ◌&&◌, ◌≢◌, ℕ, String, true, false, none, some, List, [], ◌++◌, ◌≡◌,
  ◌≤◌, refl, arith, count, get_elem?, eq_iff, filter,
}
use bubllio_crm.Js.Value.{Fields, field, str, end, get}
use bubllio_crm.Js.Patch.{option_or}
use bubllio_crm.Js.Map
use bubllio_crm.Js.Map.{entries_of}
use bubllio_crm.Js.Sort.{sort_by}
use bubllio_crm.Js.Array.{find}
use bubllio_crm.Types.Deal.{Deal, qualified, lead}
use bubllio_crm.Tests.Data.{deals, deal_a, deal_c, board, no_search, one_list, unary, tasks}
use bubllio_crm.Deals.Lane.{lane_deals, has_id, in_stage}
use bubllio_crm.Deals.Move.{MoveVars, optimistic, without_id, on_mutate, on_error}
use bubllio_crm.Deals.Move.Positions.{HasDistinctIds, optimistic_positions}
use bubllio_crm.Deals.Move.Copies.{optimistic_copies}
use bubllio_crm.Deals.Move.Rollback.{read-on_error-on_mutate}
use bubllio_crm.Deals.Board.{DragEvent, BoardState, drag_end, drop_on, BoardProps}
use bubllio_crm.Deals.Board.Drop.{drag_end-StartsMove, StartsMove, drag_end-not_can_move}
use bubllio_crm.Deals.Board.Landing.{drop_lands}
use bubllio_crm.Deals.Drag.{
  card_data, lane_data, deal_fields, deal_from_drag_data, deal_stage_from_drag_data,
}
use bubllio_crm.Deals.Drag.Laws.{
  from_drag_data-card_data, from_drag_data-lane_data, deal_from_drag_data_sound,
}
use bubllio_crm.Deals.Forecast.{next_action_by_deal, open_totals, is_open}
use bubllio_crm.Deals.Forecast.NextAction.{lookup-next_action_by_deal, for_deal}
use bubllio_crm.Deals.Forecast.ByCurrency.{
  lookup-open_totals, entries_of-open_totals, in_currency, sum_of,
}
use bubllio_crm.Deals.Search.{
  parse_deal_search, deal_search_fields, clear_filters, has_filters, can_move,
}
use bubllio_crm.Deals.Search.Laws.{
  parse_deal_search_idempotent, clear_filters_lem, can_move-has_filters,
}

abbrev move_a : MoveVars
move_a = record { id = "a"; stage = qualified; position = 1 }

abbrev moved : List Deal
moved = option_or (optimistic none move_a deals) []

moved_lem : optimistic none move_a deals ≡ some moved
unfolding optimistic
moved_lem = refl

at_most_one :
    (a b c j : String)
    → (a == b) ≡ false
    → (a == c) ≡ false
    → (b == c) ≡ false
    → (if a == j then 1 else 0) + ((if b == j then 1 else 0) + ((if c == j then 1 else 0) + 0)) ≤ 1
at_most_one a b c j ab ac bc =
    ground (arith, eq_iff a j, eq_iff b j, eq_iff c j, eq_iff a b, eq_iff a c, eq_iff b c)

deals-HasDistinctIds : HasDistinctIds deals
deals-HasDistinctIds j = at_most_one "a" "b" "c" j refl refl refl

optimistic_positions_example :
    (lane : List Deal) × (moved ≡ without_id "a" deals ++ lane)
    × ((i : ℕ) (d : Deal) → get_elem? lane i ≡ some d → d.sort_order ≡ i)
    × ((d : Deal) × (get_elem? lane 1 ≡ some d) × (d.id ≡ "a") × (d.stage ≡ qualified))
unfolding lane_deals sort_by
optimistic_positions_example =
    optimistic_positions none move_a deals moved deals-HasDistinctIds refl moved_lem

optimistic_copies_example :
    (count (has_id "a") moved ≡ 1)
    × ((j : String)
        → j ≢ "a"
        → count (has_id j) moved
          ≡ count (has_id j) deals + count (λ d. has_id j d && in_stage qualified d) deals)
optimistic_copies_example = optimistic_copies none move_a deals moved refl moved_lem

read-on_error-on_mutate_example :
    on_error one_list
      (on_mutate one_list none move_a (some deals)).1
      (on_mutate one_list none move_a (some deals)).0
    ≡ some deals
read-on_error-on_mutate_example = read-on_error-on_mutate one_list none move_a (some deals)

-- The card of deal a over the card of deal c.
abbrev drop_on_c : DragEvent ℕ
drop_on_c = record { active = card_data (λ n. n) deal_a; over = some (card_data (λ n. n) deal_c) }

abbrev idle : BoardState ℕ
idle = record { drawer = none; active_deal = none }

drop_lem : (drag_end board drop_on_c idle).1 ≡ some move_a
unfolding drag_end drop_on card_data deal_fields deal_from_drag_data deal_stage_from_drag_data
    can_move lane_deals sort_by
drop_lem = refl

drag_end-StartsMove_example : StartsMove board drop_on_c move_a
drag_end-StartsMove_example = drag_end-StartsMove board drop_on_c idle move_a drop_lem

drop_lands_example :
    (lane : List Deal) × (d : Deal) × (moved ≡ without_id "a" deals ++ lane)
    × (get_elem? lane 1 ≡ some d)
    × (d.id ≡ "a")
    × (d.stage ≡ qualified)
    × (d.sort_order ≡ 1)
drop_lands_example =
    drop_lands board drop_on_c idle move_a moved deals-HasDistinctIds drop_lem moved_lem

abbrev read_only : BoardProps
read_only = record board { can_manage = false }

drag_end-not_can_move_example :
    drag_end read_only drop_on_c idle ≡ (record idle { active_deal = none }, none)
unfolding can_move
drag_end-not_can_move_example = drag_end-not_can_move read_only drop_on_c idle refl

from_drag_data-card_data_example :
    deal_from_drag_data (card_data (λ n. n) deal_a) ≡ some (deal_fields (λ n. n) deal_a)
from_drag_data-card_data_example = (from_drag_data-card_data (λ n. n) deal_a).0

from_drag_data-lane_data_example :
    (deal_stage_from_drag_data (lane_data {N = ℕ} qualified) ≡ some qualified)
    × (deal_from_drag_data (lane_data {N = ℕ} qualified) ≡ none)
from_drag_data-lane_data_example = from_drag_data-lane_data qualified

deal_from_drag_data_sound_example : (s : String) × (get "id" (deal_fields (λ n. n) deal_a) ≡ str s)
deal_from_drag_data_sound_example =
    (deal_from_drag_data_sound (card_data (λ n. n) deal_a) (deal_fields (λ n. n) deal_a)
      (from_drag_data-card_data (λ n. n) deal_a).0).0

lookup-next_action_by_deal_example :
    Map.lookup "a" (next_action_by_deal tasks) ≡ find (for_deal "a") tasks
lookup-next_action_by_deal_example = lookup-next_action_by_deal "a" tasks refl

lookup-open_totals_example :
    Map.lookup "EUR" (open_totals unary deals)
    ≡ sum_of unary "EUR" none (filter (in_currency "EUR") (filter is_open deals))
lookup-open_totals_example = lookup-open_totals unary "EUR" deals

-- ?deal=a&view=mine&stage=nowhere
abbrev url : Fields ℕ
url = field "deal" (str "a") (field "view" (str "mine") (field "stage" (str "nowhere") end))

entries_of-open_totals_example : entries_of "EUR" (open_totals unary deals) ≤ 1
entries_of-open_totals_example = entries_of-open_totals unary "EUR" deals

parse_deal_search_idempotent_example :
    parse_deal_search (deal_search_fields {N = ℕ} (parse_deal_search url)) ≡ parse_deal_search url
parse_deal_search_idempotent_example = parse_deal_search_idempotent ℕ url

clear_filters_lem_example :
    has_filters (clear_filters (record no_search { q = some "x"; stage = some lead })) ≡ false
clear_filters_lem_example =
    (clear_filters_lem (record no_search { q = some "x"; stage = some lead })).0

can_move-has_filters_example : can_move true no_search ≡ (true && not (has_filters no_search))
can_move-has_filters_example = can_move-has_filters true no_search
