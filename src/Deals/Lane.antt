-- ===== src/Deals/Lane.antt =====
-- A lane of the board: the deals of one stage by `sort_order`
-- (frontend/src/features/deals/hooks/useDealBoardController.ts, `laneDeals`).
use bubllio_crm.Prelude.{String, Bool, List, filter, ◌==◌}
use bubllio_crm.Js.Sort.{sort_by}
use bubllio_crm.Types.Deal.{Deal, DealStage, is_stage}

abbrev pub has_id : String → Deal → Bool
has_id id deal = deal.id == id

abbrev pub in_stage : DealStage → Deal → Bool
in_stage stage deal = is_stage deal.stage stage

-- rows.filter(stage).toSorted(sort_order)
unfoldable pub lane_deals : List Deal → DealStage → List Deal
lane_deals rows stage = sort_by (λ (d : Deal). d.sort_order) (filter (in_stage stage) rows)
