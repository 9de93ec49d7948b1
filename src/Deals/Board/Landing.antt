-- ===== src/Deals/Board/Landing.antt =====
-- A drop on the deals board together with the optimistic move that it starts
-- (frontend/src/features/deals/hooks/useDealBoardController.ts and useDeals.ts).
use bubllio_crm.Prelude.{
  filter_comm, Option-cases, length_split, ℕ, String, true, false, not, Option, none, some, List,
  ◌++◌, ◌==◌, ◌≡◌, ◌≤◌, ◌+◌, arith, length, get_elem?, filter, min, inl, inr, length-filter, ◌∙◌,
  sym,
}
use bubllio_crm.Js.Array.{find_index, find_index-lt}
use bubllio_crm.Js.Sort.{sort_by, length-sort_by, count-sort_by}
use bubllio_crm.Js.Value.{Fields}
use bubllio_crm.Types.Deal.{Deal, DealStage}
use bubllio_crm.Deals.Drag.{text_of, deal_from_drag_data}
use bubllio_crm.Deals.Lane.{has_id, in_stage, lane_deals}
use bubllio_crm.Deals.Move.{MoveVars, without_id, optimistic, leaves_filter}
use bubllio_crm.Deals.Move.Positions.{HasDistinctIds, optimistic_positions, count-and-le}
use bubllio_crm.Deals.Move.Copies.{count-lane_deals}
use bubllio_crm.Deals.Search.{can_move}
use bubllio_crm.Deals.Board.{
  BoardProps, BoardState, DragEvent, target_index, drag_end, board_can_move,
}
use bubllio_crm.Deals.Board.Drop.{StartsMove, drag_end-StartsMove}

target_index-le :
    {N : Type 0} (lane : List Deal) (end : ℕ) (over : Option (Fields N))
    → length lane ≤ end + 1
    → target_index lane end over ≤ end
target_index-le lane end none h = omega arith
target_index-le lane end (some deal) h =
    elim (Option-cases (find_index (λ (d : Deal). d.id == text_of "id" deal) lane)) [
      | inl missing ↦ rw missing (omega arith)
      | inr (i, found) ↦ rw found (omega (arith, find_index-lt _ lane i found))
    ]

module _ (id : String) (rows : List Deal) (stage : DealStage) where
  length_without :
      length (without_id id (lane_deals rows stage))
      ≡ length (lane_deals (without_id id rows) stage)
  unfolding lane_deals
  length_without =
      length_without_sorted
      ∙ filter_comm (λ d. not (has_id id d)) (in_stage stage) rows
      ∙ sym (length-sort_by _ (filter (in_stage stage) (without_id id rows)))
    where
      length_without_sorted :
          length
            (without_id id (sort_by (λ (d : Deal). d.sort_order) (filter (in_stage stage) rows)))
          ≡ length (without_id id (filter (in_stage stage) rows))
      length_without_sorted = length-filter _ _ ∙ count-sort_by _ _ _ ∙ sym (length-filter _ _)

  length-lane_deals-le :
      HasDistinctIds rows
      → length (lane_deals rows stage) ≤ length (without_id id (lane_deals rows stage)) + 1
  length-lane_deals-le distinct = omega (
    arith,
    length_split (has_id id) (lane_deals rows stage),
    count-lane_deals (has_id id) rows stage,
    count-and-le (has_id id) (in_stage stage) rows,
    distinct id,
  )

-- A board that allows dragging has no stage filter, so a moved deal stays in the list.
not_leaves_filter :
    (p : BoardProps) (stage : DealStage)
    → board_can_move p ≡ true
    → leaves_filter p.route_search.stage stage ≡ false
unfolding can_move
not_leaves_filter p stage h = ground arith

position-le :
    {N : Type 0} (p : BoardProps) (event : DragEvent N) (vars : MoveVars)
    → HasDistinctIds p.rows
    → StartsMove p event vars
    → vars.position ≤ length (lane_deals (without_id vars.id p.rows) vars.stage)
position-le p event vars distinct m =
    let lane = lane_deals p.rows vars.stage in
    let id = text_of "id" m.deal in
    rw m.id (
      omega (
        arith,
        m.position,
        length_without id p.rows vars.stage,
        target_index-le lane (length (without_id id lane)) (deal_from_drag_data m.target)
            (length-lane_deals-le id p.rows vars.stage distinct),
      ))

-- When a drop starts a move and the ids in the list are distinct, the optimistic list ends in a
-- lane in which the dropped deal has the index that the drop asked for, and the target stage.
pub drop_lands :
    {N : Type 0} (p : BoardProps) (event : DragEvent N) (s : BoardState N) (vars : MoveVars)
    (new : List Deal)
    → HasDistinctIds p.rows
    → (drag_end p event s).1 ≡ some vars
    → optimistic p.route_search.stage vars p.rows ≡ some new
    → (lane : List Deal) × (d : Deal) × (new ≡ without_id vars.id p.rows ++ lane)
      × (get_elem? lane vars.position ≡ some d)
      × (d.id ≡ vars.id)
      × (d.stage ≡ vars.stage)
      × (d.sort_order ≡ vars.position)
drop_lands p event s vars new distinct e o =
    let m = drag_end-StartsMove p event s vars e in
    let stays = not_leaves_filter p vars.stage m.allowed in
    let (lane, result, numbered, (d, at, same, stage)) =
      optimistic_positions p.route_search.stage vars p.rows new distinct stays o in
    let fits : min vars.position (length (lane_deals (without_id vars.id p.rows) vars.stage))
        ≡ vars.position =
      omega (arith, position-le p event vars distinct m) in
    let here : get_elem? lane vars.position ≡ some d = rw fits at at in
    (lane, d, result, here, same, stage, numbered vars.position d here)
