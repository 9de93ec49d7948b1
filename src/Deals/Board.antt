-- ===== src/Deals/Board.antt =====
-- The handlers of the deals board: dragging a card, archiving, and the row queries of its views
-- (frontend/src/features/deals/hooks/useDealBoardController.ts).
pub mod Drop
pub mod Landing
use bubllio_crm.Prelude.{
  ℕ, String, Bool, true, false, not, ◌&&◌, Option, none, some, List, [], ◌∷◌, ◌==◌, if◌then◌else◌,
  filter, length,
}
use bubllio_crm.Js.Array.{find_index}
use bubllio_crm.Js.Patch.{option_or}
use bubllio_crm.Js.Text.{truthy}
use bubllio_crm.Js.Value.{Value, undefined, Fields}
use bubllio_crm.Types.Deal.{Deal, DealStage, lost, is_stage}
use bubllio_crm.Deals.Drag.{deal_from_drag_data, deal_stage_from_drag_data, text_of}
use bubllio_crm.Deals.Lane.{has_id, lane_deals}
use bubllio_crm.Deals.Move.{MoveVars, without_id}
use bubllio_crm.Deals.Search.{DealSearch, can_move}

-- What the handlers read: the rows of the query, the role of the user and the URL parameters.
pub record BoardProps : Type 0 where
  pub rows : List Deal
  pub can_manage : Bool
  pub route_search : DealSearch

module _ (N : Type 0) where
  pub record DrawerState : Type 0 where
    pub deal : Option (Fields N)
    pub initial_stage : Option DealStage

  -- The state of the controller that the drag handlers change.
  pub record BoardState : Type 0 where
    pub drawer : Option DrawerState
    pub active_deal : Option (Fields N)

  -- `active.data.current`, and `over`, whose data may be missing.
  pub record DragEvent : Type 0 where
    pub active : Value N
    pub over : Option (Value N)

abbrev pub board_can_move : BoardProps → Bool
board_can_move p = can_move p.can_manage p.route_search

-- The index of the deal under the pointer in the target lane, or the end of the lane.
abbrev pub target_index : {N : Type 0} → List Deal → ℕ → Option (Fields N) → ℕ
target_index target_lane end none = end
target_index target_lane end (some over_deal) =
    option_or (find_index (λ (d : Deal). d.id == text_of "id" over_deal) target_lane) end

abbrev pub is_same_deal : {N : Type 0} → Fields N → Option (Fields N) → Bool
is_same_deal deal none = false
is_same_deal deal (some over_deal) = text_of "id" over_deal == text_of "id" deal

module _ {N : Type 0} where
  unfoldable pub drag_start : BoardProps → DragEvent N → BoardState N → BoardState N
  drag_start p event s =
      if board_can_move p then record s { active_deal = deal_from_drag_data event.active } else s

  -- The rest of `dragEnd` once the dragged deal, the target stage and the target are known.
  unfoldable pub drop_on :
      BoardProps
      → Fields N
      → DealStage
      → Option (Fields N)
      → BoardState N
      → BoardState N × Option MoveVars
  drop_on p deal target_stage over_deal s =
      let target_lane = lane_deals p.rows target_stage in
      let destination = without_id (text_of "id" deal) target_lane in
      let position = target_index target_lane (length destination) over_deal in
      if is_same_deal deal over_deal
      then (s, none)
      else (if is_stage target_stage lost && not (truthy (text_of "lost_reason" deal))
          then (
            record s { drawer = some (record { deal = some deal; initial_stage = some lost }) },
            none,
          )
          else (
            s,
            some (record { id = text_of "id" deal; stage = target_stage; position = position }),
          ))

  -- !deal || !targetStage || !event.over
  abbrev drop_known :
      BoardProps
      → Option (Fields N)
      → Option DealStage
      → Option (Value N)
      → BoardState N
      → BoardState N × Option MoveVars
  drop_known p none stage over s = (s, none)
  drop_known p (some deal) none over s = (s, none)
  drop_known p (some deal) (some stage) none s = (s, none)
  drop_known p (some deal) (some stage) (some target) s =
      drop_on p deal stage (deal_from_drag_data target) s

  -- The new state, and the variables of `move.mutate` if it is called.
  unfoldable pub drag_end : BoardProps → DragEvent N → BoardState N → BoardState N × Option MoveVars
  unfolding drop_on
  drag_end p event s =
      let idle = record s { active_deal = none } in
      if board_can_move p
      then drop_known p (deal_from_drag_data event.active)
          (deal_stage_from_drag_data (option_or event.over undefined)) event.over idle
      else (idle, none)
