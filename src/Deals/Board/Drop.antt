-- ===== src/Deals/Board/Drop.antt =====
-- When a drop on the deals board starts a move
-- (frontend/src/features/deals/hooks/useDealBoardController.ts, `dragEnd`).
use bubllio_crm.Prelude.{
  Bool, true, false, not, ◌&&◌, Option, none, some, ◌≡◌, refl, arith, Bool-cases, inl, inr, length,
  if◌then◌else◌, ◌⊎◌,
}
use bubllio_crm.Js.Patch.{option_or}
use bubllio_crm.Js.Text.{truthy}
use bubllio_crm.Js.Value.{Value, undefined, Fields}
use bubllio_crm.Types.Deal.{DealStage, lost, is_stage}
use bubllio_crm.Deals.Drag.{deal_from_drag_data, deal_stage_from_drag_data, text_of}
use bubllio_crm.Deals.Lane.{lane_deals}
use bubllio_crm.Deals.Move.{MoveVars, without_id}
use bubllio_crm.Deals.Board.{
  BoardProps, BoardState, DragEvent, board_can_move, target_index, is_same_deal, drop_on,
  drop_known, drag_end,
}

-- Without the right to move cards a drop only ends the drag.
pub drag_end-not_can_move :
    {N : Type 0} (p : BoardProps) (event : DragEvent N) (s : BoardState N)
    → board_can_move p ≡ false
    → drag_end p event s ≡ (record s { active_deal = none }, none)
unfolding drag_end
drag_end-not_can_move p event s h = rw h

-- What holds when a drop calls `move.mutate`.
pub record StartsMove {N : Type 0} (p : BoardProps) (event : DragEvent N) (vars : MoveVars)
    : Type 0 where
  pub allowed : board_can_move p ≡ true
  pub deal : Fields N
  pub dragged : deal_from_drag_data event.active ≡ some deal
  pub target : Value N
  pub over : event.over ≡ some target
  pub on_stage : deal_stage_from_drag_data target ≡ some vars.stage
  pub id : vars.id ≡ text_of "id" deal
  pub other : is_same_deal deal (deal_from_drag_data target) ≡ false
  pub reason : (is_stage vars.stage lost ≡ false) ⊎ (truthy (text_of "lost_reason" deal) ≡ true)
  pub position :
      vars.position
      ≡ target_index
          (lane_deals p.rows vars.stage)
          (length (without_id (text_of "id" deal) (lane_deals p.rows vars.stage)))
          (deal_from_drag_data target)

-- The two guards in front of `move.mutate`.
move_of :
    {S : Type 0} (same is_lost reason : Bool) (s s' : S) (m : MoveVars) {vars : MoveVars}
    → (if same
        then (s, none)
        else (let o : S × Option MoveVars =
              (if is_lost && not reason then (s', none) else (s, some m)) in
            o)).1
      ≡ some vars
    → (same ≡ false) × ((is_lost ≡ false) ⊎ (reason ≡ true)) × (vars ≡ m)
move_of same is_lost reason s s' m e = (ground arith, ground arith, ground arith)

module _ {N : Type 0} (p : BoardProps) (event : DragEvent N) (s : BoardState N)
    (vars : MoveVars) where
  drop_on-move :
      (deal : Fields N) (stage : DealStage) (over_deal : Option (Fields N)) (idle : BoardState N)
      → (drop_on p deal stage over_deal idle).1 ≡ some vars
      → (is_same_deal deal over_deal ≡ false)
        × ((is_stage stage lost ≡ false) ⊎ (truthy (text_of "lost_reason" deal) ≡ true))
        × (vars ≡ record {
          id = text_of "id" deal;
          stage = stage;
          position =
              target_index
                (lane_deals p.rows stage)
                (length (without_id (text_of "id" deal) (lane_deals p.rows stage)))
                over_deal;
        })
  unfolding drop_on
  drop_on-move deal stage over_deal idle e =
      move_of (is_same_deal deal over_deal) (is_stage stage lost)
        (truthy (text_of "lost_reason" deal)) _ _ _ e

  drop_known-move :
      (deal : Option (Fields N)) (stage : Option DealStage) (idle : BoardState N)
      → board_can_move p ≡ true
      → deal_from_drag_data event.active ≡ deal
      → deal_stage_from_drag_data (option_or event.over undefined) ≡ stage
      → (over : Option (Value N)) → event.over ≡ over
      → (drop_known p deal stage over idle).1 ≡ some vars
      → StartsMove p event vars
  drop_known-move none stage idle ok d st over o e = absurd (cc e)
  drop_known-move (some deal) none idle ok d st over o e = absurd (cc e)
  drop_known-move (some deal) (some stage) idle ok d st none o e = absurd (cc e)
  drop_known-move (some deal) (some stage) idle ok d st (some target) o e =
      let (other, reason, same) = drop_on-move deal stage (deal_from_drag_data target) idle e in
      record {
        allowed = ok;
        deal = deal;
        dragged = d;
        target = target;
        over = o;
        on_stage = rw same (rw o at st);
        id = rw same refl;
        other = other;
        reason = rw same reason;
        position = rw same refl;
      }

  -- A drop calls `move.mutate` only for an accepted card over an accepted target that is not the
  -- card itself, into a stage that is not `lost` unless a reason is known; it asks for the index of
  -- the card under it, or for the end of the lane.
  pub drag_end-StartsMove : (drag_end p event s).1 ≡ some vars → StartsMove p event vars
  unfolding drag_end
  drag_end-StartsMove e = elim (Bool-cases (board_can_move p)) [
    | inl ok ↦
        drop_known-move (deal_from_drag_data event.active)
          (deal_stage_from_drag_data (option_or event.over undefined))
          (record s { active_deal = none }) ok refl refl event.over refl (rw ok at e)
    | inr not ↦ absurd (cc (rw not at e))
  ]
