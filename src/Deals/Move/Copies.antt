-- ===== src/Deals/Move/Copies.antt =====
-- How often each deal stands in the list of an optimistic move
-- (frontend/src/features/deals/hooks/useDeals.ts).
use bubllio_crm.Prelude.{
  ℕ, String, Bool, true, false, some, List, ◌∷◌, [], ◌+◌, map, ◌≡◌, ◌≢◌, refl, arith, count,
  count-append, count-filter, if◌then◌else◌, eq_iff, ◌&&◌, ap, ◌∙◌, Option, Option-cases, inl, inr,
}
use bubllio_crm.Js.Array.{count-insert_at, find, find_sound}
use bubllio_crm.Js.Sort.{count-sort_by}
use bubllio_crm.Types.Deal.{Deal, DealStage}
use bubllio_crm.Deals.Lane.{has_id, in_stage, lane_deals}
use bubllio_crm.Deals.Move.{
  without_id, positions, renumber, destination, leaves_filter, move_rows, MoveVars, optimistic,
}

pub count-lane_deals :
    (p : Deal → Bool) (rows : List Deal) (stage : DealStage)
    → count p (lane_deals rows stage) ≡ count (λ d. p d && in_stage stage d) rows
unfolding lane_deals
count-lane_deals p rows stage = count-sort_by _ p _ ∙ count-filter p (in_stage stage) rows

count_same_id :
    (table : List (String × ℕ)) (j : String) (rows : List Deal)
    → count (has_id j) (map (renumber table) rows) ≡ count (has_id j) rows
unfolding renumber
count_same_id table j [] = refl
count_same_id table j (d ∷ rows) = ground (arith, count_same_id table j rows)

pub count-destination :
    (j : String) (others : List Deal) (moving : Deal) (stage : DealStage) (position : ℕ)
    → count (has_id j) (destination others moving stage position)
      ≡ (if has_id j moving then 1 else 0) + count (λ d. has_id j d && in_stage stage d) others
unfolding destination
count-destination j others moving stage position =
    count-insert_at (has_id j) _ _ (lane_deals others stage)
    ∙ ap (λ (n : ℕ). (if has_id j moving then 1 else 0) + n)
        (count-lane_deals (has_id j) others stage)

count-move_rows :
    (j : String) (filtered : Option DealStage) (stage : DealStage) (position : ℕ)
    (others : List Deal) (moving : Deal)
    → leaves_filter filtered stage ≡ false
    → count (has_id j) (move_rows filtered stage position others moving)
      ≡ count (has_id j) others
        + ((if has_id j moving then 1 else 0) + count (λ d. has_id j d && in_stage stage d) others)
unfolding move_rows
count-move_rows j filtered stage position others moving stays =
    let lane = destination others moving stage position in
    rw stays (
      count-append (has_id j) others (map (renumber (positions lane)) lane)
      ∙ ap (λ (n : ℕ). count (has_id j) others + n)
          (count_same_id (positions lane) j lane
            ∙ count-destination j others moving stage position))

pub count-without_id_self :
    (id : String) (rows : List Deal) → count (has_id id) (without_id id rows) ≡ 0
count-without_id_self id [] = refl
count-without_id_self id (d ∷ rows) = ground (arith, count-without_id_self id rows)

pub count-without_id_self_stage :
    (id : String) (stage : DealStage) (rows : List Deal)
    → count (λ d. has_id id d && in_stage stage d) (without_id id rows) ≡ 0
count-without_id_self_stage id stage [] = refl
count-without_id_self_stage id stage (d ∷ rows) =
    ground (arith, count-without_id_self_stage id stage rows)

module _ (id j : String) (other : j ≢ id) where
  pub count-without_id :
      (rows : List Deal) → count (has_id j) (without_id id rows) ≡ count (has_id j) rows
  count-without_id [] = refl
  count-without_id (d ∷ rows) = ground (arith, count-without_id rows, eq_iff d.id id, eq_iff d.id j)

  pub count-without_id_stage :
      (stage : DealStage) (rows : List Deal)
      → count (λ d. has_id j d && in_stage stage d) (without_id id rows)
        ≡ count (λ d. has_id j d && in_stage stage d) rows
  count-without_id_stage stage [] = refl
  count-without_id_stage stage (d ∷ rows) =
      ground (arith, count-without_id_stage stage rows, eq_iff d.id id, eq_iff d.id j)

pub has_id_other : (id j : String) (d : Deal) → has_id id d ≡ true → j ≢ id → has_id j d ≡ false
has_id_other id j d same other = ground (arith, eq_iff d.id id, eq_iff d.id j)

pub optimistic_inv :
    (filtered : Option DealStage) (vars : MoveVars) (rows new : List Deal)
    → optimistic filtered vars rows ≡ some new
    → (moving : Deal) × (has_id vars.id moving ≡ true)
      × (new ≡ move_rows filtered vars.stage vars.position (without_id vars.id rows) moving)
unfolding optimistic
optimistic_inv filtered vars rows new e = elim (Option-cases (find (has_id vars.id) rows)) [
  | inl missing ↦ absurd (cc (rw (missing, optimistic) at e))
  | inr (moving, found) ↦
      (moving, find_sound (has_id vars.id) moving rows found, cc (rw (found, optimistic) at e))
]

-- After an optimistic move that stays inside the list's stage filter, the list holds the moved deal
-- once, and every other deal as often as before plus once more for each time it already stood in
-- the target stage: the other deals of the target lane are held twice.
pub optimistic_copies :
    (filtered : Option DealStage) (vars : MoveVars) (rows new : List Deal)
    → leaves_filter filtered vars.stage ≡ false
    → optimistic filtered vars rows ≡ some new
    → (count (has_id vars.id) new ≡ 1)
      × ((j : String)
          → j ≢ vars.id
          → count (has_id j) new
            ≡ count (has_id j) rows + count (λ d. has_id j d && in_stage vars.stage d) rows)
optimistic_copies filtered vars rows new stays e =
    let (moving, same, result) = optimistic_inv filtered vars rows new e in
    let others = without_id vars.id rows in
    rw result (
      count-move_rows vars.id filtered vars.stage vars.position others moving stays
          ∙ rw (
            count-without_id_self vars.id rows,
            same,
            count-without_id_self_stage vars.id vars.stage rows,
          ),
      λ j other.
          count-move_rows j filtered vars.stage vars.position others moving stays
          ∙ rw
              (
                count-without_id vars.id j other rows,
                has_id_other vars.id j moving same other,
                count-without_id_stage vars.id j other vars.stage rows,
              )
              (omega arith),
    )
