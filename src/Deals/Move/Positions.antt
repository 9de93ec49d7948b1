-- ===== src/Deals/Move/Positions.antt =====
-- Where the deals of the target lane stand after an optimistic move
-- (frontend/src/features/deals/hooks/useDeals.ts).
use bubllio_crm.Prelude.{
  ℕ, zero, suc, String, List, [], ◌∷◌, ◌+◌, ◌≡◌, ◌≢◌, refl, arith, All, Option, some, map,
  get_elem?, eq_iff, eq_refl, length, ap, ◌∙◌, ◌==◌, count, ◌≤◌, Bool, true, false, Bool-cases, inl,
  inr, ◌&&◌, min, ◌++◌,
}
use bubllio_crm.Js.Array.{map_index, get_elem?-insert_at}
use bubllio_crm.Js.Map
use bubllio_crm.Js.Map.{lookup-set}
use bubllio_crm.Types.Deal.{Deal, DealStage}
use bubllio_crm.Deals.Move.{
  positions, renumber, destination, without_id, move_rows, leaves_filter, optimistic, MoveVars,
}
use bubllio_crm.Deals.Move.Copies.{
  count-destination, count-without_id_self_stage, has_id_other, count-without_id_stage,
  optimistic_inv,
}
use bubllio_crm.Deals.Lane.{has_id, in_stage, lane_deals}

-- No two deals of the list have one id.
abbrev pub HasDistinctIds : List Deal → Type 0
HasDistinctIds rows = (j : String) → count (has_id j) rows ≤ 1

absent_of_count :
    (id : String) (ds : List Deal) → count (has_id id) ds ≡ 0 → All (λ e. id ≢ e.id) ds
absent_of_count id [] h = tt
absent_of_count id (e ∷ ds) h =
    (ground (arith, eq_iff e.id id), absent_of_count id ds (ground arith))

distinct_head : (d : Deal) (ds : List Deal) → HasDistinctIds (d ∷ ds) → All (λ e. d.id ≢ e.id) ds
distinct_head d ds h = absent_of_count d.id ds (ground (arith, h d.id, eq_refl d.id))

distinct_tail : (d : Deal) (ds : List Deal) → HasDistinctIds (d ∷ ds) → HasDistinctIds ds
distinct_tail d ds h j = ground (arith, h j)

abbrev entry : ℕ → Deal → String × ℕ
entry i d = (d.id, i)

lookup-from_entries_absent :
    (k : String) (i : ℕ) (ds : List Deal) (m : List (String × ℕ))
    → All (λ e. k ≢ e.id) ds
    → Map.lookup k (Map.from_entries m (map_index entry i ds)) ≡ Map.lookup k m
unfolding Map.from_entries
lookup-from_entries_absent k i [] m h = refl
lookup-from_entries_absent k i (d ∷ ds) m (differs, h) =
    lookup-from_entries_absent k (suc i) ds (Map.set d.id i m) h
    ∙ ground (arith, lookup-set d.id k i m, eq_iff d.id k)

lookup-from_entries :
    (first at : ℕ) (ds : List Deal) (d : Deal) (m : List (String × ℕ))
    → HasDistinctIds ds
    → get_elem? ds at ≡ some d
    → Map.lookup d.id (Map.from_entries m (map_index entry first ds)) ≡ some (first + at)
unfolding Map.from_entries
lookup-from_entries first at [] d m h e = cc
lookup-from_entries first zero (x ∷ ds) d m h e =
    let same : x ≡ d = cc e in
    rw (← same) (
      lookup-from_entries_absent x.id (suc first) ds (Map.set x.id first m) (distinct_head x ds h)
      ∙ ground (arith, lookup-set x.id x.id first m, eq_refl x.id))
lookup-from_entries first (suc at) (x ∷ ds) d m h e =
    lookup-from_entries (suc first) at ds d (Map.set x.id first m) (distinct_tail x ds h) e
    ∙ ap some (omega arith)

get_elem?-map-some {ℓ κ} :
    {A : Type ℓ} {B : Type κ} (f : A → B) (xs : List A) (i : ℕ) {b : B}
    → get_elem? (map f xs) i ≡ some b
    → (a : A) × (get_elem? xs i ≡ some a) × (f a ≡ b)
get_elem?-map-some f [] i e = absurd (cc e)
get_elem?-map-some f (x ∷ xs) zero e = (x, refl, cc e)
get_elem?-map-some f (x ∷ xs) (suc i) e = get_elem?-map-some f xs i e

pub count-and-le : (p q : Deal → Bool) (xs : List Deal) → count (λ d. p d && q d) xs ≤ count p xs
count-and-le p q [] = omega arith
count-and-le p q (x ∷ xs) = ground (arith, count-and-le p q xs)

destination-HasDistinctIds :
    (id : String) (rows : List Deal) (moving : Deal) (stage : DealStage) (position : ℕ)
    → HasDistinctIds rows
    → has_id id moving ≡ true
    → HasDistinctIds (destination (without_id id rows) moving stage position)
destination-HasDistinctIds id rows moving stage position h same j =
    rw (count-destination j (without_id id rows) moving stage position)
      (elim (Bool-cases (j == id)) [
        | inl is ↦
            let e = (eq_iff j id).0 is in
            rw (e, same, count-without_id_self_stage id stage rows) (omega arith)
        | inr not ↦
            let other : j ≢ id = λ e. cc (not, (eq_iff j id).1 e) in
            rw (has_id_other id j moving same other, count-without_id_stage id j other stage rows)
              (omega (arith, count-and-le (has_id j) (in_stage stage) rows, h j))
      ])

-- In the renumbered lane each deal's `sort_order` is its index.
numbered :
    (lane : List Deal)
    → HasDistinctIds lane
    → (i : ℕ) (d : Deal) → get_elem? (map (renumber (positions lane)) lane) i ≡ some d
    → d.sort_order ≡ i
unfolding positions renumber
numbered lane h i d e =
    let (a, at, same) = get_elem?-map-some (renumber (positions lane)) lane i e in
    let found = lookup-from_entries 0 i lane a Map.empty h at in
    rw (← same) (rw found (omega arith))

get_elem?-map {ℓ κ} :
    {A : Type ℓ} {B : Type κ} (f : A → B) (xs : List A) (i : ℕ) {a : A}
    → get_elem? xs i ≡ some a
    → get_elem? (map f xs) i ≡ some (f a)
get_elem?-map f [] i e = cc e
get_elem?-map f (x ∷ xs) zero e = cc e
get_elem?-map f (x ∷ xs) (suc i) e = get_elem?-map f xs i e

-- The moved deal stands at the requested index, or at the end of a shorter lane.
placed :
    (others : List Deal) (moving : Deal) (stage : DealStage) (position : ℕ)
    → get_elem?
        (destination others moving stage position)
        (min position (length (lane_deals others stage)))
      ≡ some (record moving { stage = stage })
unfolding destination
placed others moving stage position =
    get_elem?-insert_at _ _ (lane_deals others stage) (omega arith)

-- What an optimistic move inside the stage filter writes for a list with distinct ids: the other deals, and behind them the
-- target lane. There each deal's `sort_order` is its index, and at the requested index, or at the
-- end of a shorter lane, stands the moved deal with the target stage.
pub optimistic_positions :
    (filtered : Option DealStage) (vars : MoveVars) (rows new : List Deal)
    → HasDistinctIds rows
    → leaves_filter filtered vars.stage ≡ false
    → optimistic filtered vars rows ≡ some new
    → (lane : List Deal) × (new ≡ without_id vars.id rows ++ lane)
      × ((i : ℕ) (d : Deal) → get_elem? lane i ≡ some d → d.sort_order ≡ i)
      × ((d : Deal) × (get_elem? lane
              (min vars.position (length (lane_deals (without_id vars.id rows) vars.stage)))
            ≡ some d)
          × (d.id ≡ vars.id)
          × (d.stage ≡ vars.stage))
unfolding move_rows renumber
optimistic_positions filtered vars rows new distinct stays e =
    let (moving, same, result) = optimistic_inv filtered vars rows new e in
    let others = without_id vars.id rows in
    let lane = destination others moving vars.stage vars.position in
    (
      map (renumber (positions lane)) lane,
      result ∙ rw stays,
      numbered lane
          (destination-HasDistinctIds vars.id rows moving vars.stage vars.position distinct same),
      (
        renumber (positions lane) (record moving { stage = vars.stage }),
        get_elem?-map _ lane _ (placed others moving vars.stage vars.position),
        (eq_iff moving.id vars.id).0 same,
        refl,
      ),
    )
