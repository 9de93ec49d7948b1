-- ===== src/Deals/Move.antt =====
-- The optimistic update of the deal list when a deal is moved, and its rollback
-- (frontend/src/features/deals/hooks/useDeals.ts, `useMoveDeal`).
pub mod Copies
pub mod Positions
pub mod Rollback
use bubllio_crm.Prelude.{
  ℕ, String, Bool, true, false, not, Option, none, some, List, ◌++◌, map, filter, length, min,
  if◌then◌else◌, ◌≡◌,
}
use bubllio_crm.Js.Array.{find, insert_at, map_index}
use bubllio_crm.Js.Map
use bubllio_crm.Types.Deal.{Deal, DealStage, is_stage}
use bubllio_crm.Deals.Lane.{has_id, lane_deals}

-- previous.filter((deal) => deal.id !== id)
abbrev pub without_id : String → List Deal → List Deal
without_id id rows = filter (λ d. not (has_id id d)) rows

-- new Map(destination.map((deal, index) => [deal.id, index]))
unfoldable pub positions : List Deal → List (String × ℕ)
unfolding Map.from_entries
positions destination = Map.from_entries Map.empty (map_index (λ i d. (d.id, i)) 0 destination)

-- positions.get(deal.id) ?? deal.sort_order
abbrev position_or : Option ℕ → ℕ → ℕ
position_or none old = old
position_or (some i) old = i

unfoldable pub renumber : List (String × ℕ) → Deal → Deal
renumber table deal = record deal {
  sort_order = position_or (Map.lookup deal.id table) deal.sort_order;
}

-- The destination lane with the moved deal spliced in.
unfoldable pub destination : List Deal → Deal → DealStage → ℕ → List Deal
destination others moving stage position =
    let lane = lane_deals others stage in
    insert_at (min position (length lane)) (record moving { stage = stage }) lane

-- filters.stage && filters.stage !== stage
abbrev pub leaves_filter : Option DealStage → DealStage → Bool
leaves_filter none stage = false
leaves_filter (some filtered) stage = not (is_stage filtered stage)

-- The list that `setQueryData` is given, for a deal that is in the list.
unfoldable pub move_rows : Option DealStage → DealStage → ℕ → List Deal → Deal → List Deal
move_rows filtered stage position others moving =
    let lane = destination others moving stage position in
    if leaves_filter filtered stage then others else others ++ map (renumber (positions lane)) lane

pub record MoveVars : Type 0 where
  pub id : String
  pub stage : DealStage
  pub position : ℕ

-- What `onMutate` does with a list that is in the cache.
unfoldable pub optimistic : Option DealStage → MoveVars → List Deal → Option (List Deal)
optimistic filtered vars previous = elim (find (has_id vars.id) previous) [
  | none ↦ none
  | some moving ↦
      some (move_rows filtered vars.stage vars.position (without_id vars.id previous) moving)
]

-- The query client, which is not in the repository: the data of the list's key is read and written.
-- Writing `undefined` (`none`) leaves the data alone.
pub record QueryCache : Type 1 where
  pub State : Type 0
  pub read : State → Option (List Deal)
  pub write : State → Option (List Deal) → State
  pub read-write : (s : State) (rows : List Deal) → read (write s (some rows)) ≡ some rows
  pub write-none : (s : State) → write s none ≡ s

module _ (cache : QueryCache) where
  open cache use {State, read, write}

  write_if : State → Option (List Deal) → State
  write_if s none = s
  write_if s (some rows) = write s (some rows)

  -- The new cache, and `previous` for the context. `cancelQueries` changes no data.
  unfoldable pub on_mutate : Option DealStage → MoveVars → State → State × Option (List Deal)
  unfolding write_if
  on_mutate filtered vars s = elim (read s) [
    | none ↦ (s, none)
    | some previous ↦ (write_if s (optimistic filtered vars previous), some previous)
  ]

  unfoldable pub on_error : Option (List Deal) → State → State
  on_error previous s = write s previous
