-- ===== src/Deals/Move/Rollback.antt =====
-- The rollback of a failed move (frontend/src/features/deals/hooks/useDeals.ts, `onError`).
use bubllio_crm.Prelude.{Option, ◌≡◌, Option-cases, inl, inr, ap, ◌∙◌}
use bubllio_crm.Types.Deal.{DealStage}
use bubllio_crm.Deals.Move.{QueryCache, MoveVars, on_mutate, on_error}

-- Whatever the cache holds, the filter and the move, the error handler that is run with the context
-- of the mutation gives back the list that the cache held before, also when it held none.
pub read-on_error-on_mutate :
    (cache : QueryCache) (filtered : Option DealStage) (vars : MoveVars) (s : cache.State)
    → cache.read
        (on_error cache (on_mutate cache filtered vars s).1 (on_mutate cache filtered vars s).0)
      ≡ cache.read s
unfolding on_error on_mutate
read-on_error-on_mutate cache filtered vars s = elim (Option-cases (cache.read s)) [
  | inl e ↦ rw (e, on_mutate, on_error) (ap cache.read (cache.write-none s) ∙ e)
  | inr (rows, e) ↦ rw (e, on_mutate, on_error) (cache.read-write _ rows)
]
