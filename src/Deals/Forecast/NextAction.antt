-- ===== src/Deals/Forecast/NextAction.antt =====
-- The map of next tasks (`nextActionByDeal` of
-- frontend/src/features/deals/hooks/useDealBoardController.ts).
use bubllio_crm.Prelude.{
  String, Bool, true, false, Option, none, some, List, [], ◌∷◌, ◌==◌, ◌≡◌, refl, arith, eq_iff,
  if◌then◌else◌, ◌∙◌,
}
use bubllio_crm.Js.Array.{find}
use bubllio_crm.Js.Map
use bubllio_crm.Js.Map.{lookup-set}
use bubllio_crm.Js.Text.{truthy}
use bubllio_crm.Types.Task.{CrmTask}
use bubllio_crm.Deals.Forecast.{next_action_by_deal, next_action_loop, next_action_step}

abbrev names : String → Option String → Bool
names id none = false
names id (some deal) = deal == id

-- task.deal === id
abbrev pub for_deal : String → CrmTask → Bool
for_deal id task = names id task.deal

-- The entry that a map has for a key, or else that of another source.
abbrev first {ℓ} : {A : Type ℓ} → Option A → Option A → Option A
first none b = b
first (some a) b = some a

first_if {ℓ} :
    {A : Type ℓ} (a : Option A) (b : Bool) (c d : Option A)
    → first (first a (if b then c else none)) d ≡ first a (if b then first c d else d)
first_if none true c d = refl
first_if none false c d = refl
first_if (some x) b c d = refl

lookup-step :
    (id : String) (result : List (String × CrmTask)) (task : CrmTask) (deal : Option String)
    → truthy id ≡ true
    → Map.lookup id (next_action_step result task deal)
      ≡ first (Map.lookup id result) (if names id deal then some task else none)
lookup-step id result task none h = ground arith
lookup-step id result task (some deal) h =
    ground (arith, lookup-set deal id task result, eq_iff deal id)

lookup-loop :
    (id : String) (result : List (String × CrmTask)) (tasks : List CrmTask)
    → truthy id ≡ true
    → Map.lookup id (next_action_loop result tasks)
      ≡ first (Map.lookup id result) (find (for_deal id) tasks)
unfolding next_action_loop
lookup-loop id result [] h = ground arith
lookup-loop id result (task ∷ tasks) h =
    lookup-loop id (next_action_step result task task.deal) tasks h
    ∙ rw (lookup-step id result task task.deal h)
        (first_if (Map.lookup id result) (for_deal id task) (some task) (find (for_deal id) tasks))

-- For every deal id that is not empty, the map has the first task of the list that belongs to the deal, and no entry
-- when there is none.
pub lookup-next_action_by_deal :
    (id : String) (tasks : List CrmTask)
    → truthy id ≡ true
    → Map.lookup id (next_action_by_deal tasks) ≡ find (for_deal id) tasks
unfolding next_action_by_deal Map.lookup
lookup-next_action_by_deal id tasks h = lookup-loop id Map.empty tasks h
