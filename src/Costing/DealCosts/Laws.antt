-- ===== src/Costing/DealCosts/Laws.antt =====
-- The drawer of a deal's cost (`DealCostDrawer` of
-- frontend/src/features/costing/components/DealProfitabilityPanel.tsx) after any changes.
use bubllio_crm.Prelude.{String, Bool, false, Option, none, some, List, ◌==◌, ◌≡◌, refl, ◌∙◌, arith}
use bubllio_crm.Js.Numbers.{Numbers}
use bubllio_crm.Js.Text.{trim_empty}
use bubllio_crm.Types.Costing.{CollaboratorService, DealCost, DealCostInput}
use bubllio_crm.Costing.DealCosts.{
  CostDrawer, initial_drawer, select_collaborator, find_service, with_service, select_service, Edit,
  set_service_name, set_description, set_quantity, set_unit_cost, set_status, edit_form, Step,
  selects_collaborator, selects_service, edits, Reachable, start, step, valid,
}

-- The form's collaborator is the one whose services are asked for.
abbrev pub Agrees : CostDrawer → Type 0
Agrees d = d.form.collaborator ≡ d.collaborator_id

initial_drawer-Agrees :
    (currency : String) (cost : Option DealCost) → Agrees (initial_drawer currency cost)
unfolding initial_drawer
initial_drawer-Agrees currency none = refl
initial_drawer-Agrees currency (some cost) = refl

with_service-collaborator :
    (currency id : String) (o : Option CollaboratorService) (form : DealCostInput)
    → (with_service currency id o form).collaborator ≡ form.collaborator
with_service-collaborator currency id none form = refl
with_service-collaborator currency id (some s) form = refl

edit_form-collaborator :
    (e : Edit) (form : DealCostInput) → (edit_form e form).collaborator ≡ form.collaborator
edit_form-collaborator (set_service_name t) form = refl
edit_form-collaborator (set_description t) form = refl
edit_form-collaborator (set_quantity t) form = refl
edit_form-collaborator (set_unit_cost t) form = refl
edit_form-collaborator (set_status s) form = refl

Step-Agrees : {currency : String} {d d' : CostDrawer} → Step currency d d' → Agrees d → Agrees d'
unfolding select_collaborator select_service
Step-Agrees (selects_collaborator id d) h = refl
Step-Agrees {currency} (selects_service services id d) h =
    with_service-collaborator currency id (find_service id services) d.form ∙ h
Step-Agrees (edits e d) h = edit_form-collaborator e d.form ∙ h

-- After any changes, the services that the drawer offers are asked for the collaborator of the form.
pub Reachable-Agrees :
    {currency : String} {cost : Option DealCost} {d : CostDrawer}
    → Reachable currency cost d
    → Agrees d
Reachable-Agrees {currency} {cost} start = initial_drawer-Agrees currency cost
Reachable-Agrees (step r e) = Step-Agrees e (Reachable-Agrees r)

module _ (numbers : Numbers) (is_positive is_at_least_zero : numbers.Num → Bool) where
  -- A service of the list in another currency than the deal's leaves a cost that cannot be saved, and
  -- so does choosing another collaborator, whatever the form held.
  pub valid-select_service :
      (currency id other : String) (services : List CollaboratorService)
      (service : CollaboratorService) (d : CostDrawer)
      → find_service id (some services) ≡ some service
      → (service.currency == currency) ≡ false
      → (valid numbers is_positive is_at_least_zero currency
            (select_service currency (some services) id d).form
          ≡ false)
        × (valid numbers is_positive is_at_least_zero currency
              (select_collaborator currency other d).form
            ≡ false)
  unfolding valid select_service select_collaborator
  valid-select_service currency id other services service d found differ =
      (rw found (ground arith), rw trim_empty (ground arith))
