-- ===== src/Costing/DealCosts.antt =====
-- The drawer of a deal's cost (`DealCostDrawer` of
-- frontend/src/features/costing/components/DealProfitabilityPanel.tsx) and the lines of the panel.
-- A step is one change by the user; `services` is what the query of the collaborator's services holds
-- at that time.
pub mod Laws
use bubllio_crm.Prelude.{
  String, Bool, true, false, not, ◌&&◌, ◌||◌, Option, none, some, List, [], ◌==◌, ◌≡◌, refl,
  if◌then◌else◌,
}
use bubllio_crm.Drawers.{Save, save_as, update}
use bubllio_crm.Js.Array.{find}
use bubllio_crm.Js.Numbers.{Numbers}
use bubllio_crm.Js.Patch.{option_or}
use bubllio_crm.Js.Text.{truthy, trim}
use bubllio_crm.Types.Costing.{
  CollaboratorService, DealCost, DealCostInput, DealCostStatus, estimated, DealProfitability,
}

-- `collaboratorId` and `form`; `collaborator_id` chooses whose services are asked for.
pub record CostDrawer : Type 0 where
  pub collaborator_id : String
  pub form : DealCostInput

abbrev pub cost_collaborator : Option DealCost → String
cost_collaborator none = ""
cost_collaborator (some cost) = cost.collaborator

abbrev pub cost_form : String → Option DealCost → DealCostInput
cost_form currency none = record {
  collaborator = "";
  collaborator_service = none;
  service_name = "";
  description = "";
  quantity = "1";
  unit_cost = "0.00";
  currency = currency;
  status = estimated;
}
cost_form currency (some cost) = record {
  collaborator = cost.collaborator;
  collaborator_service = cost.collaborator_service;
  service_name = cost.service_name;
  description = cost.description;
  quantity = cost.quantity;
  unit_cost = cost.unit_cost;
  currency = cost.currency;
  status = cost.status;
}

unfoldable pub initial_drawer : String → Option DealCost → CostDrawer
initial_drawer currency cost = record {
  collaborator_id = cost_collaborator cost;
  form = cost_form currency cost;
}

-- `currency` is the deal's.
unfoldable pub select_collaborator : String → String → CostDrawer → CostDrawer
select_collaborator currency id d = record {
  collaborator_id = id;
  form = record d.form {
    collaborator = id;
    collaborator_service = none;
    service_name = "";
    unit_cost = "0.00";
    currency = currency;
  };
}

abbrev pub find_service : String → Option (List CollaboratorService) → Option CollaboratorService
find_service id none = none
find_service id (some services) = find (λ (s : CollaboratorService). s.id == id) services

-- id || null
abbrev pub or_null : String → Option String
or_null id = if truthy id then some id else none

abbrev pub with_service :
    String → String → Option CollaboratorService → DealCostInput → DealCostInput
with_service currency id none form = record form {
  collaborator_service = or_null id;
  currency = currency;
}
with_service currency id (some service) form = record form {
  collaborator_service = or_null id;
  service_name = service.name;
  description = service.description;
  unit_cost = service.default_cost;
  currency = service.currency;
}

unfoldable pub select_service :
    String → Option (List CollaboratorService) → String → CostDrawer → CostDrawer
select_service currency services id d = record d {
  form = with_service currency id (find_service id services) d.form;
}

pub data Edit : Type 0 where
  set_service_name set_description set_quantity set_unit_cost : String → Edit
  set_status : DealCostStatus → Edit

-- setForm({ ...form, key: value })
abbrev pub edit_form : Edit → DealCostInput → DealCostInput
edit_form (set_service_name t) form = record form { service_name = t }
edit_form (set_description t) form = record form { description = t }
edit_form (set_quantity t) form = record form { quantity = t }
edit_form (set_unit_cost t) form = record form { unit_cost = t }
edit_form (set_status status) form = record form { status = status }

abbrev pub edit : Edit → CostDrawer → CostDrawer
edit e d = record d { form = edit_form e d.form }

pub data Step (currency : String) : CostDrawer → CostDrawer → Type 0 where
  selects_collaborator :
      (id : String) (d : CostDrawer) → Step currency d (select_collaborator currency id d)
  selects_service :
      (services : Option (List CollaboratorService)) (id : String) (d : CostDrawer)
      → Step currency d (select_service currency services id d)
  edits : (e : Edit) (d : CostDrawer) → Step currency d (edit e d)

pub data Reachable (currency : String) (cost : Option DealCost) : CostDrawer → Type 0 where
  start : Reachable currency cost (initial_drawer currency cost)
  step :
      {d d' : CostDrawer}
      → Reachable currency cost d
      → Step currency d d'
      → Reachable currency cost d'

-- `is_positive n` is `n > 0`, and `is_at_least_zero n` is `n >= 0`.
module _ (numbers : Numbers) (is_positive is_at_least_zero : numbers.Num → Bool) where
  unfoldable pub valid : String → DealCostInput → Bool
  valid currency form =
      truthy form.collaborator
      && truthy (trim form.service_name)
      && is_positive (numbers.of_text form.quantity)
      && is_at_least_zero (numbers.of_text form.unit_cost)
      && form.currency == currency

abbrev pub save : Option DealCost → CostDrawer → Save DealCostInput
save cost d = save_as (λ (c : DealCost). c.id) cost d.form

-- summary?.costs ?? summary?.lines ?? []
abbrev summary_lines : Option DealProfitability → List DealCost
summary_lines none = []
summary_lines (some p) = option_or p.costs (option_or p.lines [])

-- The lines of the panel, where the query of the costs has no data before it has loaded.
abbrev pub lines : Option (List DealCost) → Option DealProfitability → List DealCost
lines costs summary = option_or costs (summary_lines summary)
