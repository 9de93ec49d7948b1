-- ===== src/Costing/Collaborators.antt =====
-- The drawers and the page of collaborators
-- (frontend/src/features/costing/components/CostingDrawers.tsx and
-- frontend/src/pages/Costing/CollaboratorsPage.tsx).
use Prim.Native.String
use bubllio_crm.Prelude.{String, Bool, true, not, ◌||◌, Option, none, some, List, ◌==◌, filter}
use bubllio_crm.Drawers.{Save, save_as}
use bubllio_crm.Js.Array.{find}
use bubllio_crm.Js.Numbers.{Numbers}
use bubllio_crm.Js.Text.{truthy, trim, includes}
use bubllio_crm.Types.Costing.{
  Collaborator, CollaboratorInput, CollaboratorService, CollaboratorServiceInput,
}

unfoldable pub collaborator_form : Option Collaborator → CollaboratorInput
collaborator_form none = record {
  name = "";
  specialty = "";
  email = "";
  phone_number = "";
  notes = "";
  is_active = true;
}
collaborator_form (some c) = record {
  name = c.name;
  specialty = c.specialty;
  email = c.email;
  phone_number = c.phone_number;
  notes = c.notes;
  is_active = c.is_active;
}

abbrev pub save_collaborator : Option Collaborator → CollaboratorInput → Save CollaboratorInput
save_collaborator = save_as (λ (c : Collaborator). c.id)

abbrev pub can_save_collaborator : Bool → CollaboratorInput → Bool
can_save_collaborator pending form = not (not (truthy (trim form.name)) || pending)

unfoldable pub service_form : Collaborator → Option CollaboratorService → CollaboratorServiceInput
service_form c none = record {
  collaborator = c.id;
  name = "";
  default_cost = "0.00";
  currency = "EUR";
  description = "";
  is_active = true;
}
service_form c (some s) = record {
  collaborator = c.id;
  name = s.name;
  default_cost = s.default_cost;
  currency = s.currency;
  description = s.description;
  is_active = s.is_active;
}

abbrev pub save_service :
    Option CollaboratorService → CollaboratorServiceInput → Save CollaboratorServiceInput
save_service = save_as (λ (s : CollaboratorService). s.id)

-- `is_negative n` is `n < 0`.
module _ (numbers : Numbers) (is_negative : numbers.Num → Bool) where
  abbrev pub can_save_service : Bool → CollaboratorServiceInput → Bool
  can_save_service pending form = not (
      not (truthy (trim form.name)) || (is_negative (numbers.of_text form.default_cost) || pending))

-- The collaborator that the page shows, if the list has it.
unfoldable pub selected : Option String → List Collaborator → Option Collaborator
selected none rows = none
selected (some id) rows = find (λ (c : Collaborator). c.id == id) rows

-- `lower` is `toLocaleLowerCase` of the language.
module _ (lower : String → String) where
  abbrev pub matches : String → Collaborator → Bool
  matches query c =
      includes (lower (trim query)) (lower (String.◌++◌ c.name (String.◌++◌ " " c.specialty)))

  unfoldable pub found_rows : String → List Collaborator → List Collaborator
  found_rows query rows = filter (matches query) rows
