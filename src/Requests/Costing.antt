-- ===== src/Requests/Costing.antt =====
-- The requests of costing (frontend/src/features/costing/services/costingService.ts).
use Prim.Native.String
use bubllio_crm.Prelude.{String, Option}
use bubllio_crm.Js.Map
use bubllio_crm.Requests.{
  set_if, get, post, patch, delete, Request, plain, with_params, organization_path, id_segment,
}

-- `encode` is encodeURIComponent.
module _ (encode : String → String) where
  abbrev pub root : String → String
  root organization = String.◌++◌ (organization_path encode organization) "costing/"

  abbrev pub deal_root : String → String → String
  deal_root organization deal =
      String.◌++◌ (organization_path encode organization)
        (String.◌++◌ "deals/" (id_segment encode deal))

  abbrev pub collaborator_path : String → String → String
  collaborator_path organization rest =
      String.◌++◌ (root organization) (String.◌++◌ "collaborators/" rest)

  abbrev pub service_path : String → String → String
  service_path organization rest =
      String.◌++◌ (root organization) (String.◌++◌ "collaborator-services/" rest)

  abbrev pub cost_path : String → String → String → String
  cost_path organization deal rest =
      String.◌++◌ (deal_root organization deal) (String.◌++◌ "costs/" rest)

  abbrev pub list_collaborators : String → Request
  list_collaborators organization = plain (collaborator_path organization "") get

  abbrev pub create_collaborator : String → Request
  create_collaborator organization = plain (collaborator_path organization "") post

  abbrev pub update_collaborator : String → String → Request
  update_collaborator organization id =
      plain (collaborator_path organization (id_segment encode id)) patch

  -- `?collaborator=…` is the one parameter.
  abbrev pub list_services : String → Option String → Request
  list_services organization collaborator =
      with_params (set_if "collaborator" collaborator Map.empty) (service_path organization "")

  abbrev pub create_service : String → Request
  create_service organization = plain (service_path organization "") post

  abbrev pub update_service : String → String → Request
  update_service organization id = plain (service_path organization (id_segment encode id)) patch

  abbrev pub list_deal_costs : String → String → Request
  list_deal_costs organization deal = plain (cost_path organization deal "") get

  abbrev pub create_deal_cost : String → String → Request
  create_deal_cost organization deal = plain (cost_path organization deal "") post

  abbrev pub update_deal_cost : String → String → String → Request
  update_deal_cost organization deal id =
      plain (cost_path organization deal (id_segment encode id)) patch

  abbrev pub delete_deal_cost : String → String → String → Request
  delete_deal_cost organization deal id =
      plain (cost_path organization deal (id_segment encode id)) delete

  abbrev pub profitability : String → String → Request
  profitability organization deal =
      plain (String.◌++◌ (deal_root organization deal) "profitability/") get
