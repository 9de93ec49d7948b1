-- ===== src/GlobalSearch/Navigation.antt =====
-- Where a result leads (`selectResult` of
-- frontend/src/features/global-search/components/GlobalSearch.tsx), and the request of a search
-- (frontend/src/features/global-search/services/globalSearchService.ts).
use bubllio_crm.Prelude.{String, Option, none, some, List, [], ◌∷◌, if◌then◌else◌}
use bubllio_crm.Js.Text.{trim, truthy}
use bubllio_crm.GlobalSearch.State.{GlobalSearchState, close, global_search_reducer}
use bubllio_crm.GlobalSearch.Presentation.{GlobalSearchResult, ResultType}

pub data Target : Type 0 where
  company_page deal_page : (organization id : String) → Target
  contact_list : (organization contact : String) → Target

abbrev target_of : ResultType → String → String → Target
target_of ResultType.company organization id = company_page organization id
target_of ResultType.contact organization id = contact_list organization id
target_of ResultType.deal organization id = deal_page organization id

-- The search is closed and the result's page opened.
unfoldable pub select_result : GlobalSearchResult → GlobalSearchState → GlobalSearchState × Target
select_result r s = (global_search_reducer s close, target_of r.kind r.organization.id r.id)

abbrev organization_param : Option String → List (String × String)
organization_param none = []
organization_param (some id) = if truthy id then ("organization", id) ∷ [] else []

-- The parameters of the request, in order.
unfoldable pub search_params : String → Option String → List (String × String)
search_params query organization =
    ("q", trim query)
    ∷ ("types", "company,contact,deal")
    ∷ ("page", "1")
    ∷ ("page_size", "20")
    ∷ organization_param organization

-- The organization that a search is limited to: the current one, unless all are searched.
unfoldable pub scoped_organization : Option String → GlobalSearchState → Option String
scoped_organization none s = none
scoped_organization (some id) s =
    if truthy id then (if s.search_all_workspaces then none else some id) else none
