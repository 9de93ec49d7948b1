-- ===== src/Queries/Subjects.antt =====
-- What the queries of a workspace show (the hooks of frontend/src/features/), and which of them the
-- changes of costing are about.
use bubllio_crm.Prelude.{◌==◌, String, Bool, true, false, List, [], ◌∷◌, ◌++◌, ◌≡◌, refl}
use bubllio_crm.Js.Patch.{option_or}
use bubllio_crm.Queries.{KeyPart, text, number, filters}
use bubllio_crm.Queries.Keys.{
  WorkspaceQuery, deal_list, deal_detail, task_list, contact_list, contact_page, contact_detail,
  contact_activity, inbox, catalog, subscriptions, charges, overview, collaborators,
  collaborator_services, deal_costs, profitability, CostingMutation, update_collaborator,
  update_deal_cost, update_service, create_collaborator, create_service, create_deal_cost,
  delete_deal_cost, part_of, query_key,
}

-- What a query shows.
pub data Subject : Type 0 where
  deals tasks contacts services costing events : Subject

abbrev pub subject_of : {F : Type 0} → WorkspaceQuery F → Subject
subject_of (deal_list f) = deals
subject_of (deal_detail id) = deals
subject_of (task_list f) = tasks
subject_of (contact_list f) = contacts
subject_of (contact_page f page) = contacts
subject_of (contact_detail id) = contacts
subject_of (contact_activity id) = contacts
subject_of inbox = events
subject_of catalog = services
subject_of subscriptions = services
subject_of charges = services
subject_of overview = services
subject_of collaborators = costing
subject_of (collaborator_services id) = costing
subject_of (deal_costs deal) = costing
subject_of (profitability deal) = costing

abbrev pub name_of : Subject → String
name_of deals = "deals"
name_of tasks = "tasks"
name_of contacts = "contacts"
name_of services = "services"
name_of costing = "costing"
name_of events = "activity-inbox"

abbrev pub is_subject : Subject → Subject → Bool
is_subject deals deals = true
is_subject tasks tasks = true
is_subject contacts contacts = true
is_subject services services = true
is_subject costing costing = true
is_subject events events = true
is_subject _ _ = false

abbrev pub shows : {F : Type 0} → Subject → WorkspaceQuery F → Bool
shows s q = is_subject s (subject_of q)

-- Whether a query shows the costs or the profitability of a deal.
abbrev pub is_of_deal : {F : Type 0} → String → WorkspaceQuery F → Bool
is_of_deal deal (deal_costs d) = deal == d
is_of_deal deal (profitability d) = deal == d
is_of_deal deal q = false

abbrev pub is_collaborators : {F : Type 0} → WorkspaceQuery F → Bool
is_collaborators collaborators = true
is_collaborators q = false

abbrev pub is_catalog : {F : Type 0} → WorkspaceQuery F → Bool
is_catalog catalog = true
is_catalog q = false

-- The queries that a change of costing refreshes.
abbrev pub costing_refreshes : {F : Type 0} → CostingMutation → WorkspaceQuery F → Bool
costing_refreshes create_collaborator q = is_collaborators q
costing_refreshes update_collaborator q = shows costing q
costing_refreshes create_service q = shows costing q
costing_refreshes update_service q = shows costing q
costing_refreshes (create_deal_cost deal) q = is_of_deal deal q
costing_refreshes (update_deal_cost deal) q = is_of_deal deal q
costing_refreshes (delete_deal_cost deal) q = is_of_deal deal q

module _ {F : Type 0} where
  -- What follows the part of a query's key.
  abbrev pub rest_of : WorkspaceQuery F → List (KeyPart F)
  rest_of (deal_list f) = text "list" ∷ filters f ∷ []
  rest_of (deal_detail id) = text "detail" ∷ text id ∷ []
  rest_of (task_list f) = filters f ∷ []
  rest_of (contact_list f) = filters f ∷ []
  rest_of (contact_page f page) = filters f ∷ text "page" ∷ number page ∷ []
  rest_of (contact_detail id) = text id ∷ []
  rest_of (contact_activity id) = text id ∷ text "activity" ∷ []
  rest_of inbox = []
  rest_of catalog = text "catalog" ∷ []
  rest_of subscriptions = text "subscriptions" ∷ []
  rest_of charges = text "charges" ∷ []
  rest_of overview = text "overview" ∷ []
  rest_of collaborators = text "collaborators" ∷ []
  rest_of (collaborator_services id) = text "services" ∷ text (option_or id "all") ∷ []
  rest_of (deal_costs deal) = text "deals" ∷ text deal ∷ text "costs" ∷ []
  rest_of (profitability deal) = text "deals" ∷ text deal ∷ text "profitability" ∷ []

  pub query_key-part_of :
      (org : String) (q : WorkspaceQuery F)
      → query_key org q ≡ part_of (name_of (subject_of q)) org ++ rest_of q
  query_key-part_of org (deal_list f) = refl
  query_key-part_of org (deal_detail id) = refl
  query_key-part_of org (task_list f) = refl
  query_key-part_of org (contact_list f) = refl
  query_key-part_of org (contact_page f page) = refl
  query_key-part_of org (contact_detail id) = refl
  query_key-part_of org (contact_activity id) = refl
  query_key-part_of org inbox = refl
  query_key-part_of org catalog = refl
  query_key-part_of org subscriptions = refl
  query_key-part_of org charges = refl
  query_key-part_of org overview = refl
  query_key-part_of org collaborators = refl
  query_key-part_of org (collaborator_services id) = refl
  query_key-part_of org (deal_costs deal) = refl
  query_key-part_of org (profitability deal) = refl

pub same_name : (s t : Subject) → (name_of s == name_of t) ≡ is_subject s t
same_name deals deals = refl
same_name deals tasks = refl
same_name deals contacts = refl
same_name deals services = refl
same_name deals costing = refl
same_name deals events = refl
same_name tasks deals = refl
same_name tasks tasks = refl
same_name tasks contacts = refl
same_name tasks services = refl
same_name tasks costing = refl
same_name tasks events = refl
same_name contacts deals = refl
same_name contacts tasks = refl
same_name contacts contacts = refl
same_name contacts services = refl
same_name contacts costing = refl
same_name contacts events = refl
same_name services deals = refl
same_name services tasks = refl
same_name services contacts = refl
same_name services services = refl
same_name services costing = refl
same_name services events = refl
same_name costing deals = refl
same_name costing tasks = refl
same_name costing contacts = refl
same_name costing services = refl
same_name costing costing = refl
same_name costing events = refl
same_name events deals = refl
same_name events tasks = refl
same_name events contacts = refl
same_name events services = refl
same_name events costing = refl
same_name events events = refl
