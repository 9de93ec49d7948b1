-- ===== src/Queries/Keys.antt =====
-- The queries of a workspace other than those of its companies, and what their mutations invalidate
-- (useDeals.ts, useTasks.ts, useContacts.ts, useSubscriptions.ts, useCosting.ts and
-- useActivityInbox.ts in the hooks of frontend/src/features/).
use bubllio_crm.Prelude.{ℕ, String, Option, List, [], ◌∷◌, ◌++◌}
use bubllio_crm.Js.Patch.{option_or}
use bubllio_crm.Queries.{KeyPart, text, number, filters}

pub data WorkspaceQuery (F : Type 0) : Type 0 where
  deal_list task_list contact_list : F → WorkspaceQuery F
  contact_page : F → ℕ → WorkspaceQuery F
  deal_detail contact_detail contact_activity : (id : String) → WorkspaceQuery F
  inbox catalog subscriptions charges overview collaborators : WorkspaceQuery F
  collaborator_services : Option String → WorkspaceQuery F
  deal_costs profitability : (deal : String) → WorkspaceQuery F

pub data DealMutation : Type 0 where
  create_deal update_deal move_deal archive_deal delete_deal : DealMutation

pub data TaskMutation : Type 0 where
  create_task update_task reschedule_task complete_task : TaskMutation
  reopen_task move_task delete_task : TaskMutation

pub data ContactMutation : Type 0 where
  create_contact update_contact delete_contact archive_contact restore_contact : ContactMutation

pub data CatalogMutation : Type 0 where
  create_item update_item : CatalogMutation

pub data SubscriptionMutation : Type 0 where
  create_subscription update_subscription record_payment : SubscriptionMutation
  cancel_subscription resume_subscription pause_subscription : SubscriptionMutation

pub data CostingMutation : Type 0 where
  create_collaborator update_collaborator : CostingMutation
  create_service update_service : CostingMutation
  create_deal_cost update_deal_cost delete_deal_cost : (deal : String) → CostingMutation

module _ {F : Type 0} where
  -- ['organizations', org, part]
  abbrev pub part_of : String → String → List (KeyPart F)
  part_of part org = text "organizations" ∷ text org ∷ text part ∷ []

  abbrev pub deal_keys : String → List (KeyPart F)
  deal_keys = part_of "deals"

  abbrev pub task_keys : String → List (KeyPart F)
  task_keys = part_of "tasks"

  abbrev pub contact_keys : String → List (KeyPart F)
  contact_keys = part_of "contacts"

  abbrev pub service_keys : String → List (KeyPart F)
  service_keys = part_of "services"

  abbrev pub costing_keys : String → List (KeyPart F)
  costing_keys = part_of "costing"

  abbrev pub inbox_keys : String → List (KeyPart F)
  inbox_keys = part_of "activity-inbox"

  abbrev pub catalog_keys : String → List (KeyPart F)
  catalog_keys org = service_keys org ++ (text "catalog" ∷ [])

  abbrev pub collaborator_keys : String → List (KeyPart F)
  collaborator_keys org = costing_keys org ++ (text "collaborators" ∷ [])

  abbrev pub deal_costing_keys : String → String → List (KeyPart F)
  deal_costing_keys org deal = costing_keys org ++ (text "deals" ∷ text deal ∷ [])

  abbrev pub query_key : String → WorkspaceQuery F → List (KeyPart F)
  query_key org (deal_list f) = deal_keys org ++ (text "list" ∷ filters f ∷ [])
  query_key org (deal_detail id) = deal_keys org ++ (text "detail" ∷ text id ∷ [])
  query_key org (task_list f) = task_keys org ++ (filters f ∷ [])
  query_key org (contact_list f) = contact_keys org ++ (filters f ∷ [])
  query_key org (contact_page f page) =
      contact_keys org ++ (filters f ∷ text "page" ∷ number page ∷ [])
  query_key org (contact_detail id) = contact_keys org ++ (text id ∷ [])
  query_key org (contact_activity id) = contact_keys org ++ (text id ∷ text "activity" ∷ [])
  query_key org inbox = inbox_keys org
  query_key org catalog = catalog_keys org
  query_key org subscriptions = service_keys org ++ (text "subscriptions" ∷ [])
  query_key org charges = service_keys org ++ (text "charges" ∷ [])
  query_key org overview = service_keys org ++ (text "overview" ∷ [])
  query_key org collaborators = collaborator_keys org
  query_key org (collaborator_services id) =
      costing_keys org ++ (text "services" ∷ text (option_or id "all") ∷ [])
  query_key org (deal_costs deal) = deal_costing_keys org deal ++ (text "costs" ∷ [])
  query_key org (profitability deal) = deal_costing_keys org deal ++ (text "profitability" ∷ [])

  -- Each function below gives the keys that a mutation invalidates: when it succeeds, but for the
  -- move of a deal, when it settles.
  unfoldable pub invalidate_deals : String → DealMutation → List (List (KeyPart F))
  invalidate_deals org m = deal_keys org ∷ inbox_keys org ∷ []

  unfoldable pub invalidate_tasks : String → TaskMutation → List (List (KeyPart F))
  invalidate_tasks org m = task_keys org ∷ inbox_keys org ∷ []

  unfoldable pub invalidate_contacts : String → ContactMutation → List (List (KeyPart F))
  invalidate_contacts org m = contact_keys org ∷ []

  unfoldable pub invalidate_catalog : String → CatalogMutation → List (List (KeyPart F))
  invalidate_catalog org m = catalog_keys org ∷ []

  unfoldable pub invalidate_services : String → SubscriptionMutation → List (List (KeyPart F))
  invalidate_services org m = service_keys org ∷ inbox_keys org ∷ []

  unfoldable pub invalidate_costing : String → CostingMutation → List (List (KeyPart F))
  invalidate_costing org create_collaborator = collaborator_keys org ∷ []
  invalidate_costing org update_collaborator = costing_keys org ∷ []
  invalidate_costing org create_service = costing_keys org ∷ []
  invalidate_costing org update_service = costing_keys org ∷ []
  invalidate_costing org (create_deal_cost deal) = deal_costing_keys org deal ∷ []
  invalidate_costing org (update_deal_cost deal) = deal_costing_keys org deal ∷ []
  invalidate_costing org (delete_deal_cost deal) = deal_costing_keys org deal ∷ []
