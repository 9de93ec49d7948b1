-- ===== src/Types/Costing.antt =====
-- frontend/src/types/costing.types.ts
use bubllio_crm.Prelude.{ℕ, String, Bool, Option, List}

pub record Collaborator : Type 0 where
  pub id : String
  pub name : String
  pub specialty : String
  pub email : String
  pub phone_number : String
  pub notes : String
  pub is_active : Bool
  pub service_count : Option ℕ
  pub created_at : Option String
  pub updated_at : Option String

pub record CollaboratorInput : Type 0 where
  pub name : String
  pub specialty : String
  pub email : String
  pub phone_number : String
  pub notes : String
  pub is_active : Bool

pub record CollaboratorService : Type 0 where
  pub id : String
  pub collaborator : String
  pub collaborator_name : Option String
  pub name : String
  pub default_cost : String
  pub currency : String
  pub description : String
  pub is_active : Bool

pub record CollaboratorServiceInput : Type 0 where
  pub collaborator : String
  pub name : String
  pub default_cost : String
  pub currency : String
  pub description : String
  pub is_active : Bool

pub data DealCostStatus : Type 0 where
  estimated committed paid cancelled : DealCostStatus

pub record DealCost : Type 0 where
  pub id : String
  pub deal : String
  pub collaborator : String
  pub collaborator_name : String
  pub collaborator_service : Option String
  pub service_name : String
  pub description : String
  pub quantity : String
  pub unit_cost : String
  pub currency : String
  pub total_cost : String
  pub status : DealCostStatus

pub record DealCostInput : Type 0 where
  pub collaborator : String
  pub collaborator_service : Option String
  pub service_name : String
  pub description : String
  pub quantity : String
  pub unit_cost : String
  pub currency : String
  pub status : DealCostStatus

-- `null` and a missing list are `none`.
pub record DealProfitability : Type 0 where
  pub deal : String
  pub currency : String
  pub net_revenue : String
  pub estimated_cost_total : String
  pub committed_cost_total : String
  pub estimated_gross_profit : String
  pub estimated_margin_percent : Option String
  pub costs : Option (List DealCost)
  pub lines : Option (List DealCost)
