-- ===== src/Types/Deal.antt =====
-- frontend/src/types/deal.types.ts
use bubllio_crm.Prelude.{
  ℕ, String, Bool, Option, ◌==◌, ◌≡◌, true, eq_refl, refl, some, List, [], ◌∷◌,
}
use bubllio_crm.Js.Value.{spelled, name_injective}

pub data DealStage : Type 0 where
  lead qualified proposal negotiation won lost : DealStage

-- The text that a stage is.
abbrev pub stage_name : DealStage → String
stage_name lead = "lead"
stage_name qualified = "qualified"
stage_name proposal = "proposal"
stage_name negotiation = "negotiation"
stage_name won = "won"
stage_name lost = "lost"

-- DEAL_STAGES of frontend/src/features/deals/dealBoardConfig.ts
abbrev pub deal_stages : List DealStage
deal_stages = lead ∷ qualified ∷ proposal ∷ negotiation ∷ won ∷ lost ∷ []

-- `===` of two stages
abbrev pub is_stage : DealStage → DealStage → Bool
is_stage a b = stage_name a == stage_name b

pub record Deal : Type 0 where
  pub id : String
  pub organization : String
  pub company : String
  pub company_name : String
  pub contact : Option String
  pub contact_name : String
  pub assigned_to : Option ℕ
  pub assigned_to_name : String
  pub title : String
  pub value : String
  pub currency : String
  pub tax_rate : String
  pub amount_includes_tax : Bool
  pub net_value : String
  pub tax_value : String
  pub gross_value : String
  pub probability : ℕ
  pub stage : DealStage
  pub sort_order : ℕ
  pub expected_close_date : Option String
  pub lost_reason : String
  pub notes : String
  pub archived_at : Option String
  pub created_at : String
  pub updated_at : String

pub is_stage_refl : (a : DealStage) → is_stage a a ≡ true
is_stage_refl a = eq_refl (stage_name a)

pub spelled-stage_name : (a : DealStage) → spelled stage_name deal_stages (stage_name a) ≡ some a
spelled-stage_name lead = refl
spelled-stage_name qualified = refl
spelled-stage_name proposal = refl
spelled-stage_name negotiation = refl
spelled-stage_name won = refl
spelled-stage_name lost = refl

pub is_stage→eq : (a b : DealStage) → is_stage a b ≡ true → a ≡ b
is_stage→eq = name_injective stage_name deal_stages spelled-stage_name
