-- ===== src/Timeline/Event.antt =====
-- CompanyTimelineEvent of frontend/src/types/company.types.ts
use bubllio_crm.Prelude.{String, Option, List}

pub data TimelineCategory : Type 0 where
  company contact deal task service payment note communication : TimelineCategory

-- `details`; each key may be missing.
pub record EventDetails : Type 0 where
  pub fields : Option (List String)
  pub contact_name : Option String
  pub deal_title : Option String
  pub task_title : Option String
  pub subscription_name : Option String
  pub from_stage : Option String
  pub to_stage : Option String
  pub from_status : Option String
  pub to_status : Option String
  pub amount : Option String
  pub currency : Option String
  pub kind : Option String
  pub outcome : Option String

pub record CompanyTimelineEvent : Type 0 where
  pub id : String
  pub category : TimelineCategory
  pub event_type : String
  pub source_type : String
  pub source_id : Option String
  pub actor_name : String
  pub body : String
  pub details : EventDetails
  pub occurred_at : String
