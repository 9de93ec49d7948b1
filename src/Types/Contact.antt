-- ===== src/Types/Contact.antt =====
-- frontend/src/types/contact.types.ts
use bubllio_crm.Prelude.{ℕ, String, Bool, Option}

pub data ContactStatus : Type 0 where
  active former : ContactStatus

pub record Contact : Type 0 where
  pub id : String
  pub organization : String
  pub company : String
  pub company_name : String
  pub assigned_to : Option ℕ
  pub assigned_to_name : String
  pub first_name : String
  pub last_name : String
  pub email : String
  pub phone_number : String
  pub department : String
  pub job_title : String
  pub status : ContactStatus
  pub is_primary : Bool
  pub created_at : String
  pub updated_at : String
  pub archived_at : Option String
