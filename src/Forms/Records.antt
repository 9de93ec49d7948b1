-- ===== src/Forms/Records.antt =====
-- The forms of companies, contacts, notes and email accounts
-- (frontend/src/features/companies/companySchema.ts, frontend/src/features/contacts/contactSchema.ts
-- and frontend/src/features/organizations/emailAccountSchema.ts).
use Prim.Native.Char.{Char, code}
use bubllio_crm.Prelude.{ℕ, zero, suc, String, Bool, true, false, not, ◌&&◌, ◌||◌, Option, leb}
use bubllio_crm.Forms.{Zod, within, filled_within, optional_email, optional_url, optional_positive}
use bubllio_crm.Forms.Ports.{account_port}
use bubllio_crm.Js.Text.{truthy, trim}

abbrev is_letter : Char → Bool
is_letter c = leb 65 (code c) && leb (code c) 90 || leb 97 (code c) && leb (code c) 122

-- /^[a-z]{n}$/i.test(value)
abbrev pub is_letters : ℕ → String → Bool
is_letters zero String.[] = true
is_letters zero (String.◌∷◌ c s) = false
is_letters (suc n) String.[] = false
is_letters (suc n) (String.◌∷◌ c s) = is_letter c && is_letters n s

abbrev pub optional_country : String → Bool
optional_country s = not (truthy (trim s)) || is_letters 2 (trim s)

-- The stage of a company, the status of a contact and the security of an account are options of
-- their fields, and are left out.
pub record CompanyFormValues : Type 0 where
  pub name : String
  pub tax_id : String
  pub industry : String
  pub email : String
  pub phone_number : String
  pub website : String
  pub address_line_1 : String
  pub address_line_2 : String
  pub city : String
  pub postal_code : String
  pub country : String
  pub notes : String
  pub assigned_to : Option ℕ

pub record ContactFormValues : Type 0 where
  pub company : String
  pub first_name : String
  pub last_name : String
  pub email : String
  pub phone_number : String
  pub department : String
  pub job_title : String
  pub assigned_to : Option ℕ
  pub is_primary : Bool

pub record EmailAccountFormValues : Type 0 where
  pub name : String
  pub host : String
  pub port : String
  pub username : String
  pub password : String
  pub from_email : String
  pub from_name : String

module _ (zod : Zod) where
  unfoldable pub company_accepted : CompanyFormValues → Bool
  company_accepted v =
      filled_within zod 255 v.name
      && within zod 64 v.tax_id
      && within zod 120 v.industry
      && optional_email zod v.email
      && within zod 20 v.phone_number
      && optional_url zod v.website
      && within zod 255 v.address_line_1
      && within zod 255 v.address_line_2
      && within zod 120 v.city
      && within zod 32 v.postal_code
      && optional_country v.country
      && within zod 5000 v.notes
      && optional_positive v.assigned_to

  -- timelineNoteSchema
  abbrev pub note_accepted : String → Bool
  note_accepted body = filled_within zod 5000 body

  unfoldable pub contact_accepted : ContactFormValues → Bool
  contact_accepted v =
      truthy v.company
      && filled_within zod 150 v.first_name
      && within zod 150 v.last_name
      && optional_email zod v.email
      && within zod 20 v.phone_number
      && within zod 150 v.department
      && within zod 150 v.job_title
      && optional_positive v.assigned_to

  unfoldable pub account_accepted : EmailAccountFormValues → Bool
  account_accepted v =
      filled_within zod 255 v.name
      && filled_within zod 255 v.host
      && account_port v.port
      && filled_within zod 255 v.username
      && zod.is_email (trim v.from_email)
      && within zod 255 v.from_name

  -- createEmailAccountSchema
  unfoldable pub new_account_accepted : EmailAccountFormValues → Bool
  new_account_accepted v = account_accepted v && truthy v.password
