-- ===== src/Forms/Workspace.antt =====
-- The settings of a workspace (frontend/src/features/organizations/workspaceSettingsSchema.ts).
use bubllio_crm.Prelude.{ℕ, String, Bool, not, ◌&&◌, ◌||◌, leb}
use bubllio_crm.Forms.{Zod, within, optional_email, optional_url}
use bubllio_crm.Forms.Records.{is_letters}
use bubllio_crm.Js.Numbers.{Numbers}
use bubllio_crm.Js.Text.{truthy, trim}

pub record WorkspaceSettingsValues : Type 0 where
  pub timezone : String
  pub locale : String
  pub default_from_name : String
  pub legal_name : String
  pub trading_name : String
  pub tax_id : String
  pub tax_office : String
  pub registration_number : String
  pub business_email : String
  pub phone : String
  pub website : String
  pub address_line_1 : String
  pub address_line_2 : String
  pub city : String
  pub postal_code : String
  pub country : String
  pub currency : String
  pub fiscal_year_start_month : ℕ
  pub default_tax_rate : String
  pub default_payment_terms_days : ℕ
  pub document_prefix : String
  pub next_document_number : ℕ

-- /^$|^[A-Za-z]{2}$/.test(value)
abbrev pub is_country : String → Bool
is_country s = not (truthy s) || is_letters 2 s

-- `is_percentage n` is `n >= 0 && n <= 100`.
module _ (zod : Zod) (numbers : Numbers) (is_percentage : numbers.Num → Bool) where
  unfoldable pub settings_accepted : WorkspaceSettingsValues → Bool
  settings_accepted v =
      truthy v.timezone
      && truthy v.locale
      && within zod 255 v.default_from_name
      && within zod 255 v.legal_name
      && within zod 255 v.trading_name
      && within zod 64 v.tax_id
      && within zod 255 v.tax_office
      && within zod 128 v.registration_number
      && optional_email zod v.business_email
      && within zod 32 v.phone
      && optional_url zod v.website
      && within zod 255 v.address_line_1
      && within zod 255 v.address_line_2
      && within zod 128 v.city
      && within zod 32 v.postal_code
      && is_country (trim v.country)
      && is_letters 3 (trim v.currency)
      && (leb 1 v.fiscal_year_start_month && leb v.fiscal_year_start_month 12)
      && (truthy (trim v.default_tax_rate)
          && is_percentage (numbers.of_text (trim v.default_tax_rate)))
      && within zod 32 v.document_prefix
      && leb 1 v.next_document_number
