-- ===== src/Companies/Drawer.antt =====
-- The drawer that creates and edits a company
-- (frontend/src/features/companies/components/CompanyDialog.tsx), with what the schema of
-- frontend/src/features/companies/companySchema.ts makes of its values.
use bubllio_crm.Prelude.{ℕ, String, Option, none, some, ◌≡◌, refl}
use bubllio_crm.Drawers.{Save, update, save_as}
use bubllio_crm.Forms.Records.{CompanyFormValues}
use bubllio_crm.Js.Text.{trim}

pub data LifecycleStage : Type 0 where
  lead prospect customer inactive : LifecycleStage

pub record Company : Type 0 where
  pub id : String
  pub organization : String
  pub customer_code : String
  pub assigned_to : Option ℕ
  pub assigned_to_name : String
  pub name : String
  pub tax_id : String
  pub industry : String
  pub email : String
  pub phone_number : String
  pub website : String
  pub address_line_1 : String
  pub address_line_2 : String
  pub city : String
  pub postal_code : String
  pub country : String
  pub notes : String
  pub lifecycle_stage : LifecycleStage
  pub created_at : String
  pub updated_at : String
  pub archived_at : Option String

-- The values of the form: those that Forms.Records checks, and the stage.
pub record CompanyForm : Type 0 where
  pub values : CompanyFormValues
  pub lifecycle_stage : LifecycleStage

-- The fields of a company that a user edits.
abbrev pub editable : Company → CompanyFormValues
editable c = record {
  name = c.name;
  tax_id = c.tax_id;
  industry = c.industry;
  email = c.email;
  phone_number = c.phone_number;
  website = c.website;
  address_line_1 = c.address_line_1;
  address_line_2 = c.address_line_2;
  city = c.city;
  postal_code = c.postal_code;
  country = c.country;
  notes = c.notes;
  assigned_to = c.assigned_to;
}

abbrev empty_company : CompanyFormValues
empty_company = record {
  name = "";
  tax_id = "";
  industry = "";
  email = "";
  phone_number = "";
  website = "";
  address_line_1 = "";
  address_line_2 = "";
  city = "";
  postal_code = "";
  country = "";
  notes = "";
  assigned_to = none;
}

unfoldable pub default_values : Option Company → CompanyForm
default_values none = record { values = empty_company; lifecycle_stage = lead }
default_values (some c) = record { values = editable c; lifecycle_stage = c.lifecycle_stage }

-- The values that the schema hands on, with the texts trimmed.
unfoldable pub parsed : CompanyFormValues → CompanyFormValues
parsed v = record {
  name = trim v.name;
  tax_id = trim v.tax_id;
  industry = trim v.industry;
  email = trim v.email;
  phone_number = trim v.phone_number;
  website = trim v.website;
  address_line_1 = trim v.address_line_1;
  address_line_2 = trim v.address_line_2;
  city = trim v.city;
  postal_code = trim v.postal_code;
  country = trim v.country;
  notes = trim v.notes;
  assigned_to = v.assigned_to;
}

-- Saving a form that the schema accepts.
unfoldable pub submit : Option Company → CompanyForm → Save CompanyForm
submit company f = save_as (λ (c : Company). c.id) company (record f { values = parsed f.values })

-- Where trimming leaves the texts of a company: opening the drawer on it and saving it unchanged
-- updates it with its own values.
pub submit-default_values :
    (c : Company)
    → parsed (editable c) ≡ editable c
    → submit (some c) (default_values (some c))
      ≡ update c.id (record { values = editable c; lifecycle_stage = c.lifecycle_stage })
unfolding submit default_values
submit-default_values c trimmed = rw trimmed refl
