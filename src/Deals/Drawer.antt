-- ===== src/Deals/Drawer.antt =====
-- The drawer of a deal (frontend/src/pages/Deals/DealDrawer.tsx). A step is one change by the user;
-- `contacts` is what the query of the contacts holds at that time.
pub mod Laws
use bubllio_crm.Prelude.{
  ℕ, String, Bool, true, false, not, ◌&&◌, ◌||◌, Option, none, some, List, [], ◌∷◌, ◌==◌, nat_eq,
  if◌then◌else◌, filter, ◌≡◌,
}
use bubllio_crm.Drawers.{Save, save_as}
use bubllio_crm.Js.Array.{find}
use bubllio_crm.Js.Patch.{option_or, is_some}
use bubllio_crm.Js.Text.{truthy}
use bubllio_crm.Types.Contact.{Contact}
use bubllio_crm.Types.Deal.{Deal, DealStage, lead}

-- `DealInput` of frontend/src/types/deal.types.ts
pub record DealInput : Type 0 where
  pub company : String
  pub contact : Option String
  pub assigned_to : Option ℕ
  pub title : String
  pub value : String
  pub currency : String
  pub tax_rate : String
  pub amount_includes_tax : Bool
  pub probability : ℕ
  pub stage : DealStage
  pub expected_close_date : Option String
  pub lost_reason : String
  pub notes : String

abbrev pub empty_deal : DealInput
empty_deal = record {
  company = "";
  contact = none;
  assigned_to = none;
  title = "";
  value = "0.00";
  currency = "EUR";
  tax_rate = "24.00";
  amount_includes_tax = false;
  probability = 10;
  stage = lead;
  expected_close_date = none;
  lost_reason = "";
  notes = "";
}

unfoldable pub initial_values : Option Deal → Option DealStage → DealInput
initial_values none stage = record empty_deal { stage = option_or stage lead }
initial_values (some d) stage = record {
  company = d.company;
  contact = d.contact;
  assigned_to = d.assigned_to;
  title = d.title;
  value = d.value;
  currency = d.currency;
  tax_rate = d.tax_rate;
  amount_includes_tax = d.amount_includes_tax;
  probability = d.probability;
  stage = option_or stage d.stage;
  expected_close_date = d.expected_close_date;
  lost_reason = d.lost_reason;
  notes = d.notes;
}

unfoldable pub company_contacts : List Contact → DealInput → List Contact
company_contacts contacts v = filter (λ (c : Contact). c.company == v.company) contacts

abbrev pub has_contact : String → List Contact → Bool
has_contact id contacts = is_some (find (λ (c : Contact). c.id == id) contacts)

-- !values.contact || companyContacts.some(…)
abbrev available : Option String → List Contact → Bool
available none contacts = true
available (some id) contacts = not (truthy id) || has_contact id contacts

unfoldable pub contact_available : List Contact → DealInput → Bool
contact_available contacts v = available v.contact (company_contacts contacts v)

unfoldable pub choose_company : String → DealInput → DealInput
choose_company company v = record v { company = company; contact = none }

-- event.target.value || null
abbrev pub or_null : String → Option String
or_null s = if truthy s then some s else none

unfoldable pub choose_contact : String → DealInput → DealInput
choose_contact id v = record v { contact = or_null id }

-- The other changes, `set(name, value)`.
pub data Edit : Type 0 where
  set_assigned_to : Option ℕ → Edit
  set_title set_value set_currency set_tax_rate set_lost_reason set_notes : String → Edit
  set_amount_includes_tax : Bool → Edit
  set_probability : ℕ → Edit
  set_stage : DealStage → Edit
  set_expected_close_date : Option String → Edit

unfoldable pub edit : Edit → DealInput → DealInput
edit (set_assigned_to x) v = record v { assigned_to = x }
edit (set_title x) v = record v { title = x }
edit (set_value x) v = record v { value = x }
edit (set_currency x) v = record v { currency = x }
edit (set_tax_rate x) v = record v { tax_rate = x }
edit (set_lost_reason x) v = record v { lost_reason = x }
edit (set_notes x) v = record v { notes = x }
edit (set_amount_includes_tax x) v = record v { amount_includes_tax = x }
edit (set_probability x) v = record v { probability = x }
edit (set_stage x) v = record v { stage = x }
edit (set_expected_close_date x) v = record v { expected_close_date = x }

-- What the list of contacts offers: no contact, those of the company, and the one that is chosen.
abbrev pub is_offered : List Contact → DealInput → String → Bool
is_offered contacts v id =
    not (truthy id)
    || has_contact id (company_contacts contacts v)
    || not (contact_available contacts v) && option_or v.contact "" == id

pub data Step (contacts : List Contact) : DealInput → DealInput → Type 0 where
  chooses_company : (company : String) (v : DealInput) → Step contacts v (choose_company company v)
  chooses_contact :
      (id : String) (v : DealInput)
      → is_offered contacts v id ≡ true
      → Step contacts v (choose_contact id v)
  edits : (e : Edit) (v : DealInput) → Step contacts v (edit e v)

-- The values that the drawer can reach, with the lists of contacts that the query held meanwhile, the
-- present one first.
pub data Reachable (first : DealInput) : List (List Contact) → DealInput → Type 0 where
  start : (contacts : List Contact) → Reachable first (contacts ∷ []) first
  step :
      {contacts : List Contact} {earlier : List (List Contact)} {v w : DealInput}
      → Reachable first (contacts ∷ earlier) v
      → Step contacts v w
      → Reachable first (contacts ∷ earlier) w
  contacts_change :
      {held : List (List Contact)} {v : DealInput} (contacts : List Contact)
      → Reachable first held v
      → Reachable first (contacts ∷ held) v

-- The mutation that `submit` runs, if any.
unfoldable pub submit : (read_only : Bool) → Option Deal → DealInput → Option (Save DealInput)
submit read_only deal v = if read_only then none else some (save_as (λ (d : Deal). d.id) deal v)
