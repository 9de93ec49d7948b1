-- ===== src/Services/Subscription/Laws.antt =====
-- What the drawer of a customer's service sends (frontend/src/pages/Services/SubscriptionDrawer.tsx).
use bubllio_crm.Prelude.{String, true, Option, none, some, List, ◌==◌, ◌≡◌, refl}
use bubllio_crm.Js.Array.{find}
use bubllio_crm.Js.Patch.{option_or}
use bubllio_crm.Js.Text.{truthy}
use bubllio_crm.Types.Subscription.{ServiceCatalogItem, CustomerSubscription, SubscriptionInput}
use bubllio_crm.Services.Subscription.{
  SubscriptionForm, update, create, initial_form, select_catalog_item, take_defaults, or_null,
  submit,
}

-- A value that is given and not empty.
abbrev given : Option String → Option String
given none = none
given (some s) = or_null s

or_null-option_or : (o : Option String) → or_null (option_or o "") ≡ given o
or_null-option_or none = refl
or_null-option_or (some s) = refl

take_defaults_edited :
    (s : CustomerSubscription) (item : Option ServiceCatalogItem) (form : SubscriptionForm)
    → take_defaults (some s) item form ≡ form
take_defaults_edited s none form = refl
take_defaults_edited s (some item) form = refl

-- The values of a subscription that its drawer edits, an empty text for a missing one.
abbrev pub editable : CustomerSubscription → SubscriptionInput
editable s = record {
  company = s.company;
  catalog_item = given s.catalog_item;
  name = s.name;
  net_price = s.net_price;
  currency = s.currency;
  tax_rate = s.tax_rate;
  billing_interval = s.billing_interval;
  start_date = s.start_date;
  next_billing_date = s.next_billing_date;
  renewal_date = given s.renewal_date;
  end_date = given s.end_date;
  auto_renew = s.auto_renew;
  operational_reference = s.operational_reference;
  notes = s.notes;
}

-- Opening the drawer on a subscription and saving it unchanged updates that subscription with its own
-- values, where a catalog item or date that is an empty text counts as missing; and choosing another catalog item changes that item and nothing else.
pub submit-initial_form :
    (today : String) (s : CustomerSubscription) (catalog : List ServiceCatalogItem) (id : String)
    → (submit (some s) (initial_form today (some s)) ≡ update s.id (editable s))
      × (submit (some s) (select_catalog_item (some s) catalog id (initial_form today (some s)))
          ≡ update s.id (record (editable s) { catalog_item = or_null id }))
unfolding submit initial_form select_catalog_item
submit-initial_form today s catalog id =
    (simp or_null-option_or, simp (take_defaults_edited, or_null-option_or))

-- For a catalog item that the catalog holds and whose id is not empty: what is sent of a new
-- subscription that selects it names the item, and no name, price, currency, tax rate or interval, nor
-- any next billing, renewal or end date, whatever was typed for them.
pub submit-select_catalog_item :
    (catalog : List ServiceCatalogItem) (item : ServiceCatalogItem) (form : SubscriptionForm)
    (next renewal end_ : String)
    → truthy item.id ≡ true
    → find (λ (c : ServiceCatalogItem). c.id == item.id) catalog ≡ some item
    → (submit none (record (select_catalog_item none catalog item.id form) {
      next_billing_date = next;
      renewal_date = renewal;
      end_date = end_;
    })
        ≡ create (record {
          company = form.company;
          start_date = form.start_date;
          catalog_item = some (some item.id);
          name = none;
          net_price = none;
          currency = none;
          tax_rate = none;
          billing_interval = none;
          next_billing_date = none;
          renewal_date = none;
          end_date = none;
          auto_renew = some form.auto_renew;
          operational_reference = some form.operational_reference;
          notes = some form.notes;
        }))
      × ((select_catalog_item none catalog item.id form).net_price ≡ item.default_net_price)
unfolding submit select_catalog_item
submit-select_catalog_item catalog item form next renewal end_ h found =
    simp (found, h) (refl, refl)
