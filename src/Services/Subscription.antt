-- ===== src/Services/Subscription.antt =====
-- The drawer of a customer's service (frontend/src/pages/Services/SubscriptionDrawer.tsx). `today`
-- is the day as a text, and the form is the state that its fields change.
pub mod Laws
use bubllio_crm.Prelude.{
  String, Bool, true, false, not, ◌&&◌, ◌||◌, Option, none, some, List, ◌==◌, ◌≡◌, refl, arith,
  if◌then◌else◌, filter, eq_iff, ap, Bool-cases, inl, inr,
}
use bubllio_crm.Js.Array.{find, find_sound}
use bubllio_crm.Js.Patch.{option_or, is_some}
use bubllio_crm.Js.Text.{truthy, trim}
use bubllio_crm.Types.Subscription.{
  BillingInterval, monthly, ServiceCatalogItem, CustomerSubscription, SubscriptionInput,
  CreateSubscriptionInput, SubscriptionStatus, is_subscription_status, active, paused, cancelling,
  cancelled, expired,
}

-- A missing item and missing dates are empty texts.
pub record SubscriptionForm : Type 0 where
  pub company : String
  pub catalog_item : String
  pub name : String
  pub net_price : String
  pub currency : String
  pub tax_rate : String
  pub billing_interval : BillingInterval
  pub start_date : String
  pub next_billing_date : String
  pub renewal_date : String
  pub end_date : String
  pub auto_renew : Bool
  pub operational_reference : String
  pub notes : String

-- The mutation that the drawer starts.
pub data SubscriptionRequest : Type 0 where
  update : (id : String) → SubscriptionInput → SubscriptionRequest
  create : CreateSubscriptionInput → SubscriptionRequest

unfoldable pub initial_form : (today : String) → Option CustomerSubscription → SubscriptionForm
initial_form today none = record {
  company = "";
  catalog_item = "";
  name = "";
  net_price = "0.00";
  currency = "EUR";
  tax_rate = "24.00";
  billing_interval = monthly;
  start_date = today;
  next_billing_date = today;
  renewal_date = "";
  end_date = "";
  auto_renew = true;
  operational_reference = "";
  notes = "";
}
initial_form today (some s) = record {
  company = s.company;
  catalog_item = option_or s.catalog_item "";
  name = s.name;
  net_price = s.net_price;
  currency = s.currency;
  tax_rate = s.tax_rate;
  billing_interval = s.billing_interval;
  start_date = s.start_date;
  next_billing_date = s.next_billing_date;
  renewal_date = option_or s.renewal_date "";
  end_date = option_or s.end_date "";
  auto_renew = s.auto_renew;
  operational_reference = s.operational_reference;
  notes = s.notes;
}

abbrev pub uses_catalog_defaults : Option CustomerSubscription → SubscriptionForm → Bool
uses_catalog_defaults subscription form = not (is_some subscription) && truthy form.catalog_item

abbrev pub take_defaults :
    Option CustomerSubscription → Option ServiceCatalogItem → SubscriptionForm → SubscriptionForm
take_defaults subscription none form = form
take_defaults (some s) (some item) form = form
take_defaults none (some item) form = record form {
  name = item.name;
  net_price = item.default_net_price;
  currency = item.currency;
  tax_rate = item.default_tax_rate;
  billing_interval = item.billing_interval;
}

unfoldable pub select_catalog_item :
    Option CustomerSubscription
    → List ServiceCatalogItem
    → String
    → SubscriptionForm
    → SubscriptionForm
select_catalog_item subscription catalog id form =
    let item = find (λ (candidate : ServiceCatalogItem). candidate.id == id) catalog in
    take_defaults subscription item (record form { catalog_item = id })

-- value || null
abbrev pub or_null : String → Option String
or_null s = if truthy s then some s else none

abbrev pub update_body : SubscriptionForm → SubscriptionInput
update_body form = record {
  company = form.company;
  catalog_item = or_null form.catalog_item;
  name = form.name;
  net_price = form.net_price;
  currency = form.currency;
  tax_rate = form.tax_rate;
  billing_interval = form.billing_interval;
  start_date = form.start_date;
  next_billing_date = form.next_billing_date;
  renewal_date = or_null form.renewal_date;
  end_date = or_null form.end_date;
  auto_renew = form.auto_renew;
  operational_reference = form.operational_reference;
  notes = form.notes;
}

abbrev from_catalog : SubscriptionForm → CreateSubscriptionInput
from_catalog form = record {
  company = form.company;
  start_date = form.start_date;
  catalog_item = some (some form.catalog_item);
  name = none;
  net_price = none;
  currency = none;
  tax_rate = none;
  billing_interval = none;
  next_billing_date = none;
  renewal_date = none;
  end_date = none;
  auto_renew = some form.auto_renew;
  operational_reference = some form.operational_reference;
  notes = some form.notes;
}

-- { ...form, ...normalizedDates }, with every key given
abbrev all_given : SubscriptionForm → CreateSubscriptionInput
all_given form = record {
  company = form.company;
  start_date = form.start_date;
  catalog_item = some (or_null form.catalog_item);
  name = some form.name;
  net_price = some form.net_price;
  currency = some form.currency;
  tax_rate = some form.tax_rate;
  billing_interval = some form.billing_interval;
  next_billing_date = some form.next_billing_date;
  renewal_date = some (or_null form.renewal_date);
  end_date = some (or_null form.end_date);
  auto_renew = some form.auto_renew;
  operational_reference = some form.operational_reference;
  notes = some form.notes;
}

unfoldable pub submit : Option CustomerSubscription → SubscriptionForm → SubscriptionRequest
submit (some s) form = update s.id (update_body form)
submit none form =
    if uses_catalog_defaults none form then create (from_catalog form) else create (all_given form)

-- What of the mutations is running.
pub record Pending : Type 0 where
  pub saving : Bool
  pub cancelling : Bool
  pub pausing : Bool
  pub resuming : Bool

-- The button that saves is not disabled.
unfoldable pub can_submit : Option CustomerSubscription → Pending → SubscriptionForm → Bool
can_submit subscription pending form = not (
    not (truthy form.company)
    || (not (uses_catalog_defaults subscription form) && not (truthy (trim form.name))
        || (pending.saving || (pending.cancelling || pending.resuming))))

-- Which buttons of the agreement the drawer shows.
unfoldable pub shows_pause : CustomerSubscription → Bool
shows_pause s = is_subscription_status s.effective_status active

abbrev has_date : Option String → Bool
has_date none = false
has_date (some d) = truthy d

unfoldable pub shows_resume : CustomerSubscription → Bool
shows_resume s =
    is_subscription_status s.effective_status cancelling && has_date s.cancellation_effective_date
    || is_subscription_status s.effective_status paused

unfoldable pub shows_end : CustomerSubscription → Bool
shows_end s =
    let is = is_subscription_status s.effective_status in
    not (is cancelling || (is cancelled || is expired))
