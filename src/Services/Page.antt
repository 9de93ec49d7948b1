-- ===== src/Services/Page.antt =====
-- The state of the services pages (frontend/src/pages/Services/ServicesPage.tsx), and the drawers of
-- the catalog and of payments (CatalogDrawer.tsx and PaymentDrawer.tsx). `can_manage` is
-- `canCreateRecords` of frontend/src/context/WorkspaceContext.ts.
use bubllio_crm.Prelude.{
  String, Bool, true, false, not, ◌&&◌, ◌||◌, Option, none, some, ◌==◌, ◌≡◌, arith, if◌then◌else◌,
}
use bubllio_crm.Drawers.{Editor, closed, adding, editing, is_open, Save, save_as}
use bubllio_crm.Js.Text.{truthy, trim}
use bubllio_crm.Types.Subscription.{
  ServiceCatalogItem, CustomerSubscription, Charge, CatalogItemInput, PaymentInput, monthly,
}

pub data ServicesView : Type 0 where
  customer_services billing catalog : ServicesView

abbrev pub is_catalog : ServicesView → Bool
is_catalog catalog = true
is_catalog customer_services = false
is_catalog billing = false

abbrev pub is_billing : ServicesView → Bool
is_billing billing = true
is_billing customer_services = false
is_billing catalog = false

-- organization.current_user_role === null || ['owner', 'admin', 'member'].includes(…)
abbrev pub can_create_records : Option String → Bool
can_create_records none = true
can_create_records (some role) = role == "owner" || (role == "admin" || role == "member")

pub record PageState : Type 0 where
  pub catalog_drawer : Editor ServiceCatalogItem
  pub subscription_drawer : Editor CustomerSubscription
  pub payment_charge : Option Charge

abbrev pub initial_page : PageState
initial_page = record {
  catalog_drawer = closed;
  subscription_drawer = closed;
  payment_charge = none;
}

-- The button of the heading, which the page shows for those who manage, but not for billing.
unfoldable pub shows_add : Bool → ServicesView → Bool
shows_add can_manage view = not (is_billing view) && can_manage

unfoldable pub add : ServicesView → PageState → PageState
add view s =
    if is_catalog view
    then record s { catalog_drawer = adding }
    else record s { subscription_drawer = adding }

abbrev pub edit_item : ServiceCatalogItem → PageState → PageState
edit_item item s = record s { catalog_drawer = editing item }

abbrev pub edit_subscription : CustomerSubscription → PageState → PageState
edit_subscription row s = record s { subscription_drawer = editing row }

abbrev pub pay : Charge → PageState → PageState
pay row s = record s { payment_charge = some row }

abbrev pub close_catalog_drawer : PageState → PageState
close_catalog_drawer s = record s { catalog_drawer = closed }

abbrev pub close_subscription_drawer : PageState → PageState
close_subscription_drawer s = record s { subscription_drawer = closed }

abbrev pub close_payment_drawer : PageState → PageState
close_payment_drawer s = record s { payment_charge = none }

-- Which queries run.
unfoldable pub catalog_enabled : ServicesView → PageState → Bool
catalog_enabled view s = is_catalog view || is_open s.subscription_drawer

unfoldable pub subscriptions_enabled : ServicesView → Bool
subscriptions_enabled view = not (is_catalog view)

unfoldable pub charges_enabled : ServicesView → Bool
charges_enabled view = is_billing view

unfoldable pub companies_enabled : PageState → Bool
companies_enabled s = is_open s.subscription_drawer

-- What a query holds: its data, and the error of its last run.
pub record Query : Type 0 where
  pub has_data : Bool
  pub has_error : Bool

-- What stands for an open subscription drawer.
unfoldable pub shows_failure : PageState → Query → Query → Bool
shows_failure s companies items =
    is_open s.subscription_drawer && (companies.has_error || items.has_error)

unfoldable pub shows_loading : PageState → Query → Query → Bool
shows_loading s companies items =
    is_open s.subscription_drawer
    && (not companies.has_data || not items.has_data)
    && not companies.has_error
    && not items.has_error

unfoldable pub shows_drawer : PageState → Query → Query → Bool
shows_drawer s companies items =
    is_open s.subscription_drawer && companies.has_data && items.has_data

-- CatalogDrawer
unfoldable pub catalog_form : Option ServiceCatalogItem → CatalogItemInput
catalog_form none = record {
  name = "";
  description = "";
  internal_code = "";
  default_net_price = "0.00";
  currency = "EUR";
  default_tax_rate = "24.00";
  billing_interval = monthly;
  is_active = true;
}
catalog_form (some item) = record {
  name = item.name;
  description = item.description;
  internal_code = item.internal_code;
  default_net_price = item.default_net_price;
  currency = item.currency;
  default_tax_rate = item.default_tax_rate;
  billing_interval = item.billing_interval;
  is_active = item.is_active;
}

abbrev pub submit_item : Option ServiceCatalogItem → CatalogItemInput → Save CatalogItemInput
submit_item = save_as (λ (i : ServiceCatalogItem). i.id)

abbrev pub can_submit_item : Bool → CatalogItemInput → Bool
can_submit_item pending form = not (not (truthy (trim form.name)) || pending)

-- PaymentDrawer: the form, and the charge that is paid with what is sent
unfoldable pub payment_form : (today : String) → Charge → PaymentInput
payment_form today charge = record {
  amount = charge.outstanding_amount;
  paid_date = today;
  payment_method = "";
  external_reference = "";
  note = "";
}

abbrev pub can_record : Bool → PaymentInput → Bool
can_record pending form = not (not (truthy form.amount) || pending)

abbrev pub record_payment : Charge → PaymentInput → String × PaymentInput
record_payment charge form = (charge.id, form)

-- Whatever data and errors the two queries of the subscription drawer have: both run while the drawer
-- is open, and just then the page shows a failure, the loading mark or the drawer; it never shows the
-- mark together with one of the others.
pub subscription_drawer_lem :
    (view : ServicesView) (s : PageState) (companies items : Query)
    → ((shows_failure s companies items
          || shows_loading s companies items
          || shows_drawer s companies items)
        ≡ (companies_enabled s && catalog_enabled view s))
      × ((shows_loading s companies items
            && (shows_failure s companies items || shows_drawer s companies items))
          ≡ false)
unfolding shows_failure shows_loading shows_drawer companies_enabled catalog_enabled
subscription_drawer_lem view s companies items = (ground arith, ground arith)
