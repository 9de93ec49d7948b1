-- ===== src/Tests/Services.antt =====
-- The theorems on services, costing and queries.
use bubllio_crm.Prelude.{
  ℕ, String, Bool, true, false, ◌&&◌, none, some, List, [], ◌∷◌, ◌==◌, ◌≡◌, leb, nat_eq,
  if◌then◌else◌, arith, filter,
}
use bubllio_crm.Js.Map
use bubllio_crm.Js.Tally.{total}
use bubllio_crm.Js.Text.{truthy}
use bubllio_crm.Queries.{KeyPart, text, number, filters}
use bubllio_crm.Services.Billing.{
  open_balances, lookup-open_balances, currency_of, zero_balance, add_charge, is_owed, sorted_rows,
  sorted_rows_lem, IsByUrgency,
}
use bubllio_crm.Services.Subscription.{initial_form, submit, update}
use bubllio_crm.Services.Subscription.Laws.{submit-initial_form, editable}
use bubllio_crm.Costing.DealCosts.{
  initial_drawer, select_collaborator, selects_collaborator, start, step,
}
use bubllio_crm.Costing.DealCosts.Laws.{Reachable-Agrees}
use bubllio_crm.Types.Costing.{DealCost, estimated}
use bubllio_crm.Types.Subscription.{
  Charge, open_charge, PaymentStatus, due, overdue, monthly, CustomerSubscription,
  SubscriptionStatus,
}
use bubllio_crm.Tests.Data.{unary}

-- Keys are compared part by part, and a key reaches those that start with it.
abbrev same_part : KeyPart ℕ → KeyPart ℕ → Bool
same_part (text a) (text b) = a == b
same_part (number a) (number b) = nat_eq a b
same_part (filters a) (filters b) = nat_eq a b
same_part (text a) (number b) = false
same_part (text a) (filters b) = false
same_part (number a) (text b) = false
same_part (number a) (filters b) = false
same_part (filters a) (text b) = false
same_part (filters a) (number b) = false

abbrev starts : List (KeyPart ℕ) → List (KeyPart ℕ) → Bool
starts [] query = true
starts (k ∷ key) [] = false
starts (k ∷ key) (q ∷ query) = same_part k q && starts key query

abbrev charge : PaymentStatus → String → Charge
charge status due_date = record {
  id = "c";
  subscription = "s";
  subscription_name = "Hosting";
  company = "k";
  company_name = "Kafe";
  coverage_start = "";
  coverage_end = "";
  due_date = due_date;
  net_amount = "1";
  tax_rate = "0";
  tax_amount = "0";
  gross_amount = "1";
  paid_amount = "0";
  outstanding_amount = "1";
  currency = "EUR";
  state = open_charge;
  payment_status = status;
  payments = [];
}

abbrev charges : List Charge
charges = charge due "2026-01-02" ∷ charge overdue "" ∷ []

lookup-open_balances_example :
    Map.lookup "EUR" (open_balances unary charges)
    ≡ total currency_of
        (zero_balance unary)
        (add_charge unary)
        "EUR"
        none
        (filter (λ (c : Charge). c.currency == "EUR") (filter is_owed charges))
lookup-open_balances_example = (lookup-open_balances unary "EUR" charges).0

-- A missing date comes before one that is given.
abbrev rank : String → ℕ
rank s = if truthy s then 1 else 0

abbrev date_le : String → String → Bool
date_le a b = leb (rank a) (rank b)

date_total : (a b : String) → date_le a b ≡ false → date_le b a ≡ true
date_total a b h = ground arith

date_trans : (a b c : String) → date_le a b ≡ true → date_le b c ≡ true → date_le a c ≡ true
date_trans a b c h k = ground arith

sorted_rows_lem_example : IsByUrgency date_le (sorted_rows date_le charges)
sorted_rows_lem_example = (sorted_rows_lem date_le date_total date_trans is_owed charges).1

abbrev hosting : CustomerSubscription
hosting = record {
  id = "s";
  organization = "o";
  company = "k";
  company_name = "Kafe";
  catalog_item = some "i";
  catalog_item_name = "Hosting";
  assigned_to = none;
  assigned_to_name = "";
  name = "Hosting";
  net_price = "10";
  currency = "EUR";
  tax_rate = "24";
  tax_amount = "2.4";
  gross_price = "12.4";
  billing_interval = monthly;
  start_date = "2026-01-01";
  next_billing_date = "2026-02-01";
  renewal_date = some "2027-01-01";
  end_date = none;
  cancellation_effective_date = none;
  cancelled_at = none;
  auto_renew = true;
  status = SubscriptionStatus.active;
  effective_status = SubscriptionStatus.active;
  operational_reference = "";
  notes = "";
}

submit-initial_form_example :
    submit (some hosting) (initial_form "2026-03-01" (some hosting)) ≡ update "s" (editable hosting)
submit-initial_form_example = (submit-initial_form "2026-03-01" hosting [] "j").0

abbrev print_cost : DealCost
print_cost = record {
  id = "p";
  deal = "d";
  collaborator = "m";
  collaborator_name = "Maria";
  collaborator_service = none;
  service_name = "Print";
  description = "";
  quantity = "2";
  unit_cost = "5";
  currency = "EUR";
  total_cost = "10";
  status = estimated;
}

Reachable-Agrees_example :
    (select_collaborator "EUR" "k" (initial_drawer "EUR" (some print_cost))).form.collaborator ≡ "k"
unfolding select_collaborator
Reachable-Agrees_example =
    Reachable-Agrees {currency = "EUR"} {cost = some print_cost}
      (step start (selects_collaborator "k" (initial_drawer "EUR" (some print_cost))))
