-- ===== src/Types/Subscription.antt =====
-- frontend/src/types/subscription.types.ts
use bubllio_crm.Prelude.{ℕ, String, Bool, Option, List, ◌==◌}

pub data BillingInterval : Type 0 where
  one_off monthly quarterly semiannual annual : BillingInterval

pub data SubscriptionStatus : Type 0 where
  active paused cancelling cancelled expired : SubscriptionStatus

-- The text that a status is.
abbrev pub subscription_status_name : SubscriptionStatus → String
subscription_status_name active = "active"
subscription_status_name paused = "paused"
subscription_status_name cancelling = "cancelling"
subscription_status_name cancelled = "cancelled"
subscription_status_name expired = "expired"

-- `===` of two statuses
abbrev pub is_subscription_status : SubscriptionStatus → SubscriptionStatus → Bool
is_subscription_status a b = subscription_status_name a == subscription_status_name b

pub record ServiceCatalogItem : Type 0 where
  pub id : String
  pub organization : String
  pub name : String
  pub description : String
  pub internal_code : String
  pub default_net_price : String
  pub currency : String
  pub default_tax_rate : String
  pub billing_interval : BillingInterval
  pub is_active : Bool

pub record CustomerSubscription : Type 0 where
  pub id : String
  pub organization : String
  pub company : String
  pub company_name : String
  pub catalog_item : Option String
  pub catalog_item_name : String
  pub assigned_to : Option ℕ
  pub assigned_to_name : String
  pub name : String
  pub net_price : String
  pub currency : String
  pub tax_rate : String
  pub tax_amount : String
  pub gross_price : String
  pub billing_interval : BillingInterval
  pub start_date : String
  pub next_billing_date : String
  pub renewal_date : Option String
  pub end_date : Option String
  pub cancellation_effective_date : Option String
  pub cancelled_at : Option String
  pub auto_renew : Bool
  pub status : SubscriptionStatus
  pub effective_status : SubscriptionStatus
  pub operational_reference : String
  pub notes : String

pub record Payment : Type 0 where
  pub id : String
  pub amount : String
  pub paid_date : String
  pub payment_method : String
  pub external_reference : String
  pub note : String
  pub recorded_by_name : String
  pub created_at : String

-- `state`
pub data ChargeState : Type 0 where
  open_charge waived cancelled : ChargeState

-- `payment_status`
pub data PaymentStatus : Type 0 where
  upcoming due overdue partially_paid paid waived cancelled : PaymentStatus

abbrev pub payment_status_name : PaymentStatus → String
payment_status_name upcoming = "upcoming"
payment_status_name due = "due"
payment_status_name overdue = "overdue"
payment_status_name partially_paid = "partially_paid"
payment_status_name paid = "paid"
payment_status_name waived = "waived"
payment_status_name cancelled = "cancelled"

pub record Charge : Type 0 where
  pub id : String
  pub subscription : String
  pub subscription_name : String
  pub company : String
  pub company_name : String
  pub coverage_start : String
  pub coverage_end : String
  pub due_date : String
  pub net_amount : String
  pub tax_rate : String
  pub tax_amount : String
  pub gross_amount : String
  pub paid_amount : String
  pub outstanding_amount : String
  pub currency : String
  pub state : ChargeState
  pub payment_status : PaymentStatus
  pub payments : List Payment

pub record CatalogItemInput : Type 0 where
  pub name : String
  pub description : String
  pub internal_code : String
  pub default_net_price : String
  pub currency : String
  pub default_tax_rate : String
  pub billing_interval : BillingInterval
  pub is_active : Bool

pub record SubscriptionInput : Type 0 where
  pub company : String
  pub catalog_item : Option String
  pub name : String
  pub net_price : String
  pub currency : String
  pub tax_rate : String
  pub billing_interval : BillingInterval
  pub start_date : String
  pub next_billing_date : String
  pub renewal_date : Option String
  pub end_date : Option String
  pub auto_renew : Bool
  pub operational_reference : String
  pub notes : String

-- A key that is not given is `none`; `catalog_item`, `renewal_date` and `end_date` may be given
-- as null.
pub record CreateSubscriptionInput : Type 0 where
  pub company : String
  pub start_date : String
  pub catalog_item : Option (Option String)
  pub name : Option String
  pub net_price : Option String
  pub currency : Option String
  pub tax_rate : Option String
  pub billing_interval : Option BillingInterval
  pub next_billing_date : Option String
  pub renewal_date : Option (Option String)
  pub end_date : Option (Option String)
  pub auto_renew : Option Bool
  pub operational_reference : Option String
  pub notes : Option String

pub record PaymentInput : Type 0 where
  pub amount : String
  pub paid_date : String
  pub payment_method : String
  pub external_reference : String
  pub note : String
