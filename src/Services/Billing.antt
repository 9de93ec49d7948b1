-- ===== src/Services/Billing.antt =====
-- The charges of the billing page (frontend/src/pages/Services/ServicesPage.tsx): the open balances,
-- the overdue charges, and the order of the table. Currencies are codes, none of which is the name
-- of a property that every object has.
use bubllio_crm.Prelude.{
  suc, [], ◌∷◌, ◌<◌, ◌⊎◌, refl, sym, ◌∙◌, All, Bool-cases, inl, inr, ℕ, String, Bool, true, false,
  not, ◌||◌, none, List, ◌==◌, ◌≡◌, ◌≤◌, arith, filter, ltb, nat_eq, if◌then◌else◌, count,
}
use bubllio_crm.Js.Map
use bubllio_crm.Js.Map.{entries_of}
use bubllio_crm.Js.Numbers.{Numbers}
use bubllio_crm.Js.Sort.Compare.{sort_with, IsOrdered, sort_with-IsOrdered, count-sort_with}
use bubllio_crm.Js.Tally.{tally, total, lookup-tally, entries_of-tally}
use bubllio_crm.Types.Subscription.{
  Charge, ChargeState, open_charge, PaymentStatus, payment_status_name, upcoming, due, overdue,
  partially_paid, paid,
}

-- charge.payment_status === 'overdue'
abbrev pub is_overdue : Charge → Bool
is_overdue charge = payment_status_name charge.payment_status == "overdue"

-- ['due', 'overdue', 'partially_paid'].includes(charge.payment_status)
abbrev pub is_owed : Charge → Bool
is_owed charge =
    let status = payment_status_name charge.payment_status in
    status == "due" || (status == "overdue" || status == "partially_paid")

abbrev pub currency_of : Charge → String
currency_of charge = charge.currency

module _ (numbers : Numbers) where
  open numbers use {Num, of_nat, of_text, add}

  abbrev pub zero_balance : String → Num
  zero_balance currency = of_nat 0

  abbrev pub add_charge : Num → Charge → Num
  add_charge balance charge = add balance (of_text charge.outstanding_amount)

  -- The entries of `openBalances`.
  unfoldable pub open_balances : List Charge → List (String × Num)
  open_balances charges =
      tally currency_of zero_balance add_charge Map.empty (filter is_owed charges)

  -- The open balance of a currency is the sum of the outstanding amounts of the charges in it that
  -- are due, overdue or paid in part, in the order of the list, and each currency is shown once; one
  -- in which nothing is owed is not shown.
  pub lookup-open_balances :
      (currency : String) (charges : List Charge)
      → (Map.lookup currency (open_balances charges)
          ≡ total currency_of zero_balance add_charge currency none
              (filter (λ (c : Charge). c.currency == currency) (filter is_owed charges)))
        × (entries_of currency (open_balances charges) ≤ 1)
  unfolding open_balances Map.lookup
  lookup-open_balances currency charges = (
    lookup-tally currency_of zero_balance add_charge currency Map.empty (filter is_owed charges),
    entries_of-tally currency_of zero_balance add_charge currency Map.empty (filter is_owed charges)
        (omega arith),
  )

  -- `is_zero n` is `n === 0`.
  module _ (is_zero : Num → Bool) where
    -- The button that records a payment is not disabled.
    abbrev is_open_charge : ChargeState → Bool
    is_open_charge open_charge = true
    is_open_charge ChargeState.waived = false
    is_open_charge ChargeState.cancelled = false

    unfoldable pub can_pay : Charge → Bool
    can_pay row = not (not (is_open_charge row.state) || is_zero (of_text row.outstanding_amount))

abbrev pub priority : PaymentStatus → ℕ
priority overdue = 0
priority partially_paid = 1
priority due = 2
priority upcoming = 3
priority paid = 4
priority PaymentStatus.waived = 5
priority PaymentStatus.cancelled = 6

-- The statuses by their names, the most urgent first.
abbrev pub most_urgent_first : List String
most_urgent_first =
    "overdue" ∷ "partially_paid" ∷ "due" ∷ "upcoming" ∷ "paid" ∷ "waived" ∷ "cancelled" ∷ []

-- How many names come before one in a list.
abbrev pub place : String → List String → ℕ
place name [] = 0
place name (n ∷ names) = let rest = place name names in if n == name then 0 else suc rest

abbrev pub urgency : Charge → ℕ
urgency c = place (payment_status_name c.payment_status) most_urgent_first

-- A charge stands rightly before another: its status is more urgent, or of the same urgency and it is
-- not due later.
abbrev pub ComesBefore : (String → String → Bool) → Charge → Charge → Type 0
ComesBefore date_le x y =
    (urgency x < urgency y) ⊎ ((urgency x ≡ urgency y) × (date_le x.due_date y.due_date ≡ true))

abbrev pub IsByUrgency : (String → String → Bool) → List Charge → Type 0
IsByUrgency date_le [] = Unit
IsByUrgency date_le (x ∷ rows) = All (λ y. ComesBefore date_le x y) rows × IsByUrgency date_le rows

place-priority : (s : PaymentStatus) → place (payment_status_name s) most_urgent_first ≡ priority s
place-priority upcoming = refl
place-priority due = refl
place-priority overdue = refl
place-priority partially_paid = refl
place-priority paid = refl
place-priority PaymentStatus.waived = refl
place-priority PaymentStatus.cancelled = refl

nat_eq→eq : (a b : ℕ) → nat_eq a b ≡ true → a ≡ b
nat_eq→eq a b h = ground arith

lower :
    (p q : ℕ) (dates : Bool)
    → nat_eq p q ≡ false
    → (if nat_eq p q then dates else ltb p q) ≡ true
    → p < q
lower p q dates differ h = ground arith

-- `date_le a b` is `a.localeCompare(b) <= 0`.
module _ (date_le : String → String → Bool) where
  -- The comparison of two rows is at most 0.
  abbrev pub row_le : Charge → Charge → Bool
  row_le left right =
      let p = priority left.payment_status in
      let q = priority right.payment_status in
      if nat_eq p q then date_le left.due_date right.due_date else ltb p q

  unfoldable pub sorted_rows : List Charge → List Charge
  sorted_rows = sort_with row_le

  module _ (date_total : (a b : String) → date_le a b ≡ false → date_le b a ≡ true)
      (date_trans : (a b c : String)
        → date_le a b ≡ true
        → date_le b c ≡ true
        → date_le a c ≡ true) where
    row_le_total : (x y : Charge) → row_le x y ≡ false → row_le y x ≡ true
    row_le_total x y h = ground (arith, date_total x.due_date y.due_date)

    row_le_trans : (x y z : Charge) → row_le x y ≡ true → row_le y z ≡ true → row_le x z ≡ true
    row_le_trans x y z h k = ground (arith, date_trans x.due_date y.due_date z.due_date)

    sort-row_le : (rows : List Charge) → IsOrdered row_le (sorted_rows rows)
    unfolding sorted_rows
    sort-row_le rows = sort_with-IsOrdered row_le row_le_total row_le_trans rows

    comes_before : (x y : Charge) → row_le x y ≡ true → ComesBefore date_le x y
    comes_before x y h =
        elim (Bool-cases (nat_eq (priority x.payment_status) (priority y.payment_status))) [
          | inl same ↦ inr (
            place-priority x.payment_status
                ∙ nat_eq→eq _ _ same
                ∙ sym (place-priority y.payment_status),
            ground (arith, same, h),
          )
          | inr differ ↦ inl (
              omega (
                arith,
                place-priority x.payment_status,
                place-priority y.payment_status,
                lower (priority x.payment_status) (priority y.payment_status) _ differ h,
              ))
        ]

    by_urgency_below :
        (x : Charge) (rows : List Charge)
        → All (λ y. row_le x y ≡ true) rows
        → All (λ y. ComesBefore date_le x y) rows
    by_urgency_below x [] h = tt
    by_urgency_below x (y ∷ rows) (p, h) = (comes_before x y p, by_urgency_below x rows h)

    by_urgency : (rows : List Charge) → IsOrdered row_le rows → IsByUrgency date_le rows
    by_urgency [] h = tt
    by_urgency (x ∷ rows) (below, h) = (by_urgency_below x rows below, by_urgency rows h)

    -- Where `localeCompare` orders the dates: the table shows each charge as often as it was given, in
    -- the order overdue, paid in part, due, upcoming, paid, waived and cancelled, and within a status
    -- with no charge before one that is due earlier.
    pub sorted_rows_lem :
        (p : Charge → Bool) (rows : List Charge)
        → (count p (sorted_rows rows) ≡ count p rows) × IsByUrgency date_le (sorted_rows rows)
    unfolding sorted_rows
    sorted_rows_lem p rows =
        (count-sort_with row_le p rows, by_urgency (sorted_rows rows) (sort-row_le rows))
