-- ===== src/Deals/Forecast.antt =====
-- The forecast of the deals board: open deals, their totals per currency, and the next task of each
-- deal (frontend/src/features/deals/hooks/useDealBoardController.ts, `forecasts` and
-- `nextActionByDeal`).
pub mod ByCurrency
pub mod NextAction
use bubllio_crm.Prelude.{
  ℕ, String, Bool, not, ◌||◌, Option, none, some, List, [], ◌∷◌, if◌then◌else◌, filter, length, map,
}
use bubllio_crm.Js.Map
use bubllio_crm.Js.Numbers.{Numbers}
use bubllio_crm.Js.Patch.{option_or, is_some}
use bubllio_crm.Js.Text.{truthy}
use bubllio_crm.Types.Deal.{Deal, is_stage, won, lost}
use bubllio_crm.Types.Task.{CrmTask}

-- One round of the loop of `nextActionByDeal`.
abbrev pub next_action_step :
    List (String × CrmTask) → CrmTask → Option String → List (String × CrmTask)
next_action_step result task none = result
next_action_step result task (some deal) =
    if not (truthy deal) || is_some (Map.lookup deal result)
    then result
    else Map.set deal task result

next_action_loop : List (String × CrmTask) → List CrmTask → List (String × CrmTask)
next_action_loop result [] = result
next_action_loop result (task ∷ tasks) =
    next_action_loop (next_action_step result task task.deal) tasks

unfoldable pub next_action_by_deal : List CrmTask → List (String × CrmTask)
unfolding next_action_loop
next_action_by_deal tasks = next_action_loop Map.empty tasks

-- !['won', 'lost'].includes(deal.stage)
abbrev pub is_open : Deal → Bool
is_open deal = not (is_stage deal.stage won || is_stage deal.stage lost)

module _ (numbers : Numbers) where
  open numbers use {Num, of_nat, of_text, add, mul, div}

  pub record Totals : Type 0 where
    pub currency : String
    pub total : Num
    pub weighted : Num

  abbrev no_totals : String → Totals
  no_totals currency = record { currency = currency; total = of_nat 0; weighted = of_nat 0 }

  abbrev pub add_deal : Totals → Deal → Totals
  add_deal current deal = record current {
    total = add current.total (of_text deal.net_value);
    weighted =
        add current.weighted
          (div (mul (of_text deal.net_value) (of_nat deal.probability)) (of_nat 100));
  }

  -- One round of the loop of `forecasts`.
  abbrev pub totals_step : List (String × Totals) → Deal → List (String × Totals)
  totals_step totals deal =
      let current = option_or (Map.lookup deal.currency totals) (no_totals deal.currency) in
      Map.set deal.currency (add_deal current deal) totals

  totals_loop : List (String × Totals) → List Deal → List (String × Totals)
  totals_loop totals [] = totals
  totals_loop totals (deal ∷ deals) = totals_loop (totals_step totals deal) deals

  pub record Forecast : Type 0 where
    pub open_deals : List Deal
    pub without_next_action : ℕ
    pub totals : List Totals

  unfoldable pub open_totals : List Deal → List (String × Totals)
  unfolding totals_loop
  open_totals rows = totals_loop Map.empty (filter is_open rows)

  unfoldable pub forecasts : List (String × CrmTask) → List Deal → Forecast
  unfolding open_totals
  forecasts next_action rows =
      let open_rows = filter is_open rows in
      record {
        open_deals = open_rows;
        without_next_action =
            length (filter (λ (d : Deal). not (is_some (Map.lookup d.id next_action))) open_rows);
        totals = map (λ e. e.1) (open_totals rows);
      }
