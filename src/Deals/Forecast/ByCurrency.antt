-- ===== src/Deals/Forecast/ByCurrency.antt =====
-- The totals of the forecast by currency (`forecasts` of
-- frontend/src/features/deals/hooks/useDealBoardController.ts).
use bubllio_crm.Prelude.{
  String, Bool, Option, none, List, [], ◌∷◌, ◌==◌, ◌≡◌, ◌≤◌, refl, arith, filter,
}
use bubllio_crm.Js.Map
use bubllio_crm.Js.Map.{entries_of}
use bubllio_crm.Js.Numbers.{Numbers}
use bubllio_crm.Js.Tally.{tally, total, lookup-tally, entries_of-tally}
use bubllio_crm.Types.Deal.{Deal}
use bubllio_crm.Deals.Forecast.{
  Totals, no_totals, add_deal, totals_step, totals_loop, open_totals, is_open,
}

abbrev currency_of : Deal → String
currency_of deal = deal.currency

abbrev pub in_currency : String → Deal → Bool
in_currency currency deal = deal.currency == currency

module _ (numbers : Numbers) where
  -- The sums over a list of deals, in the order of the list, from given ones; none for no deal.
  abbrev pub sum_of : String → Option (Totals numbers) → List Deal → Option (Totals numbers)
  sum_of = total currency_of (no_totals numbers) (add_deal numbers)

  totals_loop-tally :
      (totals : List (String × Totals numbers)) (ds : List Deal)
      → totals_loop numbers totals ds
        ≡ tally currency_of (no_totals numbers) (add_deal numbers) totals ds
  unfolding totals_loop
  totals_loop-tally totals [] = refl
  totals_loop-tally totals (d ∷ ds) = totals_loop-tally (totals_step numbers totals d) ds

  -- The totals of a currency are the sums over the open deals in that currency, in the order of the
  -- list; a currency that no open deal has is not shown.
  pub lookup-open_totals :
      (currency : String) (rows : List Deal)
      → Map.lookup currency (open_totals numbers rows)
        ≡ sum_of currency none (filter (in_currency currency) (filter is_open rows))
  unfolding open_totals Map.lookup
  lookup-open_totals currency rows = rw (totals_loop-tally Map.empty (filter is_open rows)) (
      lookup-tally currency_of (no_totals numbers) (add_deal numbers) currency Map.empty
        (filter is_open rows))

  -- No currency is shown twice.
  pub entries_of-open_totals :
      (currency : String) (rows : List Deal) → entries_of currency (open_totals numbers rows) ≤ 1
  unfolding open_totals
  entries_of-open_totals currency rows = rw (totals_loop-tally Map.empty (filter is_open rows)) (
      entries_of-tally currency_of (no_totals numbers) (add_deal numbers) currency Map.empty
        (filter is_open rows) (omega arith))
