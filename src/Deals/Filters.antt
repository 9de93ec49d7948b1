-- ===== src/Deals/Filters.antt =====
-- The filters that the deals board asks the server for
-- (frontend/src/features/deals/hooks/useDealBoardController.ts, `viewFilters` and `filters`).
use Prim.Native.String
use bubllio_crm.Prelude.{String, Bool, true, false, Option, none, some}
use bubllio_crm.Types.Deal.{DealStage}
use bubllio_crm.Deals.Search.{
  DealSearch, DealView, active, all, mine, no_next_action, closing_this_month, archived,
  current_view,
}

-- `Date` as the filters use it: the parts of a date as texts of numbers, the month counted from 1,
-- and the first and the last day of a date's month.
pub record Months : Type 1 where
  pub Date : Type 0
  pub full_year : Date → String
  pub month_number : Date → String
  pub day_of_month : Date → String
  pub first_of_month : Date → Date
  pub last_of_month : Date → Date

pub data ArchivedFilter : Type 0 where
  only_active with_archived only_archived : ArchivedFilter

-- A filter that is not given is `none`, or `false` for the two with one value.
pub record DealFilters : Type 0 where
  pub search : String
  pub stage : Option DealStage
  pub archived : ArchivedFilter
  pub assigned_to_me : Bool
  pub next_action_missing : Bool
  pub expected_close_from : Option String
  pub expected_close_to : Option String

-- text.padStart(2, '0')
abbrev pub pad_start : String → String
pad_start String.[] = "00"
pad_start (String.◌∷◌ c String.[]) = String.◌∷◌ "0" (String.◌∷◌ c String.[])
pad_start (String.◌∷◌ c (String.◌∷◌ d s)) = String.◌∷◌ c (String.◌∷◌ d s)

module _ (months : Months) where
  open months use {Date, full_year, month_number, day_of_month, first_of_month, last_of_month}

  abbrev pub format : Date → String
  format d = String.◌++◌ (full_year d) (
      String.◌++◌ "-"
        (String.◌++◌ (pad_start (month_number d)) (String.◌++◌ "-" (pad_start (day_of_month d)))))

  -- The debounced text is given.
  abbrev plain : String → Option DealStage → ArchivedFilter → DealFilters
  plain text lane kept = record {
    search = text;
    stage = lane;
    archived = kept;
    assigned_to_me = false;
    next_action_missing = false;
    expected_close_from = none;
    expected_close_to = none;
  }

  abbrev of_view : Date → DealFilters → DealView → DealFilters
  of_view now f mine = record f { assigned_to_me = true }
  of_view now f no_next_action = record f { next_action_missing = true }
  of_view now f closing_this_month = record f {
    expected_close_from = some (format (first_of_month now));
    expected_close_to = some (format (last_of_month now));
  }
  of_view now f active = f
  of_view now f all = record f { archived = with_archived }
  of_view now f archived = record f { archived = only_archived }

  unfoldable pub deal_filters : Date → String → DealSearch → DealFilters
  deal_filters now deferred s = of_view now (plain deferred s.stage only_active) (current_view s)
