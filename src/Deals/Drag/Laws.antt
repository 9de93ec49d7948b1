-- ===== src/Deals/Drag/Laws.antt =====
-- The guards on drag data and the data that the board attaches
-- (frontend/src/features/deals/dealBoardDnd.ts).
use mathlib.Core.Bool.{and-eq-true_iff}
use bubllio_crm.Prelude.{
  ℕ, String, Bool, true, Option, none, some, ◌≡◌, refl, Bool-cases, inl, inr, ◌||◌, ◌&&◌,
}
use bubllio_crm.Js.Value.{
  Value, undefined, str, obj, Fields, get, one_of, is_string, is_null, as_record,
}
use bubllio_crm.Js.Patch.{is_some}
use bubllio_crm.Types.Deal.{Deal, DealStage, stage_name, deal_stages, spelled-stage_name}
use bubllio_crm.Deals.Drag.{
  deal_from_drag_data, deal_stage_from_drag_data, deal_fields, card_data, lane_data, text_of,
  is_deal_record, nullable, as_deal,
}

nullable_ok :
    (N : Type 0) (o : Option String)
    → (is_string (nullable {N = N} o) || is_null (nullable {N = N} o)) ≡ true
nullable_ok N none = refl
nullable_ok N (some s) = refl

module _ {N : Type 0} (of_nat : ℕ → N) where
  -- A card's data give back its deal and its stage.
  pub from_drag_data-card_data :
      (d : Deal)
      → (deal_from_drag_data (card_data of_nat d) ≡ some (deal_fields of_nat d))
        × (deal_stage_from_drag_data (card_data of_nat d) ≡ some d.stage)
        × (text_of "id" (deal_fields of_nat d) ≡ d.id)
        × (text_of "lost_reason" (deal_fields of_nat d) ≡ d.lost_reason)
  unfolding card_data deal_from_drag_data deal_stage_from_drag_data
  from_drag_data-card_data d = (
    rw (
      spelled-stage_name d.stage,
      nullable_ok N d.expected_close_date,
      nullable_ok N d.archived_at,
    ),
    spelled-stage_name d.stage,
    refl,
    refl,
  )

-- A lane's data give back its stage, and no deal.
pub from_drag_data-lane_data :
    {N : Type 0} (stage : DealStage)
    → (deal_stage_from_drag_data (lane_data {N = N} stage) ≡ some stage)
      × (deal_from_drag_data (lane_data {N = N} stage) ≡ none)
unfolding lane_data deal_from_drag_data deal_stage_from_drag_data
from_drag_data-lane_data stage = (spelled-stage_name stage, refl)

string_of_is_string : {N : Type 0} (v : Value N) → is_string v ≡ true → (s : String) × (v ≡ str s)
string_of_is_string (str s) h = (s, refl)
string_of_is_string undefined h = absurd (cc h)
string_of_is_string _ h = absurd (cc h)

some_of_is_some {ℓ} : {A : Type ℓ} (o : Option A) → is_some o ≡ true → (a : A) × (o ≡ some a)
some_of_is_some none h = absurd (cc h)
some_of_is_some (some a) h = (a, refl)

module _ {N : Type 0} where
  as_deal_sound :
      (o : Option (Fields N)) (deal : Fields N) → as_deal o ≡ some deal → is_deal_record deal ≡ true
  as_deal_sound none deal e = absurd (cc e)
  as_deal_sound (some value) deal e = elim (Bool-cases (is_deal_record value)) [
    | inl ok ↦ let same : value ≡ deal = cc (rw ok at e) in rw (← same) ok
    | inr bad ↦ absurd (cc (rw bad at e))
  ]

  deal_from_drag_data-is_deal_record :
      (source : Value N) (deal : Fields N)
      → deal_from_drag_data source ≡ some deal
      → is_deal_record deal ≡ true
  unfolding deal_from_drag_data
  deal_from_drag_data-is_deal_record (obj text fs) deal e =
      as_deal_sound (as_record (get "deal" fs)) deal e
  deal_from_drag_data-is_deal_record undefined deal e = absurd (cc e)
  deal_from_drag_data-is_deal_record _ deal e = absurd (cc e)

  abbrev dates_ok : Fields N → Bool
  dates_ok value =
      (is_string (get "expected_close_date" value) || is_null (get "expected_close_date" value))
      && (is_string (get "archived_at" value) || is_null (get "archived_at" value))

  -- An object that is accepted as a deal has texts for its id, title and lost reason, and a stage
  -- of the board, whatever else it is.
  pub deal_from_drag_data_sound :
      (source : Value N) (deal : Fields N)
      → deal_from_drag_data source ≡ some deal
      → ((s : String) × (get "id" deal ≡ str s))
        × ((s : String) × (get "title" deal ≡ str s))
        × ((s : String) × (get "lost_reason" deal ≡ str s))
        × ((stage : DealStage) × (one_of stage_name deal_stages (get "stage" deal) ≡ some stage))
  deal_from_drag_data_sound source deal e =
      let ok = deal_from_drag_data-is_deal_record source deal e in
      let (id, rest1) = (and-eq-true_iff (is_string (get "id" deal)) _).0 ok in
      let (stage_text, rest2) = (and-eq-true_iff _ _).0 rest1 in
      let (stage, rest3) = (and-eq-true_iff _ _).0 rest2 in
      let (title, rest4) = (and-eq-true_iff (is_string (get "title" deal)) _).0 rest3 in
      let (company_name, rest5) =
        (and-eq-true_iff (is_string (get "company_name" deal)) _).0 rest4 in
      let (currency, rest6) = (and-eq-true_iff (is_string (get "currency" deal)) _).0 rest5 in
      let (net_value, rest7) = (and-eq-true_iff (is_string (get "net_value" deal)) _).0 rest6 in
      let (lost_reason, dates) =
        (and-eq-true_iff (is_string (get "lost_reason" deal)) (dates_ok deal)).0 rest7 in
      (
        string_of_is_string (get "id" deal) id,
        string_of_is_string (get "title" deal) title,
        string_of_is_string (get "lost_reason" deal) lost_reason,
        some_of_is_some (one_of stage_name deal_stages (get "stage" deal)) stage,
      )
