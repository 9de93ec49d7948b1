-- ===== src/Deals/Drag.antt =====
-- What the deals board reads from a drag source and from a drop target
-- (frontend/src/features/deals/dealBoardDnd.ts, features/deals/components/DealCard.tsx and
-- DealLane.tsx for the data that the board attaches).
pub mod Laws
use bubllio_crm.Prelude.{
  String, Bool, true, false, ◌&&◌, ◌||◌, Option, none, some, if◌then◌else◌, ◌==◌, ℕ,
}
use bubllio_crm.Js.Value.{
  Value, undefined, null, bool, num, str, obj, Fields, end, field, get, as_string, is_string,
  is_null, as_record, one_of, of_string, spelled,
}
use bubllio_crm.Js.Patch.{option_or, is_some}
use bubllio_crm.Types.Deal.{Deal, DealStage, stage_name, deal_stages}

module _ {N : Type 0} where
  -- The tests of `isDeal` on the properties of an object.
  abbrev pub is_deal_record : Fields N → Bool
  is_deal_record value =
      is_string (get "id" value)
      && (is_string (get "stage" value)
          && (is_some (one_of stage_name deal_stages (get "stage" value))
              && (is_string (get "title" value)
                  && (is_string (get "company_name" value)
                      && (is_string (get "currency" value)
                          && (is_string (get "net_value" value)
                              && (is_string (get "lost_reason" value)
                                  && ((is_string (get "expected_close_date" value)
                                        || is_null (get "expected_close_date" value))
                                      && (is_string (get "archived_at" value)
                                          || is_null (get "archived_at" value))))))))))

  -- The object, if `isDeal` accepts it.
  abbrev pub as_deal : Option (Fields N) → Option (Fields N)
  as_deal none = none
  as_deal (some value) = if is_deal_record value then some value else none

  abbrev deal_of : Option (Fields N) → Option (Fields N)
  deal_of none = none
  deal_of (some source) = as_deal (as_record (get "deal" source))

  unfoldable pub deal_from_drag_data : Value N → Option (Fields N)
  deal_from_drag_data source = deal_of (as_record source)

  abbrev stage_of : Option (Fields N) → Option DealStage
  stage_of none = none
  stage_of (some source) = one_of stage_name deal_stages (get "stage" source)

  unfoldable pub deal_stage_from_drag_data : Value N → Option DealStage
  deal_stage_from_drag_data source = stage_of (as_record source)

  -- A property that `isDeal` has found to be a text.
  abbrev pub text_of : String → Fields N → String
  text_of key fs = option_or (as_string (get key fs)) ""

  abbrev nullable : Option String → Value N
  nullable none = null
  nullable (some s) = str s

module _ {N : Type 0} (of_nat : ℕ → N) where
  abbrev nullable_id : Option ℕ → Value N
  nullable_id none = null
  nullable_id (some n) = num (of_nat n)

  -- A deal as the object that it is at run time.
  unfoldable pub deal_fields : Deal → Fields N
  deal_fields d = field "id" (str d.id) (
      field "organization" (str d.organization) (
        field "company" (str d.company) (
          field "company_name" (str d.company_name) (
            field "contact" (nullable d.contact) (
              field "contact_name" (str d.contact_name) (
                field "assigned_to" (nullable_id d.assigned_to) (
                  field "assigned_to_name" (str d.assigned_to_name) (
                    field "title" (str d.title) (
                      field "value" (str d.value) (
                        field "currency" (str d.currency) (
                          field "tax_rate" (str d.tax_rate) (
                            field "amount_includes_tax" (bool d.amount_includes_tax) (
                              field "net_value" (str d.net_value) (
                                field "tax_value" (str d.tax_value) (
                                  field "gross_value" (str d.gross_value) (
                                    field "probability" (num (of_nat d.probability)) (
                                      field "stage" (str (stage_name d.stage)) (
                                        field "sort_order" (num (of_nat d.sort_order)) (
                                          field "expected_close_date"
                                            (nullable d.expected_close_date)
                                            (field "lost_reason" (str d.lost_reason) (
                                              field "notes" (str d.notes) (
                                                field "archived_at" (nullable d.archived_at) (
                                                  field "created_at" (str d.created_at) (
                                                    field "updated_at" (str d.updated_at)
                                                      end))))))))))))))))))))))))

  -- { deal, stage: deal.stage }, the data of a card
  unfoldable pub card_data : Deal → Value N
  unfolding deal_fields
  card_data d = obj "[object Object]" (
      field "deal" (obj "[object Object]" (deal_fields d))
        (field "stage" (str (stage_name d.stage)) end))

-- { stage }, the data of a lane
unfoldable pub lane_data : {N : Type 0} → DealStage → Value N
lane_data stage = obj "[object Object]" (field "stage" (str (stage_name stage)) end)
