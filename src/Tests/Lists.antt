-- ===== src/Tests/Lists.antt =====
-- The theorems on companies, contacts, the search over all records and the timeline.
use bubllio_crm.Prelude.{
  zero, suc, nat_eq, nat_eq, suc, if◌then◌else◌, length, ◌+◌, ℕ, String, Bool, true, false, Option,
  none, some, List, [], ◌∷◌, ◌++◌, ◌≡◌, ◌≢◌, ◌≤◌, ◌<◌, refl, arith, count,
}
use bubllio_crm.Js.Value.{Value, undefined, bool, Fields, field, str, end, get}
use bubllio_crm.Js.Integers.{negsuc, abs}
use bubllio_crm.Types.Deal.{lead, won}
use bubllio_crm.Tests.Data.{unary, number_of_text-text_of_number, count_ones}
use bubllio_crm.Companies.Search.{
  CompanySearch, CompanyView, parse_company_search, company_search_fields,
  parse_company_search_idempotent,
}
use bubllio_crm.Companies.Listing
use bubllio_crm.Companies.Queries.{detail_query, invalidated, update, key_of, invalidated-reaches}
use bubllio_crm.Queries.{KeyPart, reaches}
use bubllio_crm.Companies.Paging.{all_of, load, load-get_next_page_param}
use bubllio_crm.Contacts
use bubllio_crm.ListPage.{shown_page, set_page, shown_page_lem}
use bubllio_crm.GlobalSearch.State.{initial_global_search_state}
use bubllio_crm.GlobalSearch.Keyboard.{handle_key_down, arrow_down, handle_key_down-arrows}
use bubllio_crm.GlobalSearch.Presentation.{
  GlobalSearchResult, ResultType, is_type, displayed, group_global_search_results,
  group_global_search_results_lem,
}
use bubllio_crm.Timeline.Event.{CompanyTimelineEvent, TimelineCategory}
use bubllio_crm.Timeline.Copy.{get_timeline_event_copy, get_timeline_event_copy-moved}
use bubllio_crm.Timeline.Days.{Calendar, shown, group_timeline_events, group_timeline_events_lem}
use bubllio_crm.Timeline.Relative.{
  RelativeTime, IsAmount, IsNear, IsSameSign, get_timeline_relative_time,
  get_timeline_relative_time_lem,
}

-- ?view=mine&owner=111&page=11
abbrev url : Fields (Option ℕ)
url = field "view" (str "mine") (field "owner" (str "111") (field "page" (str "11") end))

abbrev is_bool : Value (Option ℕ) → Bool
is_bool (bool b) = true
is_bool undefined = false
is_bool _ = false

not_bool : (b : Bool) → get "owner" url ≢ bool b
not_bool b e = absurd (cc e)

parse_company_search_idempotent_example :
    parse_company_search unary (company_search_fields unary (parse_company_search unary url))
    ≡ parse_company_search unary url
parse_company_search_idempotent_example =
    parse_company_search_idempotent unary refl refl number_of_text-text_of_number url not_bool

abbrev mine : CompanySearch ℕ
mine = record {
  q = some "x";
  view = some CompanyView.mine;
  stage = none;
  owner = none;
  sort = none;
  page = some 3;
  company = none;
  create = false;
}

clear_filters-has_filters_example :
    Listing.has_filters count_ones (Listing.clear_filters count_ones mine) ≡ false
clear_filters-has_filters_example = (Listing.clear_filters-has_filters count_ones (some 7) mine).0

assigned_to-change_owner_example :
    Listing.assigned_to count_ones (some 7) (Listing.change_owner count_ones (some "11") mine)
    ≡ Listing.person 2
unfolding Listing.assigned_to
assigned_to-change_owner_example =
    (Listing.assigned_to-change_owner count_ones (some 7) (some "11") mine).0

assigned_to-select_view_example :
    Listing.current_view count_ones (Listing.select_view count_ones CompanyView.unassigned mine)
    ≡ CompanyView.unassigned
assigned_to-select_view_example =
    (Listing.assigned_to-select_view count_ones 7 CompanyView.unassigned mine).0

-- Every key reaches every query: more than the code relies on.
abbrev always : List (KeyPart ℕ) → List (KeyPart ℕ) → Bool
always key query = true

every : (key rest : List (KeyPart ℕ)) → always key (key ++ rest) ≡ true
every key rest = refl

invalidated-reaches_example :
    reaches always (invalidated "o" update) (key_of "o" (detail_query "k")) ≡ true
invalidated-reaches_example = (invalidated-reaches always every "o" "k" none (detail_query "k")).1

-- Two pages: the events 5 and 6, and the event 7.
abbrev page : ℕ → List ℕ
page n = if nat_eq n 1 then 5 ∷ 6 ∷ [] else (if nat_eq n 2 then 7 ∷ [] else [])

abbrev left_after : ℕ → List ℕ
left_after n = if nat_eq n 0 then 5 ∷ 6 ∷ 7 ∷ [] else (if nat_eq n 1 then 7 ∷ [] else [])

page_cuts : (n : ℕ) → left_after n ≡ page (n + 1) ++ left_after (n + 1)
page_cuts zero = refl
page_cuts (suc zero) = refl
page_cuts (suc (suc n)) = ground arith

page_fills : (n : ℕ) → 1 ≤ length (left_after n) → 1 ≤ length (page (n + 1))
page_fills zero h = omega arith
page_fills (suc zero) h = omega arith
page_fills (suc (suc n)) h = absurd (ground (arith, h))

load-get_next_page_param_example : all_of (load page 3 3 (page 1 ∷ [])) ≡ 5 ∷ 6 ∷ 7 ∷ []
load-get_next_page_param_example = (load-get_next_page_param page left_after page_cuts page_fills).0

parse_contact_search_idempotent_example :
    Contacts.parse_contact_search unary
      (Contacts.contact_search_fields unary (Contacts.parse_contact_search unary url))
    ≡ Contacts.parse_contact_search unary url
parse_contact_search_idempotent_example = Contacts.parse_contact_search_idempotent unary url refl

abbrev archived_contacts : Contacts.ContactSearch ℕ
archived_contacts = record {
  q = none;
  view = some Contacts.ContactView.archived;
  company = some "k";
  page = some 2;
  contact = none;
  create = false;
}

select_view-clear_filters_example :
    Contacts.has_filters (Contacts.clear_filters archived_contacts) ≡ false
select_view-clear_filters_example =
    (Contacts.select_view-clear_filters Contacts.ContactView.all archived_contacts).0

handle_key_down-arrows_example :
    (handle_key_down {R = ℕ} arrow_down (1 ∷ 2 ∷ 3 ∷ []) initial_global_search_state).0.active_index
    < 3
handle_key_down-arrows_example =
    (handle_key_down-arrows {R = ℕ} (1 ∷ 2 ∷ 3 ∷ []) initial_global_search_state (omega arith)).0

abbrev result : ResultType → GlobalSearchResult
result kind = record {
  kind = kind;
  id = "r";
  display_name = "Kafe";
  organization = record { id = "o"; name = "Org" };
  customer_code = none;
  lifecycle_stage = none;
  company_name = none;
  job_title = none;
  stage = none;
  value = none;
  currency = none;
}

abbrev results : List GlobalSearchResult
results = result ResultType.deal ∷ result ResultType.company ∷ result ResultType.deal ∷ []

abbrev is_deal_result : GlobalSearchResult → Bool
is_deal_result r = is_type r.kind ResultType.deal

group_global_search_results_lem_example :
    count is_deal_result (displayed (group_global_search_results results))
    ≡ count is_deal_result results
group_global_search_results_lem_example = (group_global_search_results_lem is_deal_result results).0

abbrev event : String → CompanyTimelineEvent
event at = record {
  id = "e";
  category = TimelineCategory.deal;
  event_type = "deal.stage_changed";
  source_type = "deal";
  source_id = none;
  actor_name = "";
  body = "";
  details = record {
    fields = none;
    contact_name = none;
    deal_title = some "Coffee";
    task_title = none;
    subscription_name = none;
    from_stage = some "lead";
    to_stage = some "won";
    from_status = none;
    to_status = none;
    amount = none;
    currency = none;
    kind = none;
    outcome = none;
  };
  occurred_at = at;
}

abbrev calendar : Calendar
calendar = record {
  Date = String;
  date_of = λ text. text;
  full_year = λ d. d;
  month = λ d. "0";
  day_of_month = λ d. "1";
  day_before = λ d. d;
  long_date = λ locale d. d;
}

abbrev as_key : String → String
as_key key = key

abbrev events : List CompanyTimelineEvent
events = event "2025" ∷ event "2025" ∷ event "2024" ∷ []

group_timeline_events_lem_example :
    shown calendar as_key "el" "2026" (group_timeline_events calendar as_key "el" "2026" events)
    ≡ events
group_timeline_events_lem_example = (group_timeline_events_lem calendar as_key "el" "2026" events).0

abbrev show_key : String → List (String × String) → String
show_key key values = key

abbrev no_amount : Option String → String → Option String
no_amount amount currency = none

get_timeline_event_copy-moved_example :
    (get_timeline_event_copy show_key no_amount (event "2025")).detail
    ≡ some "crm.companies.timeline.transition"
get_timeline_event_copy-moved_example =
    get_timeline_event_copy-moved show_key no_amount (event "2025") lead won refl refl refl

get_timeline_relative_time_lem_example :
    (r : RelativeTime) × (get_timeline_relative_time (some (negsuc 7199999)) ≡ some r)
    × IsAmount r.unit (abs r.amount)
    × IsNear r.unit (abs r.amount) 7200000
    × IsSameSign r.amount (negsuc 7199999)
get_timeline_relative_time_lem_example = get_timeline_relative_time_lem (negsuc 7199999)

shown_page_lem_example : shown_page "b" (set_page "b" 3) ≡ 3
shown_page_lem_example = (shown_page_lem "b" "c" 3 (set_page "a" 2)).0
