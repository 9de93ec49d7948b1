-- ===== src/GlobalSearch/Presentation.antt =====
-- Results by type, and the line of details under a result
-- (frontend/src/features/global-search/globalSearchPresentation.ts).
use bubllio_crm.Prelude.{
  ap, sym, ◌∙◌, Bool-cases, inl, inr, count-append, is_empty→nil, filter_idempotent, ap,
  count-append, inl, Bool-cases, is_empty→nil, ◌∙◌, ◌+◌, String, Bool, true, false, not, Option,
  none, some, List, [], ◌∷◌, ◌++◌, if◌then◌else◌, ◌≡◌, refl, arith, filter, map, is_empty, count,
}
use bubllio_crm.Js.Text.{truthy, join}
use Prim.Native.String

pub data ResultType : Type 0 where
  company contact deal : ResultType

pub record Organization : Type 0 where
  pub id : String
  pub name : String

-- A result; a key that may be missing is an option. `company_name` is `company?.name`.
pub record GlobalSearchResult : Type 0 where
  pub kind : ResultType
  pub id : String
  pub display_name : String
  pub organization : Organization
  pub customer_code : Option String
  pub lifecycle_stage : Option String
  pub company_name : Option String
  pub job_title : Option String
  pub stage : Option String
  pub value : Option String
  pub currency : Option String

-- `===` of two types
abbrev pub is_type : ResultType → ResultType → Bool
is_type company company = true
is_type contact contact = true
is_type deal deal = true
is_type company contact = false
is_type company deal = false
is_type contact company = false
is_type contact deal = false
is_type deal company = false
is_type deal contact = false

pub record ResultGroup : Type 0 where
  pub kind : ResultType
  pub results : List GlobalSearchResult

abbrev of_type : ResultType → GlobalSearchResult → Bool
of_type type r = is_type r.kind type

abbrev group_of : List GlobalSearchResult → ResultType → ResultGroup
group_of results type = record { kind = type; results = filter (of_type type) results }

-- group.results.length > 0
abbrev pub has_results : ResultGroup → Bool
has_results g = not (is_empty g.results)

unfoldable pub group_global_search_results : List GlobalSearchResult → List ResultGroup
group_global_search_results results =
    filter has_results (map (group_of results) (company ∷ contact ∷ deal ∷ []))

-- groupedResults.flatMap((group) => group.results)
unfoldable pub displayed : List ResultGroup → List GlobalSearchResult
displayed [] = []
displayed (g ∷ groups) = g.results ++ displayed groups

-- details.filter(Boolean)
abbrev pub kept : List (Option String) → List String
kept [] = []
kept (none ∷ more) = kept more
kept (some s ∷ more) = let rest = kept more in if truthy s then s ∷ rest else rest

-- result.value && result.currency ? [`${result.value} ${result.currency}`] : []
abbrev amount_detail : Option String → Option String → List (Option String)
amount_detail none c = []
amount_detail (some v) none = []
amount_detail (some v) (some c) =
    if truthy v
    then (if truthy c then some (String.◌++◌ v (String.◌++◌ " " c)) ∷ [] else [])
    else []

abbrev type_details : GlobalSearchResult → ResultType → List (Option String)
type_details r company = r.customer_code ∷ r.lifecycle_stage ∷ []
type_details r contact = r.company_name ∷ r.job_title ∷ []
type_details r deal = r.company_name ∷ r.stage ∷ amount_detail r.value r.currency

unfoldable pub global_search_result_details : GlobalSearchResult → Bool → String
global_search_result_details r include_workspace = join " · " (
    kept
      ((if include_workspace then some r.organization.name ∷ [] else []) ++ type_details r r.kind))

-- A group without results shows nothing.
not-has_results : (g : ResultGroup) → has_results g ≡ false → g.results ≡ []
not-has_results g h = is_empty→nil g.results (ground arith)

count-filter-has_results :
    (p : GlobalSearchResult → Bool) (groups : List ResultGroup)
    → count p (displayed (filter has_results groups)) ≡ count p (displayed groups)
unfolding displayed
count-filter-has_results p [] = refl
count-filter-has_results p (g ∷ groups) = elim (Bool-cases (has_results g)) [
  | inl some_results ↦ rw some_results (
      count-append p g.results (displayed (filter has_results groups))
      ∙ ap (λ n. count p g.results + n) (count-filter-has_results p groups)
      ∙ sym (count-append p g.results (displayed groups)))
  | inr nothing ↦ rw nothing (rw (not-has_results g nothing) (count-filter-has_results p groups))
]

count_types :
    (p : GlobalSearchResult → Bool) (results : List GlobalSearchResult)
    → count p (filter (of_type company) results)
        + (count p (filter (of_type contact) results) + count p (filter (of_type deal) results))
      ≡ count p results
count_types p [] = refl
count_types p (r ∷ results) = ground (arith, count_types p results)

shown_types :
    (p : GlobalSearchResult → Bool) (results : List GlobalSearchResult)
    → count p (displayed (map (group_of results) (company ∷ contact ∷ deal ∷ []))) ≡ count p results
unfolding displayed
shown_types p results =
    let shows_deals = filter (of_type deal) results ++ [] in
    let shows_contacts = filter (of_type contact) results in
    omega (
      arith,
      count_types p results,
      count-append p (filter (of_type deal) results) [],
      count-append p shows_contacts shows_deals,
      count-append p (filter (of_type company) results) (shows_contacts ++ shows_deals),
    )

-- Grouping shows every result exactly once, whatever one counts, in groups that are not empty.
pub group_global_search_results_lem :
    (p : GlobalSearchResult → Bool) (results : List GlobalSearchResult)
    → (count p (displayed (group_global_search_results results)) ≡ count p results)
      × (filter has_results (group_global_search_results results)
          ≡ group_global_search_results results)
unfolding group_global_search_results
group_global_search_results_lem p results = (
  count-filter-has_results p (map (group_of results) (company ∷ contact ∷ deal ∷ []))
      ∙ shown_types p results,
  filter_idempotent has_results (map (group_of results) (company ∷ contact ∷ deal ∷ [])),
)
