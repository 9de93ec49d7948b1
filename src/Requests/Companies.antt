-- ===== src/Requests/Companies.antt =====
-- The requests of companies (frontend/src/features/companies/services/companyService.ts).
use Prim.Native.String
use bubllio_crm.Prelude.{ℕ, suc, String, Option, none, some, List, ◌≡◌, nat_eq, if◌then◌else◌}
use bubllio_crm.Js.Map
use bubllio_crm.Requests.{
  sent, trimmed, set_if, get, post, patch, delete, Request, plain, with_params, organization_path,
  segment, lookup-set_if, or_none,
}

pub data Assignee : Type 0 where
  user : ℕ → Assignee
  text : String → Assignee

-- The filters of a list, where options of texts are their texts.
pub record CompanyFilters : Type 0 where
  pub search : Option String
  pub lifecycle_stage : Option String
  pub archived : Option String
  pub assigned_to : Option Assignee
  pub ordering : Option String

-- `encode` is encodeURIComponent, and `to_text` gives the text of a number.
module _ (encode : String → String) (to_text : ℕ → String) where
  unfoldable pub company_path : String → Option String → String
  company_path organization company =
      String.◌++◌ (organization_path encode organization)
        (String.◌++◌ "companies/" (segment encode company))

  -- A path below the companies of an organization, and one below a company.
  abbrev pub below_all : String → String → String
  below_all organization rest = String.◌++◌ (company_path organization none) rest

  abbrev pub below_one : String → String → String → String
  below_one organization company rest = String.◌++◌ (company_path organization (some company)) rest

  -- String(filters.assignedTo), where it is truthy
  abbrev pub assignee_text : Option Assignee → Option String
  assignee_text none = none
  assignee_text (some (user n)) = if nat_eq n 0 then none else some (to_text n)
  assignee_text (some (text s)) = some s

  abbrev filter_params : CompanyFilters → List (String × String) → List (String × String)
  filter_params f params = set_if "ordering" f.ordering (
      set_if "assigned_to" (assignee_text f.assigned_to) (
        set_if "archived" f.archived
          (set_if "lifecycle_stage" f.lifecycle_stage (set_if "search" (trimmed f.search) params))))

  unfoldable pub list_params : CompanyFilters → List (String × String)
  list_params f = filter_params f Map.empty

  -- A page of the code counts from 0, and one of the server from 1.
  unfoldable pub page_params : CompanyFilters → ℕ → List (String × String)
  page_params f page =
      filter_params f (Map.set "page_size" "50" (Map.set "page" (to_text (suc page)) Map.empty))

  unfoldable pub timeline_params : ℕ → Option String → List (String × String)
  timeline_params page category =
      set_if "category" category
        (Map.set "page_size" "25" (Map.set "page" (to_text page) Map.empty))

  abbrev pub summary_request : String → Request
  summary_request organization = plain (below_all organization "summary/") get

  abbrev pub attention_request : String → Request
  attention_request organization = plain (below_all organization "attention/") get

  abbrev pub page_request : String → CompanyFilters → ℕ → Request
  page_request organization f page =
      with_params (page_params f page) (company_path organization none)

  abbrev pub list_request : String → CompanyFilters → Request
  list_request organization f = with_params (list_params f) (company_path organization none)

  abbrev pub get_request : String → String → Request
  get_request organization company = plain (company_path organization (some company)) get

  abbrev pub create_request : String → Request
  create_request organization = plain (company_path organization none) post

  abbrev pub update_request : String → String → Request
  update_request organization company = plain (company_path organization (some company)) patch

  abbrev pub remove_request : String → String → Request
  remove_request organization company = plain (company_path organization (some company)) delete

  abbrev pub activity_request : String → String → Request
  activity_request organization company = plain (below_one organization company "activity/") get

  abbrev pub timeline_request : String → String → ℕ → Option String → Request
  timeline_request organization company page category =
      with_params (timeline_params page category) (below_one organization company "timeline/")

  -- addTimelineNote and addCommunication
  abbrev pub add_event_request : String → String → Request
  add_event_request organization company = plain (below_one organization company "timeline/") post

  abbrev pub archive_request : String → String → Request
  archive_request organization company = plain (below_one organization company "archive/") post

  abbrev pub restore_request : String → String → Request
  restore_request organization company = plain (below_one organization company "restore/") post

  abbrev pub assignees_request : String → Request
  assignees_request organization = plain (below_all organization "assignees/") get

  -- The page of a list of companies is asked for by the filters of the list, each that is given and not
  -- empty under its own key, by the page counted from 1, and by its size of 50.
  pub lookup-page_params :
      (f : CompanyFilters) (page : ℕ)
      → (Map.lookup "search" (page_params f page) ≡ Map.lookup "search" (list_params f))
        × (Map.lookup "lifecycle_stage" (page_params f page)
            ≡ Map.lookup "lifecycle_stage" (list_params f))
        × (Map.lookup "archived" (page_params f page) ≡ Map.lookup "archived" (list_params f))
        × (Map.lookup "assigned_to" (page_params f page) ≡ Map.lookup "assigned_to" (list_params f))
        × (Map.lookup "ordering" (page_params f page) ≡ Map.lookup "ordering" (list_params f))
        × (Map.lookup "page" (page_params f page) ≡ some (to_text (suc page)))
        × (Map.lookup "page_size" (page_params f page) ≡ some "50")
        × (Map.lookup "search" (list_params f) ≡ sent (trimmed f.search))
        × (Map.lookup "assigned_to" (list_params f) ≡ sent (assignee_text f.assigned_to))
  unfolding page_params list_params Map.lookup Map.set
  lookup-page_params f page = (
    simp (lookup-set_if, or_none),
    simp (lookup-set_if, or_none),
    simp (lookup-set_if, or_none),
    simp (lookup-set_if, or_none),
    simp (lookup-set_if, or_none),
    simp lookup-set_if,
    simp lookup-set_if,
    simp (lookup-set_if, or_none),
    simp (lookup-set_if, or_none),
  )
