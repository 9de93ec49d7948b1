-- ===== src/Requests/Contacts.antt =====
-- The requests of contacts (frontend/src/features/contacts/services/contactService.ts).
use Prim.Native.String
use bubllio_crm.Prelude.{ℕ, suc, String, Option, none, some, List}
use bubllio_crm.Js.Map
use bubllio_crm.Requests.{
  trimmed, set_if, get, post, patch, delete, Request, plain, with_params, organization_path,
  segment,
}

pub record ContactFilters : Type 0 where
  pub search : Option String
  pub company : Option String
  pub archived : Option String

-- `encode` is encodeURIComponent, and `to_text` gives the text of a number.
module _ (encode : String → String) (to_text : ℕ → String) where
  unfoldable pub contact_path : String → Option String → String
  contact_path organization contact =
      String.◌++◌ (organization_path encode organization)
        (String.◌++◌ "contacts/" (segment encode contact))

  abbrev pub below_one : String → String → String → String
  below_one organization contact rest = String.◌++◌ (contact_path organization (some contact)) rest

  abbrev filter_params : ContactFilters → List (String × String) → List (String × String)
  filter_params f params =
      set_if "archived" f.archived
        (set_if "company" f.company (set_if "search" (trimmed f.search) params))

  unfoldable pub list_params : ContactFilters → List (String × String)
  list_params f = filter_params f Map.empty

  -- A page of the code counts from 0, and one of the server from 1.
  unfoldable pub page_params : ContactFilters → ℕ → List (String × String)
  page_params f page =
      filter_params f (Map.set "page_size" "50" (Map.set "page" (to_text (suc page)) Map.empty))

  abbrev pub page_request : String → ContactFilters → ℕ → Request
  page_request organization f page =
      with_params (page_params f page) (contact_path organization none)

  abbrev pub list_request : String → ContactFilters → Request
  list_request organization f = with_params (list_params f) (contact_path organization none)

  abbrev pub get_request : String → String → Request
  get_request organization contact = plain (contact_path organization (some contact)) get

  abbrev pub create_request : String → Request
  create_request organization = plain (contact_path organization none) post

  abbrev pub update_request : String → String → Request
  update_request organization contact = plain (contact_path organization (some contact)) patch

  abbrev pub remove_request : String → String → Request
  remove_request organization contact = plain (contact_path organization (some contact)) delete

  abbrev pub activity_request : String → String → Request
  activity_request organization contact = plain (below_one organization contact "activity/") get

  abbrev pub archive_request : String → String → Request
  archive_request organization contact = plain (below_one organization contact "archive/") post

  abbrev pub restore_request : String → String → Request
  restore_request organization contact = plain (below_one organization contact "restore/") post
