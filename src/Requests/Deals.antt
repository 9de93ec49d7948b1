-- ===== src/Requests/Deals.antt =====
-- The requests of deals (frontend/src/features/deals/services/dealService.ts).
use Prim.Native.String
use bubllio_crm.Prelude.{ℕ, String, Option, none, some, List, ◌≡◌, nat_eq, if◌then◌else◌}
use bubllio_crm.Js.Map
use bubllio_crm.Requests.{
  sent, trimmed, set_if, get, post, patch, delete, Request, plain, with_params, organization_path,
  segment, lookup-set_if, or_none,
}
use bubllio_crm.Types.Deal.{DealStage, stage_name}

-- The filters of a list; a stage may be the empty text. Options of texts are their texts.
pub record DealFilters : Type 0 where
  pub search : Option String
  pub stage : Option String
  pub archived : Option String
  pub assigned_to : Option String
  pub next_action : Option String
  pub expected_close_from : Option String
  pub expected_close_to : Option String
  pub limit : Option ℕ

-- `encode` is encodeURIComponent, and `to_text` gives the text of a number.
module _ (encode : String → String) (to_text : ℕ → String) where
  unfoldable pub deal_path : String → Option String → String
  deal_path org id =
      String.◌++◌ (organization_path encode org) (String.◌++◌ "deals/" (segment encode id))

  -- String(filters.limit), where it is truthy
  abbrev pub limit_text : Option ℕ → Option String
  limit_text none = none
  limit_text (some n) = if nat_eq n 0 then none else some (to_text n)

  unfoldable pub deal_params : DealFilters → List (String × String)
  deal_params f = set_if "limit" (limit_text f.limit) (
      set_if "expected_close_to" f.expected_close_to (
        set_if "expected_close_from" f.expected_close_from (
          set_if "next_action" f.next_action (
            set_if "assigned_to" f.assigned_to (
              set_if "archived" f.archived
                (set_if "stage" f.stage (set_if "search" (trimmed f.search) Map.empty)))))))

  abbrev pub list_request : String → DealFilters → Request
  list_request org f = with_params (deal_params f) (deal_path org none)

  abbrev pub get_request : String → String → Request
  get_request org id = plain (deal_path org (some id)) get

  abbrev pub create_request : String → Request
  create_request org = plain (deal_path org none) post

  abbrev pub update_request : String → String → Request
  update_request org id = plain (deal_path org (some id)) patch

  -- The request of a move, and its body.
  abbrev pub move_request : String → String → DealStage → ℕ → Request × (String × ℕ)
  move_request org id stage position =
      (plain (String.◌++◌ (deal_path org (some id)) "move/") post, (stage_name stage, position))

  abbrev pub archive_request : String → String → Request
  archive_request org id = plain (String.◌++◌ (deal_path org (some id)) "archive/") post

  abbrev pub remove_request : String → String → Request
  remove_request org id = plain (deal_path org (some id)) delete

  -- The request of a list of deals has each filter that is given and not empty, and the search
  -- without the space around it, under its own key, and no parameter for one that is not; a limit of
  -- zero counts as not given.
  pub lookup-deal_params :
      (f : DealFilters)
      → (Map.lookup "search" (deal_params f) ≡ sent (trimmed f.search))
        × (Map.lookup "stage" (deal_params f) ≡ sent f.stage)
        × (Map.lookup "archived" (deal_params f) ≡ sent f.archived)
        × (Map.lookup "assigned_to" (deal_params f) ≡ sent f.assigned_to)
        × (Map.lookup "next_action" (deal_params f) ≡ sent f.next_action)
        × (Map.lookup "expected_close_from" (deal_params f) ≡ sent f.expected_close_from)
        × (Map.lookup "expected_close_to" (deal_params f) ≡ sent f.expected_close_to)
        × (Map.lookup "limit" (deal_params f) ≡ sent (limit_text f.limit))
  unfolding deal_params Map.lookup
  lookup-deal_params f = (
    simp (lookup-set_if, or_none),
    simp (lookup-set_if, or_none),
    simp (lookup-set_if, or_none),
    simp (lookup-set_if, or_none),
    simp (lookup-set_if, or_none),
    simp (lookup-set_if, or_none),
    simp (lookup-set_if, or_none),
    simp (lookup-set_if, or_none),
  )
