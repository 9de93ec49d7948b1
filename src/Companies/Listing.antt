-- ===== src/Companies/Listing.antt =====
-- The filters that the company list asks for and the changes of its URL parameters
-- (frontend/src/features/companies/hooks/useCompanyListController.ts).
use bubllio_crm.Prelude.{
  ap, ℕ, ◌+◌, String, Bool, true, false, not, ◌||◌, Option, none, some, List, ◌==◌, if◌then◌else◌,
  ◌≡◌, refl,
}
use bubllio_crm.Js.Text.{truthy}
use bubllio_crm.Js.Patch.{option_or, is_some}
use bubllio_crm.Js.Array.{find}
use bubllio_crm.Companies.Search.{
  CompanySearch, CompanyView, active, mine, unassigned, archived, view_name, CompanyStage,
  CompanySort, updated_desc,
}

pub data AssignedTo (N : Type 0) : Type 0 where
  anyone : AssignedTo N
  nobody : AssignedTo N
  person : N → AssignedTo N

pub record CompanyFilters (N : Type 0) : Type 0 where
  pub search : String
  pub lifecycle_stage : Option CompanyStage
  pub is_archived : Bool
  pub assigned_to : AssignedTo N
  pub ordering : CompanySort

abbrev pub is_view : CompanyView → CompanyView → Bool
is_view a b = view_name a == view_name b

-- `number` is `Number` on texts; the current user's id is never 0.
module _ {N : Type 0} (number : String → N) where
  abbrev pub current_view : CompanySearch N → CompanyView
  current_view s = option_or s.view active

  abbrev by_owner : Option String → AssignedTo N
  by_owner none = anyone
  by_owner (some owner) =
      if owner == "unassigned"
      then nobody
      else (if truthy owner then person (number owner) else anyone)

  abbrev by_view : CompanyView → Option N → AssignedTo N → AssignedTo N
  by_view mine (some user) rest = person user
  by_view mine none rest = rest
  by_view unassigned user rest = nobody
  by_view active user rest = rest
  by_view archived user rest = rest

  -- The branches of `assignedTo`: the user's own companies, then those of nobody, then an owner's.
  unfoldable pub assigned_to : Option N → CompanySearch N → AssignedTo N
  assigned_to user s = by_view (current_view s) user (by_owner s.owner)

  -- The debounced text is given: it is the text of the URL some time ago.
  unfoldable pub filters : Option N → String → CompanySearch N → CompanyFilters N
  filters user deferred s = record {
    search = deferred;
    lifecycle_stage = s.stage;
    is_archived = is_view (current_view s) archived;
    assigned_to = assigned_to user s;
    ordering = option_or s.sort updated_desc;
  }

  abbrev as_count : Bool → ℕ
  as_count true = 1
  as_count false = 0

  abbrev has_text : Option String → Bool
  has_text none = false
  has_text (some t) = truthy t

  unfoldable pub advanced_filter_count : CompanySearch N → ℕ
  advanced_filter_count s =
      as_count (is_some s.stage) + as_count (has_text s.owner) + as_count (is_some s.sort)

  unfoldable pub has_filters : CompanySearch N → Bool
  has_filters s =
      has_text s.q
      || (is_some s.stage
          || (has_text s.owner || (is_some s.sort || not (is_view (current_view s) active))))

  unfoldable pub clear_filters : CompanySearch N → CompanySearch N
  clear_filters s = record s {
    q = none;
    view = none;
    stage = none;
    owner = none;
    sort = none;
    page = none;
  }

  unfoldable pub select_view : CompanyView → CompanySearch N → CompanySearch N
  select_view next s = record s {
    view = if is_view next active then none else some next;
    owner = none;
    page = none;
  }

  -- view === 'mine' || view === 'unassigned' ? undefined : routeSearch.view
  abbrev view_with_owner : CompanyView → Option CompanyView → Option CompanyView
  view_with_owner mine view = none
  view_with_owner unassigned view = none
  view_with_owner active view = view
  view_with_owner archived view = view

  unfoldable pub change_owner : Option String → CompanySearch N → CompanySearch N
  change_owner next s = record s {
    owner = next;
    view = view_with_owner (current_view s) s.view;
    page = none;
  }

  -- The create dialog: whether it is shown, and the URL parameters.
  unfoldable pub close_create : Bool × CompanySearch N → Bool × CompanySearch N
  close_create (shown, s) = (false, if s.create then record s { create = false } else s)

  -- `mine` and `unassigned` are labels of the translator; `names` are the assignees.
  abbrev name_of : Option (N × String) → String → String
  name_of none value = value
  name_of (some (id, name)) value = name

  unfoldable pub owner_label :
      (N → N → Bool) → Option N → List (N × String) → (String → String) → String → String
  owner_label same user names t value =
      if value == "unassigned"
      then t "crm.companies.unassigned"
      else (if elim user [ none ↦ false | some id ↦ same (number value) id ]
          then t "crm.companies.mine"
          else name_of (find (λ (p : N × String). same p.0 (number value)) names) value)

  -- Clearing leaves no filter, in the count of the filter button too, and keeps the opened company
  -- and `create`.
  pub clear_filters-has_filters :
      (user : Option N) (s : CompanySearch N)
      → (has_filters (clear_filters s) ≡ false)
        × (advanced_filter_count (clear_filters s) ≡ 0)
        × (assigned_to user (clear_filters s) ≡ anyone)
        × ((clear_filters s).company ≡ s.company)
        × ((clear_filters s).create ≡ s.create)
  unfolding has_filters clear_filters advanced_filter_count assigned_to
  clear_filters-has_filters user s = (refl, refl, refl, refl, refl)

  owner_decides :
      (v : Option CompanyView) (user : Option N) (rest : AssignedTo N)
      → by_view (option_or (view_with_owner (option_or v active) v) active) user rest ≡ rest
  owner_decides none user rest = refl
  owner_decides (some active) user rest = refl
  owner_decides (some mine) user rest = refl
  owner_decides (some unassigned) user rest = refl
  owner_decides (some archived) user rest = refl

  archived_stays :
      (v : Option CompanyView)
      → is_view (option_or (view_with_owner (option_or v active) v) active) archived
        ≡ is_view (option_or v active) archived
  archived_stays none = refl
  archived_stays (some active) = refl
  archived_stays (some mine) = refl
  archived_stays (some unassigned) = refl
  archived_stays (some archived) = refl

  selected :
      (next : CompanyView)
      → option_or (if is_view next active then none else some next) active ≡ next
  selected active = refl
  selected mine = refl
  selected unassigned = refl
  selected archived = refl

  -- Choosing an owner shows that owner's companies whatever view was selected before, and starts on
  -- the first page; only the archived view stays selected, and the default one.
  pub assigned_to-change_owner :
      (user : Option N) (next : Option String) (s : CompanySearch N)
      → (assigned_to user (change_owner next s) ≡ by_owner next)
        × ((change_owner next s).page ≡ none)
        × (is_view (current_view (change_owner next s)) archived
            ≡ is_view (current_view s) archived)
  unfolding assigned_to change_owner
  assigned_to-change_owner user next s =
      (owner_decides s.view user (by_owner next), refl, archived_stays s.view)

  -- Selecting a view shows it, and asks for the user's own companies, for those of nobody, or for
  -- all, as the view says: an owner chosen before does not narrow it.
  pub assigned_to-select_view :
      (user : N) (next : CompanyView) (s : CompanySearch N)
      → (current_view (select_view next s) ≡ next)
        × (assigned_to (some user) (select_view next s) ≡ by_view next (some user) anyone)
  unfolding assigned_to select_view
  assigned_to-select_view user next s =
      (selected next, ap (λ v. by_view v (some user) anyone) (selected next))
