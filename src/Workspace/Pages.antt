-- ===== src/Workspace/Pages.antt =====
-- Which item of the mobile bar each page of a workspace selects
-- (frontend/src/components/layout/workspaceNavigation.tsx).
use Prim.Native.String
use Prim.Native.String.append
use text.Mathlib.TextLemmas.{append_assoc}
use bubllio_crm.Prelude.{
  String, Bool, true, false, ◌||◌, Option, none, some, ◌==◌, ◌≡◌, refl, if◌then◌else◌, eq_iff, All,
  filter, ap, ◌∙◌, Bool-cases, inl, inr,
}
use bubllio_crm.Js.Concat.{is_prefix-append, eq-append}
use bubllio_crm.Js.Text.{truthy, is_prefix}
use bubllio_crm.Workspace.Navigation.{
  WorkspaceNavigationKey, WorkspaceNavigationItem, NavigationChild, overview, inbox, companies,
  contacts, deals, tasks, services, members, settings, workspace_navigation, services_children,
  path_below, workspace_path, key_of, selected_mobile_navigation,
}

-- The selection by what follows `/organizations/${organizationId}` in the pathname.
selected_rest : String → Option WorkspaceNavigationKey
selected_rest rest =
    if is_prefix "/contacts" rest
    then some companies
    else (if is_prefix "/costing" rest
        then some services
        else (if rest == "" || rest == "/"
            then some overview
            else (if is_prefix "/companies" rest
                then some companies
                else (if is_prefix "/deals" rest
                    then some deals
                    else (if is_prefix "/tasks" rest
                        then some tasks
                        else (if is_prefix "/services" rest then some services else none))))))

key_of-if :
    (b : Bool) (i : WorkspaceNavigationItem) (rest : Option WorkspaceNavigationItem)
    → key_of (if b then some i else rest) ≡ (if b then some i.key else key_of rest)
key_of-if true i rest = refl
key_of-if false i rest = refl

selected-path_below :
    (organization rest : String)
    → truthy organization ≡ true
    → selected_mobile_navigation (path_below organization rest) (some organization)
      ≡ selected_rest rest
unfolding selected_mobile_navigation selected_rest
selected-path_below organization rest h =
    simp (h, is_prefix-append, append_assoc, eq-append, key_of-if)

-- `◌++◌`, computed along its first text.
abbrev glue : String → String → String
glue String.[] t = t
glue (String.◌∷◌ c s) t = String.◌∷◌ c (glue s t)

append_glue : (s t : String) → String.◌++◌ s t ≡ glue s t
append_glue String.[] t = append.nil t
append_glue (String.◌∷◌ c s) t = append.cons c s t ∙ ap (String.◌∷◌ c) (append_glue s t)

selected_under :
    (organization path rest : String)
    → truthy organization ≡ true
    → selected_mobile_navigation
        (String.◌++◌ (path_below organization path) rest)
        (some organization)
      ≡ selected_rest (glue path rest)
selected_under organization path rest h =
    ap (λ s. selected_mobile_navigation s (some organization)) (simp append_assoc)
    ∙ selected-path_below organization (String.◌++◌ path rest) h
    ∙ ap selected_rest (append_glue path rest)

-- Whether a text has at least two characters.
abbrev has_two : String → Bool
has_two String.[] = false
has_two (String.◌∷◌ c s) = truthy s

longer : (s t : String) → has_two s ≡ true → has_two t ≡ false → (s == t) ≡ false
longer s t h k = elim (Bool-cases (s == t)) [
  | inl same ↦ absurd (cc (ap has_two ((eq_iff s t).0 same), h, k))
  | inr differ ↦ differ
]

no_root : (s : String) → has_two s ≡ true → (s == "" || s == "/") ≡ false
no_root s h = rw (longer s "" h refl, longer s "/" h refl) refl

-- The selection by the first letters of a path that is longer than a slash.
abbrev item_of : String → Option WorkspaceNavigationKey
item_of rest =
    if is_prefix "/contacts" rest
    then some companies
    else (if is_prefix "/costing" rest
        then some services
        else (if is_prefix "/companies" rest
            then some companies
            else (if is_prefix "/deals" rest
                then some deals
                else (if is_prefix "/tasks" rest
                    then some tasks
                    else (if is_prefix "/services" rest then some services else none)))))

selected_page :
    (organization path rest : String)
    → truthy organization ≡ true
    → has_two (glue path rest) ≡ true
    → selected_mobile_navigation
        (String.◌++◌ (path_below organization path) rest)
        (some organization)
      ≡ item_of (glue path rest)
unfolding selected_rest
selected_page organization path rest h long =
    selected_under organization path rest h ∙ rw (no_root (glue path rest) long) refl

-- The item of the mobile bar that stands for an item of the navigation.
abbrev pub shown_as : WorkspaceNavigationKey → Option WorkspaceNavigationKey
shown_as contacts = some companies
shown_as inbox = none
shown_as members = none
shown_as settings = none
shown_as k = some k

abbrev pub is_below : WorkspaceNavigationItem → Bool
is_below i = truthy i.relative_path

-- For an organization that is not empty: every page under the path of an item selects the item of
-- the mobile bar that stands for it, contacts the one of companies, and the pages of services and of
-- costing the one of services; the overview is selected on its own path, with or without a slash
-- after it.
pub selected_mobile_navigation_lem :
    (organization rest : String)
    → truthy organization ≡ true
    → All
        (λ i.
          selected_mobile_navigation
            (String.◌++◌ (workspace_path organization i) rest)
            (some organization)
          ≡ shown_as i.key)
        (filter is_below workspace_navigation)
      × All
          (λ (c : NavigationChild).
            selected_mobile_navigation
              (String.◌++◌ (path_below organization c.relative_path) rest)
              (some organization)
            ≡ some services)
          services_children
      × (selected_mobile_navigation (path_below organization "") (some organization)
          ≡ some overview)
      × (selected_mobile_navigation (path_below organization "/") (some organization)
          ≡ some overview)
unfolding selected_rest
selected_mobile_navigation_lem organization rest h =
    let page = λ (path : String) (long : has_two (glue path rest) ≡ true).
      selected_page organization path rest h long in
    (
      (
        page "/inbox" refl,
        (
          page "/companies" refl,
          (
            page "/contacts" refl,
            (
              page "/deals" refl,
              (
                page "/tasks" refl,
                (page "/services" refl, (page "/members" refl, (page "/settings" refl, tt))),
              ),
            ),
          ),
        ),
      ),
      (
        page "/services/customer-services" refl,
        (
          page "/services/billing" refl,
          (page "/services/catalog" refl, (page "/costing/collaborators" refl, tt)),
        ),
      ),
      selected-path_below organization "" h,
      selected-path_below organization "/" h,
    )
