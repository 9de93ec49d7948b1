-- ===== src/Workspace/Navigation.antt =====
-- The navigation of a workspace (frontend/src/components/layout/workspaceNavigation.tsx). The icons
-- are left out, and a label is its translation key.
use Prim.Native.String
use bubllio_crm.Prelude.{
  String, Bool, true, false, not, ◌||◌, Option, none, some, List, [], ◌∷◌, ◌==◌, if◌then◌else◌,
  filter,
}
use bubllio_crm.Js.Array.{find}
use bubllio_crm.Js.Text.{truthy, is_prefix}

pub data WorkspaceRoute : Type 0 where
  overview_route inbox_route companies_route contacts_route deals_route tasks_route : WorkspaceRoute
  customer_services_route billing_route catalog_route collaborators_route : WorkspaceRoute
  members_route settings_route : WorkspaceRoute

pub data WorkspaceNavigationKey : Type 0 where
  overview inbox companies contacts deals tasks services members settings : WorkspaceNavigationKey

pub data NavigationGroup : Type 0 where
  home customers sales revenue administration : NavigationGroup

pub record NavigationChild : Type 0 where
  pub label_key : String
  pub route : WorkspaceRoute
  pub relative_path : String

pub record WorkspaceNavigationItem : Type 0 where
  pub key : WorkspaceNavigationKey
  pub label_key : String
  pub route : WorkspaceRoute
  pub relative_path : String
  pub group : NavigationGroup
  pub mobile : Bool
  pub mobile_label_key : Option String
  pub requires_workspace_manager : Bool
  pub children : List NavigationChild

abbrev item :
    WorkspaceNavigationKey
    → String
    → WorkspaceRoute
    → String
    → NavigationGroup
    → Bool
    → WorkspaceNavigationItem
item key label route path group mobile = record {
  key = key;
  label_key = label;
  route = route;
  relative_path = path;
  group = group;
  mobile = mobile;
  mobile_label_key = none;
  requires_workspace_manager = false;
  children = [];
}

abbrev child : String → WorkspaceRoute → String → NavigationChild
child label route path = record { label_key = label; route = route; relative_path = path }

abbrev pub services_children : List NavigationChild
services_children =
    child "navigation.customerServices" customer_services_route "/services/customer-services"
    ∷ child "navigation.billing" billing_route "/services/billing"
    ∷ child "navigation.catalog" catalog_route "/services/catalog"
    ∷ child "navigation.collaborators" collaborators_route "/costing/collaborators"
    ∷ []

abbrev pub workspace_navigation : List WorkspaceNavigationItem
workspace_navigation =
    item overview "navigation.overview" overview_route "" home true
    ∷ item inbox "navigation.inbox" inbox_route "/inbox" home false
    ∷ record (item companies "navigation.companies" companies_route "/companies" customers true) {
      mobile_label_key = some "navigation.customers";
    }
    ∷ item contacts "navigation.contacts" contacts_route "/contacts" customers false
    ∷ item deals "navigation.deals" deals_route "/deals" sales true
    ∷ item tasks "navigation.tasks" tasks_route "/tasks" sales true
    ∷ record (item services "navigation.revenue" customer_services_route "/services" revenue true) {
      mobile_label_key = some "navigation.revenue";
      children = services_children;
    }
    ∷ record (item members "navigation.people" members_route "/members" administration false) {
      requires_workspace_manager = true;
    }
    ∷ record (item settings "navigation.settings" settings_route "/settings" administration false) {
      requires_workspace_manager = true;
    }
    ∷ []

-- `/organizations/${organizationId}${relativePath}`
abbrev pub path_below : String → String → String
path_below organization rest = String.◌++◌ "/organizations/" (String.◌++◌ organization rest)

abbrev pub workspace_path : String → WorkspaceNavigationItem → String
workspace_path organization i = path_below organization i.relative_path

abbrev pub is_selected : String → String → WorkspaceNavigationItem → Bool
is_selected pathname organization candidate =
    let path = workspace_path organization candidate in
    if not (truthy candidate.relative_path)
    then pathname == path || pathname == String.◌++◌ path "/"
    else is_prefix path pathname

abbrev pub key_of : Option WorkspaceNavigationItem → Option WorkspaceNavigationKey
key_of none = none
key_of (some i) = some i.key

abbrev pub mobile_items : List WorkspaceNavigationItem
mobile_items = filter (λ i. i.mobile) workspace_navigation

abbrev selected_below : String → String → Option WorkspaceNavigationKey
selected_below pathname organization =
    if is_prefix (path_below organization "/contacts") pathname
    then some companies
    else (if is_prefix (path_below organization "/costing") pathname
        then some services
        else key_of (find (is_selected pathname organization) mobile_items))

-- `false` is `none`.
unfoldable pub selected_mobile_navigation : String → Option String → Option WorkspaceNavigationKey
selected_mobile_navigation pathname none = none
selected_mobile_navigation pathname (some organization) =
    if not (truthy organization) then none else selected_below pathname organization
