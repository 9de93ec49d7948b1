-- ===== src/Session/Routes.antt =====
-- The guards that the routes run before they load (frontend/src/routes/router.tsx), where a route
-- with no guard of its own runs those of its parents. The parents' guards first is TanStack Router's
-- order.
use bubllio_crm.Prelude.{String, Option, none, some, if◌then◌else◌}
use bubllio_crm.Session.Store.{AuthState}
use bubllio_crm.Js.Text.{truthy}

-- The pages below `/organizations/$organizationId`.
pub data WorkspacePage : Type 0 where
  overview inbox companies company_detail contacts deals deal_detail tasks services : WorkspacePage
  customer_services billing service_catalog collaborators members settings : WorkspacePage

pub data Route : Type 0 where
  home login invite installation_admin_invite password_reset password_reset_confirm
        account_settings :
      Route
  workspace : (organization : String) → WorkspacePage → Route

abbrev pub page_path : WorkspacePage → String
page_path overview = "/"
page_path inbox = "/inbox"
page_path companies = "/companies"
page_path company_detail = "/companies/$companyId"
page_path contacts = "/contacts"
page_path deals = "/deals"
page_path deal_detail = "/deals/$dealId"
page_path tasks = "/tasks"
page_path services = "/services"
page_path customer_services = "/services/customer-services"
page_path billing = "/services/billing"
page_path service_catalog = "/services/catalog"
page_path collaborators = "/costing/collaborators"
page_path members = "/members"
page_path settings = "/settings"

pub data Redirect : Type 0 where
  to_home : Redirect
  to_customer_services : (organization : String) → Redirect

abbrev pub signed_in : Option String → Option Redirect
signed_in none = some to_home
signed_in (some token) = if truthy token then none else some to_home

abbrev page_guard : String → WorkspacePage → Option Redirect
page_guard organization services = some (to_customer_services organization)
page_guard organization overview = none
page_guard organization _ = none

abbrev pub or_else : Option Redirect → Option Redirect → Option Redirect
or_else none second = second
or_else (some redirect) second = some redirect

-- What `beforeLoad` throws, or `none`.
unfoldable pub before_load : Route → AuthState → Option Redirect
before_load home s = none
before_load login s = some to_home
before_load invite s = none
before_load installation_admin_invite s = none
before_load password_reset s = none
before_load password_reset_confirm s = none
before_load account_settings s = signed_in s.access_token
before_load (workspace organization page) s =
    or_else (signed_in s.access_token) (page_guard organization page)
