-- ===== src/Requests.antt =====
-- What the requests of the services share (`organizationPath` of
-- frontend/src/features/organizations/services/organizationService.ts and the services of
-- frontend/src/features/): paths, methods and the parameters after `?`.
pub mod Deals
pub mod Companies
pub mod Contacts
pub mod Services
pub mod Costing
pub mod Organizations
pub mod Invitations
use Prim.Native.String
use bubllio_crm.Prelude.{
  ℕ, String, Option, none, some, List, [], ◌∷◌, ◌==◌, if◌then◌else◌, ◌≡◌, refl, arith,
}
use bubllio_crm.Js.Text.{truthy, trim}
use bubllio_crm.Js.Map
use bubllio_crm.Js.Map.{lookup-set}

-- A value that is given and not empty.
abbrev pub sent : Option String → Option String
sent none = none
sent (some s) = if truthy s then some s else none

-- if (value) params.set(key, value)
abbrev pub set_if : String → Option String → List (String × String) → List (String × String)
set_if key none params = params
set_if key (some v) params = if truthy v then Map.set key v params else params

abbrev or_old : Option String → Option String → Option String
or_old none old = old
or_old (some v) old = some v

-- value?.trim()
abbrev pub trimmed : Option String → Option String
trimmed none = none
trimmed (some s) = some (trim s)

pub data Method : Type 0 where
  get post patch delete : Method

-- What is passed to `request`, without the body: the path, the parameters after `?` and the method,
-- which is POST where the code names none and gives a body.
pub record Request : Type 0 where
  pub path : String
  pub params : List (String × String)
  pub method : Method

abbrev pub plain : String → Method → Request
plain path method = record { path = path; params = []; method = method }

abbrev pub with_params : List (String × String) → String → Request
with_params params path = record { path = path; params = params; method = get }

-- `encode` is encodeURIComponent.
module _ (encode : String → String) where
  unfoldable pub organization_path : String → String
  organization_path id = String.◌++◌ "/organizations/" (String.◌++◌ (encode id) "/")

  -- The id of a record and a slash, where there is one.
  abbrev pub segment : Option String → String
  segment none = ""
  segment (some id) = if truthy id then String.◌++◌ (encode id) "/" else ""

  -- `${encodeURIComponent(id)}/`
  abbrev pub id_segment : String → String
  id_segment id = String.◌++◌ (encode id) "/"

pub lookup-set_if :
    (k j : String) (v : Option String) (params : List (String × String))
    → Map.lookup j (set_if k v params)
      ≡ (if k == j then or_old (sent v) (Map.lookup j params) else Map.lookup j params)
lookup-set_if k j none params = ground arith
lookup-set_if k j (some v) params = ground (arith, lookup-set k j v params)

pub or_none : (o : Option String) → or_old o none ≡ o
or_none none = refl
or_none (some v) = refl
