-- ===== src/Session/Store.antt =====
-- frontend/src/features/auth/store/authStore.ts. What the `persist` middleware writes to the storage
-- is left out.
use bubllio_crm.Prelude.{ℕ, String, Bool, Option, none, some, List, ◌==◌, not, filter}
use bubllio_crm.Js.Map.{lookup, set}

pub record AuthUser : Type 0 where
  pub id : ℕ
  pub username : String
  pub email : String
  pub is_superuser : Bool
  pub can_create_workspaces : Option Bool

pub record AuthState : Type 0 where
  pub access_token : Option String
  pub refresh_token : Option String
  pub user : Option AuthUser

pub record TokenPair : Type 0 where
  pub access : String
  pub refresh : String

abbrev pub signed_out : AuthState
signed_out = record { access_token = none; refresh_token = none; user = none }

unfoldable pub set_session : TokenPair → AuthUser → AuthState → AuthState
set_session tokens user s = record {
  access_token = some tokens.access;
  refresh_token = some tokens.refresh;
  user = some user;
}

unfoldable pub set_access_token : String → AuthState → AuthState
set_access_token token s = record s { access_token = some token }

-- useAuthStore.setState({ refreshToken })
abbrev pub set_refresh_token : String → AuthState → AuthState
set_refresh_token token s = record s { refresh_token = some token }

unfoldable pub clear_session : AuthState → AuthState
clear_session s = signed_out

-- `fallbackStorage`, a `Map` of texts, where the browser's session storage is not available.
abbrev pub get_item : String → List (String × String) → Option String
get_item name m = lookup name m

abbrev pub set_item : String → String → List (String × String) → List (String × String)
set_item name value m = set name value m

abbrev pub remove_item : String → List (String × String) → List (String × String)
remove_item name m = filter (λ (e : String × String). not (e.0 == name)) m
