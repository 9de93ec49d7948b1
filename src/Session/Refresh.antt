-- ===== src/Session/Refresh.antt =====
-- The response interceptor of frontend/src/services/api.ts: a request that the server refuses with
-- 401 waits for one refresh of the access token, which all such requests share, and is sent again.
-- A step is one reaction to the network or to the user, which JavaScript runs without interruption;
-- the handlers that run when the refresh settles belong to that step.
pub mod Laws
use bubllio_crm.Prelude.{
  ℕ, zero, suc, ◌+◌, ◌≤◌, String, Bool, true, false, not, ◌&&◌, ◌||◌, Option, none, some, List, [],
  ◌∷◌, ◌++◌, nat_eq, if◌then◌else◌, ◌≡◌, refl, arith, map, All, All-append, count, count-append,
  count-map, is_empty, Bool-cases, inl, inr, length,
}
use bubllio_crm.Js.Text.{truthy, is_prefix}
use bubllio_crm.Session.Store.{
  AuthState, AuthUser, TokenPair, signed_out, set_session, set_access_token, set_refresh_token,
  clear_session,
}

-- A request and its `_retry` mark. `id` tells requests apart.
pub record Request : Type 0 where
  pub id : ℕ
  pub url : String
  pub retry : Bool

-- The store, the shared refresh, the requests that wait for it, and what has left the interceptor:
-- the requests rejected, those sent again, and the number of refreshes that were posted and that
-- settled.
pub record Session : Type 0 where
  pub store : AuthState
  pub refreshing : Bool
  pub waiting : List Request
  pub rejected : List Request
  pub resent : List Request
  pub posted : ℕ
  pub settled : ℕ

-- original.url?.startsWith('/auth/token/')
abbrev pub is_auth_route : Request → Bool
is_auth_route r = is_prefix "/auth/token/" r.url

-- error.response.status !== 401 || original._retry || isAuthRoute; no response is `none`.
abbrev pub is_final : Option ℕ → Request → Bool
is_final none r = true
is_final (some status) r = not (nat_eq status 401) || (r.retry || is_auth_route r)

abbrev pub reject : Request → Session → Session
reject r s = record s { rejected = r ∷ s.rejected }

abbrev pub has_text : Option String → Bool
has_text none = false
has_text (some t) = truthy t

-- refreshing ??= apiClient.post(…)
abbrev pub await_refresh : Request → Session → Session
await_refresh r s = record s {
  waiting = record r { retry = true } ∷ s.waiting;
  refreshing = true;
  posted = if s.refreshing then s.posted else suc s.posted;
}

unfoldable pub on_error : Option ℕ → Request → Session → Session
on_error status r s =
    if is_final status r
    then reject r s
    else (if has_text s.store.refresh_token
        then await_refresh r s
        else reject r (record s { store = clear_session s.store }))

-- data.refresh
pub record RefreshResponse : Type 0 where
  pub access : String
  pub refresh : Option String

abbrev pub store_response : RefreshResponse → AuthState → AuthState
store_response response store =
    let store = set_access_token response.access store in
    elim response.refresh [
      | none ↦ store
      | some token ↦ if truthy token then set_refresh_token token store else store
    ]

-- The refresh succeeds: all that wait are sent again.
unfoldable pub on_refreshed : RefreshResponse → Session → Session
on_refreshed response s = record s {
  store = store_response response s.store;
  refreshing = false;
  waiting = [];
  resent = s.waiting ++ s.resent;
  settled = suc s.settled;
}

-- The refresh fails: each that waits clears the session and is rejected.
unfoldable pub on_refresh_failed : Session → Session
on_refresh_failed s = record s {
  store = if is_empty s.waiting then s.store else clear_session s.store;
  refreshing = false;
  waiting = [];
  rejected = s.waiting ++ s.rejected;
  settled = suc s.settled;
}

pub data Step : Session → Session → Type 0 where
  fails : (status : Option ℕ) (r : Request) (s : Session) → Step s (on_error status r s)
  refreshes :
      (response : RefreshResponse) (s : Session)
      → s.refreshing ≡ true
      → Step s (on_refreshed response s)
  refresh_fails : (s : Session) → s.refreshing ≡ true → Step s (on_refresh_failed s)
  signs_in :
      (tokens : TokenPair) (user : AuthUser) (s : Session)
      → Step s (record s { store = set_session tokens user s.store })
  signs_out : (s : Session) → Step s (record s { store = clear_session s.store })

abbrev pub initial : AuthState → Session
initial store = record {
  store = store;
  refreshing = false;
  waiting = [];
  rejected = [];
  resent = [];
  posted = 0;
  settled = 0;
}

pub data Reachable (store : AuthState) : Session → Type 0 where
  start : Reachable store (initial store)
  step : {s t : Session} → Reachable store s → Step s t → Reachable store t
