-- ===== src/Session/Refresh/Laws.antt =====
-- The reachable states of the response interceptor (frontend/src/services/api.ts).
use bubllio_crm.Prelude.{
  String, ℕ, suc, ◌+◌, Bool, true, false, Option, none, some, [], ◌∷◌, if◌then◌else◌, ◌≡◌, refl,
  arith, All, All-append, count, count-append, Bool-cases, inl, inr,
}
use bubllio_crm.Session.Store.{AuthState, signed_out, clear_session, set_access_token}
use bubllio_crm.Js.Text.{truthy}
use bubllio_crm.Session.Refresh.{
  store_response, Request, Session, is_final, has_text, await_refresh, on_error, RefreshResponse,
  on_refreshed, on_refresh_failed, Step, fails, refreshes, refresh_fails, signs_in, signs_out,
  Reachable, start, step,
}

abbrev pub IsRetry : Request → Type 0
IsRetry r = r.retry ≡ true

-- The refreshes in flight are none or one, what waits has its mark set, and it waits only while a
-- refresh is in flight; what was sent again has its mark set too.
pub record IsConsistent (s : Session) : Type 0 where
  pub in_flight : s.posted ≡ s.settled + (if s.refreshing then 1 else 0)
  pub awaited : s.refreshing ≡ false → s.waiting ≡ []
  pub marked : All IsRetry s.waiting
  pub marked_resent : All IsRetry s.resent

settles :
    (posted settled : ℕ) (busy : Bool)
    → busy ≡ true
    → posted ≡ settled + (if busy then 1 else 0)
    → posted ≡ suc settled + 0
settles posted settled busy h e = ground arith

posts :
    (posted settled : ℕ) (busy : Bool)
    → posted ≡ settled + (if busy then 1 else 0)
    → (if busy then posted else suc posted) ≡ settled + 1
posts posted settled busy e = ground arith

-- A rejection changes neither the refresh nor what waits.
reject-IsConsistent :
    (r : Request) (s : Session) (store : AuthState)
    → IsConsistent s
    → IsConsistent (record s { store = store; rejected = r ∷ s.rejected })
reject-IsConsistent r s store h = record {
  in_flight = h.in_flight;
  awaited = h.awaited;
  marked = h.marked;
  marked_resent = h.marked_resent;
}

await_refresh-IsConsistent :
    (r : Request) (s : Session) → IsConsistent s → IsConsistent (await_refresh r s)
await_refresh-IsConsistent r s h = record {
  in_flight = posts s.posted s.settled s.refreshing h.in_flight;
  awaited = λ e. absurd (cc e);
  marked = (refl, h.marked);
  marked_resent = h.marked_resent;
}

on_error-IsConsistent :
    (status : Option ℕ) (r : Request) (s : Session)
    → IsConsistent s
    → IsConsistent (on_error status r s)
unfolding on_error
on_error-IsConsistent status r s h = elim (Bool-cases (is_final status r)) [
  | inl final ↦ rw final (reject-IsConsistent r s s.store h)
  | inr retried ↦ rw retried (elim (Bool-cases (has_text s.store.refresh_token)) [
    | inl token ↦ rw token (await_refresh-IsConsistent r s h)
    | inr missing ↦ rw missing (reject-IsConsistent r s (clear_session s.store) h)
  ])
]

Step-IsConsistent : {s t : Session} → Step s t → IsConsistent s → IsConsistent t
unfolding on_refreshed on_refresh_failed
Step-IsConsistent (fails status r s) h = on_error-IsConsistent status r s h
Step-IsConsistent (refreshes response s busy) h = record {
  in_flight = settles s.posted s.settled s.refreshing busy h.in_flight;
  awaited = λ e. refl;
  marked = tt;
  marked_resent = All-append IsRetry s.waiting s.resent h.marked h.marked_resent;
}
Step-IsConsistent (refresh_fails s busy) h = record {
  in_flight = settles s.posted s.settled s.refreshing busy h.in_flight;
  awaited = λ e. refl;
  marked = tt;
  marked_resent = h.marked_resent;
}
Step-IsConsistent (signs_in tokens user s) h = record {
  in_flight = h.in_flight;
  awaited = h.awaited;
  marked = h.marked;
  marked_resent = h.marked_resent;
}
Step-IsConsistent (signs_out s) h = record {
  in_flight = h.in_flight;
  awaited = h.awaited;
  marked = h.marked;
  marked_resent = h.marked_resent;
}

-- In every state that requests and users can reach, at most one refresh is in flight, no request
-- waits without one, and each request that waits or was sent again is marked as a retry.
pub Reachable-IsConsistent : {store : AuthState} {s : Session} → Reachable store s → IsConsistent s
Reachable-IsConsistent start = record {
  in_flight = refl;
  awaited = λ e. refl;
  marked = tt;
  marked_resent = tt;
}
Reachable-IsConsistent (step r e) = Step-IsConsistent e (Reachable-IsConsistent r)

-- How often a request, by its id, waits or has left the interceptor.
abbrev pub handled : (ℕ → Bool) → Session → ℕ
handled p s =
    count (λ (r : Request). p r.id) s.waiting
    + count (λ (r : Request). p r.id) s.rejected
    + count (λ (r : Request). p r.id) s.resent

-- No request is lost and none is answered twice: a failed request waits or is rejected, once, and
-- when the refresh settles each that waits is sent again or rejected, once.
pub handled_lem :
    (p : ℕ → Bool) (status : Option ℕ) (r : Request) (response : RefreshResponse) (s : Session)
    → (handled p (on_error status r s) ≡ handled p s + (if p r.id then 1 else 0))
      × (handled p (on_refreshed response s) ≡ handled p s)
      × (handled p (on_refresh_failed s) ≡ handled p s)
      × ((on_refreshed response s).waiting ≡ [])
      × ((on_refresh_failed s).waiting ≡ [])
unfolding on_error on_refreshed on_refresh_failed
handled_lem p status r response s =
    let of_id = λ (x : Request). p x.id in
    (
      ground arith,
      omega (arith, count-append of_id s.waiting s.resent),
      omega (arith, count-append of_id s.waiting s.rejected),
      refl,
      refl,
    )

store_response-signed_out :
    (access : String) (refresh : Option String)
    → ((store_response (record { access = access; refresh = refresh }) signed_out).access_token
        ≡ some access)
      × ((store_response (record { access = access; refresh = refresh }) signed_out).user ≡ none)
unfolding set_access_token
store_response-signed_out access none = (refl, refl)
store_response-signed_out access (some token) = elim (Bool-cases (truthy token)) [
  | inl given ↦ rw given (refl, refl)
  | inr empty ↦ rw empty (refl, refl)
]

-- When the user signs out while a refresh is in flight and the refresh then succeeds, the store
-- holds the new access token again, but no user.
pub on_refreshed-clear_session :
    (response : RefreshResponse) (s : Session)
    → ((on_refreshed response (record s { store = clear_session s.store })).store.access_token
        ≡ some response.access)
      × ((on_refreshed response (record s { store = clear_session s.store })).store.user ≡ none)
unfolding on_refreshed clear_session
on_refreshed-clear_session response s = store_response-signed_out response.access response.refresh
