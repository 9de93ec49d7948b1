-- ===== src/Tests/Session.antt =====
-- The theorems on the session.
use bubllio_crm.Prelude.{ℕ, Bool, true, false, none, some, ◌≡◌, refl, nat_eq, ◌+◌, ◌⊎◌, inl, String}
use bubllio_crm.Session.Reset
use bubllio_crm.Session.Reset.{Reachable-IsClear, IsClear}
use bubllio_crm.Session.Store.{AuthState, AuthUser, TokenPair, signed_out, clear_session}
use bubllio_crm.Session.Auth.{
  Client, Reply, reply, failure, login, login_lem, SignedIn, Unread, Refused,
}
use bubllio_crm.Session.Invite.{Accepted, finish, finish-IsWhole, IsWhole}
use bubllio_crm.Workspace.Navigation.{overview, path_below, selected_mobile_navigation}
use bubllio_crm.Workspace.Pages.{selected_mobile_navigation_lem}
use bubllio_crm.Session.Api.{api_base, api_base_sound, has_reserved}
use bubllio_crm.Session.Refresh.{
  Request, Session, initial, start, step, fails, on_error, RefreshResponse, on_refreshed,
}
use bubllio_crm.Session.Refresh.Laws.{
  Reachable-IsConsistent, IsConsistent, handled, handled_lem, on_refreshed-clear_session,
}

accepted : api_base "/api/v1/" ≡ some "/api/v1"
unfolding api_base
accepted = refl

api_base_sound_example : has_reserved "/api/v1" ≡ false
api_base_sound_example = (api_base_sound "/api/v1/" "/api/v1" accepted).0

abbrev signed_in : AuthState
signed_in = record { access_token = some "old"; refresh_token = some "r"; user = none }

abbrev first : Request
first = record { id = 1; url = "/organizations/"; retry = false }

abbrev second : Request
second = record { id = 2; url = "/search/"; retry = true }

-- One request fails with 401 and waits.
abbrev one_waits : Session
one_waits = on_error (some 401) first (initial signed_in)

Reachable-IsConsistent_example : IsConsistent one_waits
Reachable-IsConsistent_example =
    Reachable-IsConsistent (step start (fails (some 401) first (initial signed_in)))

abbrev is_first : ℕ → Bool
is_first n = nat_eq n 1

abbrev response : RefreshResponse
response = record { access = "new"; refresh = none }

handled_lem_example :
    handled is_first (on_error (some 401) first (initial signed_in))
    ≡ handled is_first (initial signed_in) + 1
handled_lem_example = (handled_lem is_first (some 401) first response (initial signed_in)).0

on_refreshed-clear_session_example :
    (on_refreshed response (record one_waits { store = clear_session one_waits.store })).store.user
    ≡ none
on_refreshed-clear_session_example = (on_refreshed-clear_session response one_waits).1

abbrev tokens : TokenPair
tokens = record { access = "a"; refresh = "r" }

abbrev nobody : Client ℕ
nobody = record { store = signed_out; queries = 0 }

abbrev unknown_user : AuthState → Reply String AuthUser
unknown_user s = failure "offline"

abbrev wait : Client ℕ → Client ℕ
wait c = c

login_lem_example :
    SignedIn 0
      (reply tokens)
      unknown_user
      wait
      nobody
      (login 0 (reply tokens) unknown_user wait wait nobody)
    ⊎ (Unread 0
          (reply tokens)
          unknown_user
          wait
          nobody
          (login 0 (reply tokens) unknown_user wait wait nobody)
        ⊎ Refused 0
            (reply tokens)
            unknown_user
            wait
            nobody
            (login 0 (reply tokens) unknown_user wait wait nobody))
login_lem_example = login_lem 0 (reply tokens) unknown_user wait wait nobody

abbrev expired : Reply String Accepted
expired = failure "expired"

-- A 401 of the request signs the user out.
abbrev signs_out : AuthState → AuthState
signs_out s = signed_out

finish-IsWhole_example :
    IsWhole
      (finish signs_out signs_out signs_out false expired
        (failure "offline")
        (failure "offline")
        signed_out).0
finish-IsWhole_example =
    (finish-IsWhole signs_out signs_out signs_out expired "gone" true (failure "offline")
      (failure "offline") signed_out (λ t h. inl refl) (inl refl)).0

selected_mobile_navigation_lem_example :
    selected_mobile_navigation (path_below "o" "/") (some "o") ≡ some overview
selected_mobile_navigation_lem_example = (selected_mobile_navigation_lem "o" "/x" refl).3

abbrev texts : Reset.Texts
texts = record { mismatch = "no"; request_success = "sent"; reset_success = "done" }

abbrev no_link : Reset.Link
no_link = record { uid = none; token = none }

Reachable-IsClear_example : IsClear (Reset.submit no_link texts Reset.empty_page)
Reachable-IsClear_example =
    Reachable-IsClear (Reset.step Reset.start (Reset.submits Reset.empty_page refl refl))
