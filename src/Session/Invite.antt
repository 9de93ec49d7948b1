-- ===== src/Session/Invite.antt =====
-- Accepting an invitation (`finish` of frontend/src/pages/Invite/InvitePage.tsx), given the outcomes of
-- its requests and what else changes the session store while they run.
use bubllio_crm.Prelude.{
  String, Bool, true, false, Option, none, some, if◌then◌else◌, ◌≡◌, refl, ◌⊎◌, inl, inr,
}
use bubllio_crm.Js.Text.{truthy}
use bubllio_crm.Session.Auth.{Reply, reply, failure}
use bubllio_crm.Session.Store.{
  AuthState, AuthUser, TokenPair, signed_out, set_session, clear_session,
}

-- What the server answers: tokens for a user who is new, and the organization.
pub record Accepted : Type 0 where
  pub tokens : Option TokenPair
  pub organization_id : Option String

pub data Destination : Type 0 where
  home : Destination
  organization : (id : String) → Destination

abbrev open_organization : Option String → Option Destination
open_organization none = none
open_organization (some id) = if truthy id then some (organization id) else none

-- A session is whole: there is none, or it has a token and a user.
abbrev pub IsWhole : AuthState → Type 0
IsWhole s =
    (s ≡ signed_out)
    ⊎ ((token : String) × (user : AuthUser) × (s.access_token ≡ some token) × (s.user ≡ some user))

-- useAuthStore.setState({ accessToken, refreshToken })
abbrev store_tokens : TokenPair → AuthState → AuthState
store_tokens tokens s = record s {
  access_token = some tokens.access;
  refresh_token = some tokens.refresh;
}

module _ {E : Type 0} where
  -- The store after the tokens, or what stands where the code throws.
  abbrev sign_in : Option TokenPair → Reply E AuthUser → AuthState → AuthState × Bool
  sign_in none user s = (s, true)
  sign_in (some tokens) (reply user) s = (set_session tokens user s, true)
  sign_in (some tokens) (failure e) s = (clear_session s, false)

  abbrev open_page :
      (during_again : AuthState → AuthState)
      → Bool
      → Reply E AuthUser
      → Option String
      → AuthState
      → AuthState × Option Destination
  open_page during_again false user id s = (s, open_organization id)
  open_page during_again true (reply user) id s =
      (record (during_again s) { user = some user }, some home)
  open_page during_again true (failure e) id s = (during_again s, none)

  abbrev after_sign_in :
      (during_again : AuthState → AuthState)
      → Bool
      → Reply E AuthUser
      → Option String
      → AuthState × Bool
      → AuthState × Option Destination
  after_sign_in during_again admin again id (s, true) = open_page during_again admin again id s
  after_sign_in during_again admin again id (s, false) = (s, none)

  -- The store and the page that is opened, if any: for the kind of invitation, the answer of the
  -- server, and the user as it is read after the tokens and again at the end. The store changes while
  -- these three requests run as `during_accept`, `during_user` and `during_again` do, among them the
  -- interceptors of frontend/src/services/api.ts.
  abbrev after_tokens :
      (during_user : AuthState → AuthState)
      → Option TokenPair
      → Reply E AuthUser
      → AuthState
      → AuthState × Bool
  after_tokens during_user none user s = (s, true)
  after_tokens during_user (some tokens) user s =
      sign_in (some tokens) user (during_user (store_tokens tokens s))

  unfoldable pub finish :
      (during_accept during_user during_again : AuthState → AuthState)
      → Bool
      → Reply E Accepted
      → Reply E AuthUser
      → Reply E AuthUser
      → AuthState
      → AuthState × Option Destination
  finish during_accept during_user during_again admin (failure e) user again s =
      (during_accept s, none)
  finish during_accept during_user during_again admin (reply a) user again s =
      after_sign_in during_again admin again a.organization_id
        (after_tokens during_user a.tokens user (during_accept s))

  after_tokens-IsWhole :
      (during_user : AuthState → AuthState) (tokens : Option TokenPair) (user : Reply E AuthUser)
      (s : AuthState)
      → IsWhole s
      → IsWhole (after_tokens during_user tokens user s).0
  unfolding set_session clear_session
  after_tokens-IsWhole during_user none user s h = h
  after_tokens-IsWhole during_user (some tokens) (reply user) s h =
      inr (tokens.access, user, refl, refl)
  after_tokens-IsWhole during_user (some tokens) (failure e) s h = inl refl

  organization_page-IsWhole :
      (during_again : AuthState → AuthState) (again : Reply E AuthUser) (id : Option String)
      (r : AuthState × Bool)
      → IsWhole r.0
      → IsWhole (after_sign_in during_again false again id r).0
  organization_page-IsWhole during_again again id (s, true) h = h
  organization_page-IsWhole during_again again id (s, false) h = h

  -- Accepting an invitation to a workspace keeps a session whole, however each request ends, provided
  -- that what else changes the store while the invitation is accepted keeps it whole: it never leaves a
  -- token without a user. While the user is read the store may change in any way. And where the server
  -- refuses the invitation, the store is what the request left, and no page is opened.
  pub finish-IsWhole :
      (during_accept during_user during_again : AuthState → AuthState) (accepted : Reply E Accepted)
      (e : E) (admin : Bool) (user again : Reply E AuthUser) (s : AuthState)
      → ((t : AuthState) → IsWhole t → IsWhole (during_accept t))
      → IsWhole s
      → IsWhole (finish during_accept during_user during_again false accepted user again s).0
        × (finish during_accept during_user during_again admin (failure e) user again s
            ≡ (during_accept s, none))
  unfolding finish
  finish-IsWhole during_accept during_user during_again (failure e') e admin user again s keeps h =
      (keeps s h, refl)
  finish-IsWhole during_accept during_user during_again (reply a) e admin user again s keeps h = (
    organization_page-IsWhole during_again again a.organization_id
        (after_tokens during_user a.tokens user (during_accept s))
        (after_tokens-IsWhole during_user a.tokens user (during_accept s) (keeps s h)),
    refl,
  )
