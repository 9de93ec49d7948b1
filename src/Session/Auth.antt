-- ===== src/Session/Auth.antt =====
-- Signing in and out (frontend/src/features/auth/hooks/useAuth.tsx). The calls of the server are
-- parameters, and so is `during`, what other code does to the session store and the query cache while
-- a call runs.
use bubllio_crm.Prelude.{◌⊎◌, String, Option, none, some, if◌then◌else◌, ◌≡◌, refl, inl, inr}
use bubllio_crm.Js.Text.{truthy}
use bubllio_crm.Session.Store.{
  AuthState, AuthUser, TokenPair, signed_out, set_session, clear_session,
}
use bubllio_crm.Session.Routes.{WorkspacePage, account_settings, workspace, to_home, before_load}

-- The session store and the query cache, which `queryClient.clear()` empties.
pub record Client (C : Type 0) : Type 0 where
  pub store : AuthState
  pub queries : C

pub data Reply (E T : Type 0) : Type 0 where
  reply : T → Reply E T
  failure : E → Reply E T

pub data LoginError (E : Type 0) : Type 0 where
  invalid_credentials : LoginError E
  rethrown : E → LoginError E

module _ {C : Type 0} (no_queries : C) where
  abbrev end_session : Client C → Client C
  end_session c = record { store = clear_session c.store; queries = no_queries }

  abbrev clear_queries : Client C → Client C
  clear_queries c = record c { queries = no_queries }

  -- useAuthStore.setState({ accessToken, refreshToken })
  abbrev store_tokens : TokenPair → Client C → Client C
  store_tokens tokens c = record c {
    store = record c.store {
      access_token = some tokens.access;
      refresh_token = some tokens.refresh;
    };
  }

  -- The client of which the user is asked, once the server gave tokens.
  abbrev pub asked_client : (Client C → Client C) → TokenPair → Client C → Client C
  asked_client during_token tokens c = store_tokens tokens (during_token (clear_queries c))

  module _ {E : Type 0} where
    -- authService.logout(refresh), if there is a token
    abbrev pub call_logout : (String → Option E) → Option String → Option E
    call_logout call none = none
    call_logout call (some refresh) = if truthy refresh then call refresh else none

    -- The client after `logout`, and what it throws.
    unfoldable pub logout :
        (String → Option E) → (Client C → Client C) → Client C → Client C × Option E
    logout call during c = (end_session (during c), call_logout call c.store.refresh_token)

    abbrev finish_login : TokenPair → Reply E AuthUser → Client C → Client C × Option (LoginError E)
    finish_login tokens (reply user) c =
        (record c { store = set_session tokens user c.store }, none)
    finish_login tokens (failure e) c =
        (record c { store = clear_session c.store }, some (rethrown e))

    abbrev login_with :
        (AuthState → Reply E AuthUser)
        → (Client C → Client C)
        → Reply E TokenPair
        → Client C
        → Client C × Option (LoginError E)
    login_with current_user during (failure e) c = (c, some invalid_credentials)
    login_with current_user during (reply tokens) c =
        let asked = store_tokens tokens c in
        finish_login tokens (current_user asked.store) (during asked)

    -- The client after `login`, and what it throws.
    unfoldable pub login :
        Reply E TokenPair
        → (AuthState → Reply E AuthUser)
        → (Client C → Client C)
        → (Client C → Client C)
        → Client C
        → Client C × Option (LoginError E)
    login tokens current_user during_token during_user c =
        login_with current_user during_user tokens (during_token (clear_queries c))

    -- However the call of the server ends, whatever runs meanwhile, and whether or not there was a
    -- token: after signing out the store holds no session and the cache no query, the account's settings
    -- and every page of a workspace redirect to the home page, and what the call threw is thrown.
    pub logout_lem :
        (call : String → Option E) (during : Client C → Client C) (c : Client C)
        (organization : String) (page : WorkspacePage)
        → ((logout call during c).0 ≡ record { store = signed_out; queries = no_queries })
          × (before_load account_settings (logout call during c).0.store ≡ some to_home)
          × (before_load (workspace organization page) (logout call during c).0.store
              ≡ some to_home)
          × ((logout call during c).1 ≡ call_logout call c.store.refresh_token)
    unfolding logout clear_session before_load
    logout_lem call during c organization page = (refl, refl, refl, refl)

    -- The three ends of signing in, each with its cause: the server gave tokens and, for these, the
    -- user; it gave tokens but not the user; or it gave no tokens.
    module _ (tokens : Reply E TokenPair) (current_user : AuthState → Reply E AuthUser)
        (during_token : Client C → Client C) (c : Client C) where
      abbrev pub SignedIn : Client C × Option (LoginError E) → Type 0
      SignedIn r =
          (pair : TokenPair) × (user : AuthUser) × (tokens ≡ reply pair)
          × (current_user (asked_client during_token pair c).store ≡ reply user)
          × (r.0.store ≡ record {
            access_token = some pair.access;
            refresh_token = some pair.refresh;
            user = some user;
          })
          × (r.1 ≡ none)

      abbrev pub Unread : Client C × Option (LoginError E) → Type 0
      Unread r =
          (pair : TokenPair) × (e : E) × (tokens ≡ reply pair)
          × (current_user (asked_client during_token pair c).store ≡ failure e)
          × (r.0.store ≡ signed_out)
          × (r.1 ≡ some (rethrown e))

      abbrev pub Refused : Client C × Option (LoginError E) → Type 0
      Refused r =
          (e : E) × (tokens ≡ failure e)
          × (r.0 ≡ during_token (clear_queries c))
          × (r.1 ≡ some invalid_credentials)

    finish_login-ends :
        (pair : TokenPair) (current_user : AuthState → Reply E AuthUser)
        (during_token : Client C → Client C) (c d : Client C) (user : Reply E AuthUser)
        → current_user (asked_client during_token pair c).store ≡ user
        → SignedIn (reply pair) current_user during_token c (finish_login pair user d)
          ⊎ Unread (reply pair) current_user during_token c (finish_login pair user d)
    unfolding set_session clear_session
    finish_login-ends pair current_user during_token c d (reply user) h =
        inl (pair, user, refl, h, refl, refl)
    finish_login-ends pair current_user during_token c d (failure e) h =
        inr (pair, e, refl, h, refl, refl)

    -- Signing in has one of three ends. The server gave tokens and, for these, a user: the session is
    -- that of the tokens and the user, and nothing is thrown. It gave tokens but not the user: there is
    -- no session, and that error is thrown again. It gave no tokens: the client is what it was when
    -- their request ended, with no queries before it, and the code's own error is thrown.
    pub login_lem :
        (tokens : Reply E TokenPair) (current_user : AuthState → Reply E AuthUser)
        (during_token during_user : Client C → Client C) (c : Client C)
        → SignedIn tokens current_user during_token c
            (login tokens current_user during_token during_user c)
          ⊎ (Unread tokens current_user during_token c
                (login tokens current_user during_token during_user c)
              ⊎ Refused tokens current_user during_token c
                  (login tokens current_user during_token during_user c))
    unfolding login
    login_lem (failure e) current_user during_token during_user c = inr (inr (e, refl, refl, refl))
    login_lem (reply pair) current_user during_token during_user c =
        let asked = asked_client during_token pair c in
        elim (finish_login-ends pair current_user during_token c (during_user asked)
          (current_user asked.store) refl) [ inl done ↦ inl done | inr unread ↦ inr (inl unread) ]
