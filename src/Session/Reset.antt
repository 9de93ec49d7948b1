-- ===== src/Session/Reset.antt =====
-- The page that resets a password (frontend/src/pages/ResetPassword/ResetPasswordPage.tsx). Texts of
-- the translator are a parameter, and an error of the server is its message.
use bubllio_crm.Prelude.{
  String, Bool, true, false, Option, none, some, ◌==◌, ◌≡◌, refl, sym, ◌∙◌, ◌&&◌, ◌||◌,
  if◌then◌else◌, arith, eq_iff, ap, Bool-cases, inl, inr,
}
use bubllio_crm.Js.Text.{truthy}

-- The parts of the link that was sent, if the page was opened by one.
pub record Link : Type 0 where
  pub uid : Option String
  pub token : Option String

pub record Texts : Type 0 where
  pub mismatch : String
  pub request_success : String
  pub reset_success : String

pub data ResetRequest : Type 0 where
  request_reset : (email : String) → ResetRequest
  confirm_reset : (uid token password : String) → ResetRequest

pub record ResetPage : Type 0 where
  pub email : String
  pub password : String
  pub confirmation : String
  pub message : String
  pub error : String
  pub reset_complete : Bool
  -- The request that runs, while `pending` is set.
  pub pending : Option ResetRequest

abbrev pub empty_page : ResetPage
empty_page = record {
  email = "";
  password = "";
  confirmation = "";
  message = "";
  error = "";
  reset_complete = false;
  pending = none;
}

-- The uid and the token, where both are given and not empty.
abbrev both_of : String → String → Option (String × String)
both_of uid token = if truthy uid && truthy token then some (uid, token) else none

abbrev given_link : Option String → Option String → Option (String × String)
given_link none token = none
given_link (some uid) none = none
given_link (some uid) (some token) = both_of uid token

-- Until the request settles: the page after the form was sent, with the request that then runs.
abbrev ask : Option (String × String) → Texts → ResetPage → ResetPage
ask none texts s = record s { pending = some (request_reset s.email) }
ask (some (uid, token)) texts s =
    if s.password == s.confirmation
    then record s { pending = some (confirm_reset uid token s.password) }
    else record s { error = texts.mismatch }

abbrev pub cleared : ResetPage → ResetPage
cleared s = record s { error = ""; message = "" }

unfoldable pub submit : Link → Texts → ResetPage → ResetPage
submit link texts s = ask (given_link link.uid link.token) texts (cleared s)

-- The page after a request succeeded.
unfoldable pub succeed : Texts → ResetRequest → ResetPage → ResetPage
succeed texts (request_reset email) s = record s { message = texts.request_success; pending = none }
succeed texts (confirm_reset uid token password) s = record s {
  password = "";
  confirmation = "";
  reset_complete = true;
  message = texts.reset_success;
  pending = none;
}

-- The page after one failed with a message.
unfoldable pub fail : (reason : String) → ResetPage → ResetPage
fail reason s = record s { error = reason; pending = none }

-- What happens on the page of a link: typing, also while a request runs; sending the form, which
-- stays possible until a reset succeeded and is not while a request runs; and the end of a request.
pub data Step (link : Link) (texts : Texts) : ResetPage → ResetPage → Type 0 where
  types :
      (email password confirmation : String) (s : ResetPage)
      → Step link texts s
          (record s { email = email; password = password; confirmation = confirmation })
  submits :
      (s : ResetPage)
      → s.pending ≡ none
      → s.reset_complete ≡ false
      → Step link texts s (submit link texts s)
  succeeds :
      (r : ResetRequest) (s : ResetPage)
      → s.pending ≡ some r
      → Step link texts s (succeed texts r s)
  fails :
      (r : ResetRequest) (reason : String) (s : ResetPage)
      → s.pending ≡ some r
      → Step link texts s (fail reason s)

pub data Reachable (link : Link) (texts : Texts) : ResetPage → Type 0 where
  start : Reachable link texts empty_page
  step : {s t : ResetPage} → Reachable link texts s → Step link texts s t → Reachable link texts t

abbrev runs : Option ResetRequest → Bool
runs none = false
runs (some r) = true

-- An error or a message is shown, not both, and neither while a request runs.
abbrev pub IsClear : ResetPage → Type 0
IsClear s =
    ((truthy s.error && truthy s.message) ≡ false)
    × ((runs s.pending && (truthy s.error || truthy s.message)) ≡ false)

ask-IsClear :
    (found : Option (String × String)) (texts : Texts) (s : ResetPage)
    → s.pending ≡ none
    → IsClear (ask found texts (cleared s))
ask-IsClear none texts s idle = (refl, refl)
ask-IsClear (some (uid, token)) texts s idle = elim (Bool-cases (s.password == s.confirmation)) [
  | inl same ↦ rw same (refl, refl)
  | inr differ ↦ rw (differ, idle) (ground arith, refl)
]

no_error :
    (s : ResetPage) (message : String) {r : ResetRequest}
    → s.pending ≡ some r
    → IsClear s
    → (truthy s.error && truthy message) ≡ false
no_error s message busy (one, none_shown) =
    let running : runs s.pending ≡ true = ap runs busy in ground (arith, running, none_shown)

no_message :
    (s : ResetPage) (reason : String) {r : ResetRequest}
    → s.pending ≡ some r
    → IsClear s
    → (truthy reason && truthy s.message) ≡ false
no_message s reason busy (one, none_shown) =
    let running : runs s.pending ≡ true = ap runs busy in ground (arith, running, none_shown)

Step-IsClear :
    {link : Link} {texts : Texts} {s t : ResetPage} → Step link texts s t → IsClear s → IsClear t
unfolding submit succeed fail
Step-IsClear (types email password confirmation s) h = h
Step-IsClear {link} {texts} (submits s idle unfinished) h =
    ask-IsClear (given_link link.uid link.token) texts s idle
Step-IsClear (succeeds (request_reset email) s busy) h = (no_error s _ busy h, refl)
Step-IsClear (succeeds (confirm_reset uid token password) s busy) h = (no_error s _ busy h, refl)
Step-IsClear (fails r reason s busy) h = (no_message s reason busy h, refl)

-- Whatever is typed and however the requests end, the page shows an error or a message, never both,
-- and neither while a request runs.
pub Reachable-IsClear :
    {link : Link} {texts : Texts} {s : ResetPage} → Reachable link texts s → IsClear s
Reachable-IsClear start = (refl, refl)
Reachable-IsClear (step r e) = Step-IsClear e (Reachable-IsClear r)

-- The parts of a request that sets a password.
abbrev parts_of : Option ResetRequest → Option (String × String × String)
parts_of none = none
parts_of (some (request_reset email)) = none
parts_of (some (confirm_reset uid token password)) = some (uid, token, password)

asked_parts :
    (found : Option (String × String)) (texts : Texts) (s : ResetPage) (uid token password : String)
    → s.pending ≡ none
    → parts_of (ask found texts (cleared s)).pending ≡ some (uid, token, password)
    → (found ≡ some (uid, token)) × (s.password ≡ password) × (s.confirmation ≡ password)
asked_parts none texts s uid token password idle h = absurd (cc h)
asked_parts (some (u, t)) texts s uid token password idle h =
    elim (Bool-cases (s.password == s.confirmation)) [
      | inl same ↦
          let sent : Path (Option (String × String × String)) (some (u, t, s.password))
              (some (uid, token, password)) =
            sym (rw same refl) ∙ h in
          let equal : s.password ≡ s.confirmation = (eq_iff s.password s.confirmation).0 same in
          (cc sent, cc sent, cc (sent, equal))
      | inr differ ↦ absurd (ground (arith, differ, idle, h))
    ]

-- On a page that runs no request, sending the form starts one that sets a password only where the
-- page was opened by a whole link, for that link, and where the password was typed twice.
pub submit-parts_of :
    (link : Link) (texts : Texts) (s : ResetPage) (uid token password : String)
    → s.pending ≡ none
    → parts_of (submit link texts s).pending ≡ some (uid, token, password)
    → (given_link link.uid link.token ≡ some (uid, token))
      × (s.password ≡ password)
      × (s.confirmation ≡ password)
unfolding submit
submit-parts_of link texts s = asked_parts (given_link link.uid link.token) texts s
