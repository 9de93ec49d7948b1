-- ===== src/Updates/Center/Laws.antt =====
-- Starting an update and the retries of the queries
-- (frontend/src/features/updates/).
use bubllio_crm.Prelude.{
  ap, sym, ◌∙◌, ℕ, zero, suc, ◌≤◌, String, Bool, true, false, Option, none, some, ◌∷◌,
  if◌then◌else◌, ◌≡◌, refl, arith,
}
use bubllio_crm.Js.Text.{truthy}
use bubllio_crm.Updates.Confirmation.{
  UpdateConfirmationState, close, update_confirmation_reducer, password_for, same_version,
}
use bubllio_crm.Updates.Center.{
  Readiness, is_eligible, may_start, can_confirm, StartRequest, start_if, begin_update,
  state_at_start, pow2, retry_delay, StartState, start_update,
}

start_if-some : (b : Bool) (q r : StartRequest) → start_if b q ≡ some r → (b ≡ true) × (q ≡ r)
start_if-some true q r e = (refl, cc e)
start_if-some false q r e = absurd (cc e)

truthy-if :
    (b : Bool) (p : String) → truthy (if b then p else "") ≡ true → (if b then p else "") ≡ p
truthy-if true p h = refl
truthy-if false p h = absurd (cc h)

password_for-truthy :
    (t : Option String) (s : UpdateConfirmationState)
    → truthy (password_for t s) ≡ true
    → password_for t s ≡ s.current_password
password_for-truthy t s h = truthy-if (same_version s.target_version t) s.current_password h

if_truthy : (b : Bool) (p : String) → truthy (if b then p else "") ≡ true → b ≡ true
if_truthy true p h = refl
if_truthy false p h = absurd (cc h)

typed_for :
    (t : Option String) (s : UpdateConfirmationState)
    → truthy (password_for t s) ≡ true
    → same_version s.target_version t ≡ true
typed_for t s h = if_truthy (same_version s.target_version t) s.current_password h

close-state_at_start :
    (target : Option String) (readiness : Option Readiness) (s : UpdateConfirmationState)
    (r : StartRequest)
    → begin_update target readiness s ≡ some r
    → state_at_start target readiness s ≡ update_confirmation_reducer s (close target)
unfolding state_at_start
close-state_at_start target readiness s r e = rw e refl

-- The same report, for a version.
abbrev pub for_version : String → Option Readiness → Option Readiness
for_version version none = none
for_version version (some r) = some (record r { target_version = version })

for_version-start :
    (target version : String) (readiness : Option Readiness) (s : UpdateConfirmationState)
    → begin_update (some target) (for_version version readiness) s
      ≡ begin_update (some target) readiness s
unfolding begin_update can_confirm
for_version-start target version none s = refl
for_version-start target version (some r) s = refl

-- An update starts only with a readiness report that says eligible, with the policy `online_safe`,
-- and with a password that was typed for the version that starts; but the report may be one for any
-- other version, and the same update starts. Whenever it starts, the dialog's password and
-- confirmation are gone from its state.
pub begin_update_sound :
    (target version : String) (readiness : Option Readiness) (s : UpdateConfirmationState)
    (r : StartRequest)
    → begin_update (some target) readiness s ≡ some r
    → (is_eligible readiness ≡ true)
      × (may_start readiness ≡ true)
      × (begin_update (some target) (for_version version readiness) s ≡ some r)
      × (same_version s.target_version (some target) ≡ true)
      × (r.target_version ≡ target)
      × (r.current_password ≡ s.current_password)
      × (truthy r.current_password ≡ true)
      × ((state_at_start (some target) readiness s).current_password ≡ "")
      × ((state_at_start (some target) readiness s).confirmation ≡ "")
unfolding begin_update can_confirm update_confirmation_reducer
begin_update_sound target version readiness s r e =
    let (ok, q) = start_if-some _ _ _ e in
    let closed = close-state_at_start (some target) readiness s r e in
    let password = ap (λ (x : StartRequest). x.current_password) q in
    let typed = password_for-truthy (some target) s (ground arith) in
    (
      ground arith,
      ground arith,
      for_version-start target version readiness s ∙ e,
      typed_for (some target) s (ground arith),
      sym (ap (λ (x : StartRequest). x.target_version) q),
      sym password ∙ typed,
      ap truthy (sym password) ∙ ground arith,
      rw closed refl,
      rw closed refl,
    )

pow2-pos : (n : ℕ) → 1 ≤ pow2 n
pow2-pos zero = omega arith
pow2-pos (suc n) = omega (arith, pow2-pos n)

-- The delay before a retry is at most the limit, at least one second when the limit is, and never
-- shorter than the delay before.
pub retry_delay_bounds :
    (limit attempt : ℕ)
    → 1000 ≤ limit
    → (retry_delay limit attempt ≤ limit)
      × (1000 ≤ retry_delay limit attempt)
      × (retry_delay limit attempt ≤ retry_delay limit (suc attempt))
unfolding retry_delay
retry_delay_bounds limit attempt h =
    let positive = pow2-pos attempt in (omega arith, omega arith, omega arith)

-- Starting an update never leaves the password in the reference, and it sends exactly one request,
-- the one it was given, when there is a password, and none otherwise.
pub start_update_lem :
    (request : StartRequest) (s : StartState)
    → ((start_update request s).0.password_ref ≡ none)
      × ((start_update request s).0.sent
          ≡ (if truthy request.current_password then request ∷ s.sent else s.sent))
unfolding start_update
start_update_lem request s = ground arith
