-- ===== src/Updates/Center.antt =====
-- What the update centre lets a user start
-- (frontend/src/features/updates/components/UpdateCenter.tsx), the polling and the retries of its
-- queries, and the password on its way to the server
-- (frontend/src/features/updates/hooks/useUpdateCenter.ts).
pub mod Laws
use bubllio_crm.Prelude.{
  ap, sym, ◌∙◌, ℕ, zero, suc, ◌+◌, ◌*◌, ◌≤◌, min, String, Bool, true, false, not, ◌&&◌, ◌||◌,
  Option, none, some, List, ◌∷◌, ◌==◌, if◌then◌else◌, ◌≡◌, refl, arith,
}
use bubllio_crm.Js.Text.{truthy}
use bubllio_crm.Updates.Confirmation.{
  UpdateConfirmationState, close, update_confirmation_reducer, password_for, confirmation_for,
  same_version,
}

pub data UpdateMigrationPolicy : Type 0 where
  online_safe maintenance irreversible : UpdateMigrationPolicy

pub data UpdateRunStatus : Type 0 where
  requested preflight backing_up deploying verifying : UpdateRunStatus
  succeeded failed rolled_back manual_intervention : UpdateRunStatus

-- The parts of InstallationUpdatePreflight that the decisions read.
pub record Readiness : Type 0 where
  pub target_version : String
  pub eligible : Bool
  pub migration_policy : UpdateMigrationPolicy

abbrev is_online_safe : UpdateMigrationPolicy → Bool
is_online_safe online_safe = true
is_online_safe maintenance = false
is_online_safe irreversible = false

abbrev pub is_eligible : Option Readiness → Bool
is_eligible none = false
is_eligible (some r) = r.eligible

-- policy !== null && policy !== 'online_safe'
abbrev pub requires_typed_confirmation : Option Readiness → Bool
requires_typed_confirmation none = false
requires_typed_confirmation (some r) = not (is_online_safe r.migration_policy)

-- policy === 'online_safe'
abbrev pub may_start : Option Readiness → Bool
may_start none = false
may_start (some r) = is_online_safe r.migration_policy

-- The dialog's state belongs to the latest version of the status, where there is one.
unfoldable pub can_confirm : Option String → Option Readiness → UpdateConfirmationState → Bool
can_confirm none readiness s = false
can_confirm (some target) readiness s =
    truthy target
    && is_eligible readiness
    && (not (requires_typed_confirmation readiness) || confirmation_for (some target) s == target)

-- What `beginUpdate` asks the server for: a version and the password.
pub record StartRequest : Type 0 where
  pub target_version : String
  pub current_password : String

abbrev pub start_if : Bool → StartRequest → Option StartRequest
start_if true request = some request
start_if false request = none

unfoldable pub begin_update :
    Option String → Option Readiness → UpdateConfirmationState → Option StartRequest
unfolding can_confirm
begin_update none readiness s = none
begin_update (some target) readiness s =
    start_if
      (can_confirm (some target) readiness s
        && may_start readiness
        && truthy (password_for (some target) s))
      (record { target_version = target; current_password = password_for (some target) s })

-- The dialog's state when the request is sent: closed for that version.
abbrev pub close_if_started :
    Option StartRequest → Option String → UpdateConfirmationState → UpdateConfirmationState
close_if_started none target s = s
close_if_started (some request) target s = update_confirmation_reducer s (close target)

unfoldable pub state_at_start :
    Option String → Option Readiness → UpdateConfirmationState → UpdateConfirmationState
state_at_start target readiness s = close_if_started (begin_update target readiness s) target s

-- ACTIVE_RUN_STATES
abbrev pub is_active : UpdateRunStatus → Bool
is_active requested = true
is_active preflight = true
is_active backing_up = true
is_active deploying = true
is_active verifying = true
is_active succeeded = false
is_active failed = false
is_active rolled_back = false
is_active manual_intervention = false

-- The interval of the next poll in milliseconds; `none` is `false`.
unfoldable pub refetch_interval : Option UpdateRunStatus → Option ℕ
refetch_interval none = none
refetch_interval (some status) = if is_active status then some 2000 else none

abbrev pub pow2 : ℕ → ℕ
pow2 zero = 1
pow2 (suc n) = 2 * pow2 n

-- Math.min(1_000 * 2 ** attempt, limit)
unfoldable pub retry_delay : ℕ → ℕ → ℕ
retry_delay limit attempt = min (1000 * pow2 attempt) limit

-- `passwordRef` of useStartUpdate, and what was sent to the server with it.
pub record StartState : Type 0 where
  pub password_ref : Option String
  pub sent : List StartRequest

pub data StartOutcome : Type 0 where
  request_sent password_required : StartOutcome

-- The mutation function: it takes the password out of the reference before anything else.
abbrev pub mutation_fn : String → StartState → StartState × StartOutcome
mutation_fn target s = send s.password_ref
  where
    send : Option String → StartState × StartOutcome
    send none = (record s { password_ref = none }, password_required)
    send (some p) =
        if truthy p
        then (
          record {
            password_ref = none;
            sent = record { target_version = target; current_password = p } ∷ s.sent;
          },
          request_sent,
        )
        else (record s { password_ref = none }, password_required)

-- mutateAsync, with the clean-up of its `finally`; calls do not overlap, as the dialog is closed
-- while one runs.
unfoldable pub start_update : StartRequest → StartState → StartState × StartOutcome
start_update request s =
    let (after, outcome) =
      mutation_fn request.target_version
        (record s { password_ref = some request.current_password }) in
    (record after { password_ref = none }, outcome)
