-- ===== src/Updates/Confirmation.antt =====
-- The state of the confirmation dialog
-- (frontend/src/features/updates/updateConfirmationState.ts). An action carries the version that
-- the update centre shows when the action is dispatched.
use bubllio_crm.Prelude.{
  ap, String, Bool, true, false, Option, none, some, List, [], ◌∷◌, ◌==◌, if◌then◌else◌, ◌≡◌, refl,
  arith, eq_iff,
}

pub record UpdateConfirmationState : Type 0 where
  pub is_open : Bool
  pub target_version : Option String
  pub confirmation : String
  pub current_password : String

pub data UpdateConfirmationAction : Type 0 where
  open_dialog close : (target_version : Option String) → UpdateConfirmationAction
  confirmation_changed password_changed :
      (target_version : Option String) → (value : String) → UpdateConfirmationAction

-- `===` of two versions, where a version may be `null`
abbrev pub same_version : Option String → Option String → Bool
same_version none none = true
same_version none (some b) = false
same_version (some a) none = false
same_version (some a) (some b) = a == b

unfoldable pub initial_update_confirmation_state : UpdateConfirmationState
initial_update_confirmation_state = record {
  is_open = false;
  target_version = none;
  confirmation = "";
  current_password = "";
}

unfoldable pub update_confirmation_reducer :
    UpdateConfirmationState → UpdateConfirmationAction → UpdateConfirmationState
unfolding initial_update_confirmation_state
update_confirmation_reducer s (open_dialog t) = record initial_update_confirmation_state {
  is_open = true;
  target_version = t;
}
update_confirmation_reducer s (close t) = record initial_update_confirmation_state {
  target_version = t;
}
update_confirmation_reducer s (confirmation_changed t v) = record {
  is_open = s.is_open;
  target_version = t;
  confirmation = v;
  current_password = if same_version s.target_version t then s.current_password else "";
}
update_confirmation_reducer s (password_changed t v) = record {
  is_open = s.is_open;
  target_version = t;
  confirmation = if same_version s.target_version t then s.confirmation else "";
  current_password = v;
}

-- The state after actions, the latest first.
abbrev pub after : List UpdateConfirmationAction → UpdateConfirmationState
after [] = initial_update_confirmation_state
after (a ∷ earlier) = update_confirmation_reducer (after earlier) a

abbrev pub target_of : UpdateConfirmationAction → Option String
target_of (open_dialog t) = t
target_of (close t) = t
target_of (confirmation_changed t v) = t
target_of (password_changed t v) = t

-- What was last typed for a version, in actions with the latest first: an action for another
-- version, and opening or closing the dialog, discard it.
abbrev pub typed_password : Option String → List UpdateConfirmationAction → String
typed_password t [] = ""
typed_password t (open_dialog u ∷ earlier) = ""
typed_password t (close u ∷ earlier) = ""
typed_password t (confirmation_changed u v ∷ earlier) =
    let rest = typed_password t earlier in if same_version u t then rest else ""
typed_password t (password_changed u v ∷ earlier) = if same_version u t then v else ""

abbrev pub typed_confirmation : Option String → List UpdateConfirmationAction → String
typed_confirmation t [] = ""
typed_confirmation t (open_dialog u ∷ earlier) = ""
typed_confirmation t (close u ∷ earlier) = ""
typed_confirmation t (confirmation_changed u v ∷ earlier) = if same_version u t then v else ""
typed_confirmation t (password_changed u v ∷ earlier) =
    let rest = typed_confirmation t earlier in if same_version u t then rest else ""

-- What the update centre takes from the state for a version:
-- confirmationState.targetVersion === targetVersion ? … : ''
abbrev pub password_for : Option String → UpdateConfirmationState → String
password_for t s = if same_version s.target_version t then s.current_password else ""

abbrev pub confirmation_for : Option String → UpdateConfirmationState → String
confirmation_for t s = if same_version s.target_version t then s.confirmation else ""

same_version→eq : (a b : Option String) → same_version a b ≡ true → a ≡ b
same_version→eq none none h = refl
same_version→eq none (some b) h = absurd (cc h)
same_version→eq (some a) none h = absurd (cc h)
same_version→eq (some a) (some b) h = ap some ((eq_iff a b).0 h)

-- After any actions, the update centre uses for a version the password and the confirmation that were
-- last typed for it, if since then the dialog was neither opened nor closed and nothing was typed for
-- another version; otherwise it uses the empty text.
pub after_lem :
    (t : Option String) (actions : List UpdateConfirmationAction)
    → (password_for t (after actions) ≡ typed_password t actions)
      × (confirmation_for t (after actions) ≡ typed_confirmation t actions)
unfolding update_confirmation_reducer initial_update_confirmation_state
after_lem t [] = (ground arith, ground arith)
after_lem t (open_dialog u ∷ earlier) = (ground arith, ground arith)
after_lem t (close u ∷ earlier) = (ground arith, ground arith)
after_lem t (confirmation_changed u v ∷ earlier) =
    let (p, c) = after_lem t earlier in (ground (arith, same_version→eq u t), ground arith)
after_lem t (password_changed u v ∷ earlier) =
    let (p, c) = after_lem t earlier in (ground arith, ground (arith, same_version→eq u t))
