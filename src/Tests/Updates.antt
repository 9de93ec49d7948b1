-- ===== src/Tests/Updates.antt =====
-- The theorems on the update centre.
use bubllio_crm.Prelude.{true, none, some, List, [], ◌∷◌, ◌≡◌, refl}
use bubllio_crm.Updates.Confirmation.{
  UpdateConfirmationState, UpdateConfirmationAction, open_dialog, password_changed,
  confirmation_changed, after, password_for, after_lem,
}
use bubllio_crm.Updates.Center.{
  Readiness, online_safe, StartRequest, can_confirm, begin_update, start_update,
}
use bubllio_crm.Updates.Center.Laws.{begin_update_sound, for_version, start_update_lem}

-- The latest first: a password typed for one version, then a confirmation typed for the next one.
abbrev actions : List UpdateConfirmationAction
actions =
    confirmation_changed (some "2.0") "2.0"
    ∷ password_changed (some "1.0") "secret"
    ∷ open_dialog (some "1.0")
    ∷ []

after_lem_example : password_for (some "2.0") (after actions) ≡ ""
after_lem_example = (after_lem (some "2.0") actions).0

abbrev ready : Readiness
ready = record { target_version = "0.9"; eligible = true; migration_policy = online_safe }

abbrev typed : UpdateConfirmationState
typed = record {
  is_open = true;
  target_version = some "1.0";
  confirmation = "";
  current_password = "secret";
}

abbrev request : StartRequest
request = record { target_version = "1.0"; current_password = "secret" }

begins : begin_update (some "1.0") (some ready) typed ≡ some request
unfolding begin_update can_confirm
begins = refl

begin_update_sound_example :
    begin_update (some "1.0") (for_version "0.8" (some ready)) typed ≡ some request
begin_update_sound_example = (begin_update_sound "1.0" "0.8" (some ready) typed request begins).2

start_update_lem_example :
    (start_update request (record { password_ref = none; sent = [] })).0.password_ref ≡ none
start_update_lem_example = (start_update_lem request (record { password_ref = none; sent = [] })).0
