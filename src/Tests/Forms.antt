-- ===== src/Tests/Forms.antt =====
-- The theorems on forms and drawers.
use bubllio_crm.Prelude.{◌∷◌, ltb, arith, ℕ, none, some, [], ◌≡◌}
use bubllio_crm.Deals.Drawer
use bubllio_crm.Deals.Drawer.Laws.{Fits, Reachable-Fits}
use bubllio_crm.Forms.{Zod}
use bubllio_crm.Forms.Setup.{SetupFormValues, setup_defaults}
use bubllio_crm.Forms.Slugs.{is_slug, is_slug-words, words, all_words}
use bubllio_crm.Forms.Wizard
use bubllio_crm.Forms.Wizard.Laws.{WizardSound, Reachable-WizardSound}
use bubllio_crm.Js.Text.{truthy}
use bubllio_crm.Js.Integers.{pos}
use bubllio_crm.Tasks.Clock.{Clock}
use bubllio_crm.Tasks.Drawer.{Inputs, Initial, submit}
use bubllio_crm.Types.Task.{CrmTask, TaskWorkflowStatus}
use bubllio_crm.Tests.Data.{task_at}

is_slug-words_example : is_slug "my-shop-2" ≡ all_words (words "my-shop-2")
is_slug-words_example = is_slug-words "my-shop-2"

abbrev zod : Zod
zod = record { units = λ s. 40; is_email = truthy; is_url = truthy; is_uuid = truthy }

-- A form that is filled in, without mail.
abbrev filled_in : SetupFormValues
filled_in = record setup_defaults {
  setup_token = "t";
  username = "maria";
  email = "m@example.org";
  password = "p";
  organization_name = "Kafe";
  organization_slug = "kafe";
}

-- It is sent after two checks and a click on the button that skips mail.
abbrev at_step : ℕ → ℕ → Wizard.Wizard
at_step n waiting = record { step = n; values = filled_in; checks = waiting; posted = [] }

at_step-Reachable : Wizard.Reachable zod (at_step 3 0)
unfolding Wizard.submit Wizard.next Wizard.skip
at_step-Reachable =
    let typed : Wizard.Reachable zod (at_step 0 0) =
      Wizard.step Wizard.start (Wizard.types filled_in (Wizard.first zod)) in
    let asked : Wizard.Reachable zod (at_step 0 1) =
      Wizard.step typed (Wizard.submits (at_step 0 0)) in
    let admin : Wizard.Reachable zod (at_step 1 0) =
      Wizard.step asked (Wizard.passes (at_step 0 1) (omega arith)) in
    let again : Wizard.Reachable zod (at_step 1 1) =
      Wizard.step admin (Wizard.submits (at_step 1 0)) in
    let workspace : Wizard.Reachable zod (at_step 2 0) =
      Wizard.step again (Wizard.passes (at_step 1 1) (omega arith)) in
    Wizard.step workspace (Wizard.skips (at_step 2 0))

Reachable-WizardSound_example : WizardSound zod (Wizard.submit zod (at_step 3 0))
Reachable-WizardSound_example =
    Reachable-WizardSound zod (Wizard.step at_step-Reachable (Wizard.submits (at_step 3 0)))

Reachable-Fits_example :
    Fits ([] ∷ []) Drawer.empty_deal (Drawer.choose_company "k" Drawer.empty_deal)
Reachable-Fits_example =
    Reachable-Fits (Drawer.step (Drawer.start []) (Drawer.chooses_company "k" Drawer.empty_deal))

-- A host in UTC, as far as one time goes: two ways to write it are read as the same time.
abbrev inputs : Inputs
inputs = record {
  get_time = λ text. pos 1767261600000;
  timezone_offset = λ time. pos 0;
  iso_string = λ time. "2026-01-01T10:00:00.000Z";
  tomorrow = "2026-01-02T09:00:00.000Z";
}

abbrev clock : Clock
clock = record { Time = ℕ; parse = λ text. 0; before = λ a b. ltb a b; end_of_day = λ time. time }

abbrev call_back : CrmTask
call_back = task_at "2026-01-01T10:00:00Z" TaskWorkflowStatus.todo

abbrev signed_in_user : Initial
signed_in_user = record { user = some 7; company = none; contact = none; deal = none }
