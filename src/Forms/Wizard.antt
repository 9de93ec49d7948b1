-- ===== src/Forms/Wizard.antt =====
-- The steps of the setup page (frontend/src/pages/Setup/SetupPage.tsx). What is typed is any change of
-- the values, also while checks run. `next` asks for a check of fields and goes on when it passes;
-- several calls may wait at once, and a check may end either way.
pub mod Laws
use bubllio_crm.Prelude.{
  ℕ, zero, suc, ◌+◌, ◌-◌, ◌≤◌, ◌<◌, String, Bool, true, false, not, ◌&&◌, ◌||◌, Option, none, some,
  List, [], ◌∷◌, leb, nat_eq, if◌then◌else◌, ◌≡◌, refl, arith, Bool-cases, inl, inr, is_empty,
}
use bubllio_crm.Forms.{Zod}
use bubllio_crm.Forms.Ports.{to_number}
use bubllio_crm.Forms.Setup.{SetupFormValues, setup_defaults, setup_accepted, setup_accepted_sound}
use bubllio_crm.Js.Text.{trim}

abbrev pub admin_fields : List String
admin_fields = "setup_token" ∷ "username" ∷ "email" ∷ "password" ∷ []

abbrev pub workspace_fields : List String
workspace_fields = "organization_name" ∷ "organization_slug" ∷ []

abbrev pub smtp_fields : List String
smtp_fields =
    "smtp_name" ∷ "smtp_from_email" ∷ "smtp_host" ∷ "smtp_port" ∷ "smtp_username" ∷ "smtp_password"
    ∷ []

pub record SmtpSettings : Type 0 where
  pub name : String
  pub host : String
  pub port : ℕ
  pub username : String
  pub password : String
  pub from_email : String
  pub use_tls : Bool
  pub use_ssl : Bool
  pub is_default : Bool

pub record SetupValues : Type 0 where
  pub setup_token : String
  pub username : String
  pub email : String
  pub password : String
  pub organization_name : String
  pub organization_slug : String
  pub smtp : Option SmtpSettings

-- For a port of digits.
unfoldable pub smtp_payload : SetupFormValues → SmtpSettings
smtp_payload values = record {
  name = trim values.smtp_name;
  from_email = trim values.smtp_from_email;
  host = trim values.smtp_host;
  port = to_number values.smtp_port;
  username = trim values.smtp_username;
  password = values.smtp_password;
  use_ssl = values.smtp_use_ssl;
  use_tls = not values.smtp_use_ssl;
  is_default = true;
}

-- What the schema makes of the values: it trims some of them.
abbrev pub parsed : SetupFormValues → SetupFormValues
parsed values = record values {
  username = trim values.username;
  email = trim values.email;
  organization_name = trim values.organization_name;
  organization_slug = trim values.organization_slug;
}

unfoldable pub setup_payload : SetupFormValues → SetupValues
setup_payload values = record {
  setup_token = values.setup_token;
  username = values.username;
  email = values.email;
  password = values.password;
  organization_name = values.organization_name;
  organization_slug = values.organization_slug;
  smtp = if values.smtp_enabled then some (smtp_payload values) else none;
}

-- The step, the values, how many calls of `next` wait for their check, and the payloads that were
-- sent.
pub record Wizard : Type 0 where
  pub step : ℕ
  pub values : SetupFormValues
  pub checks : ℕ
  pub posted : List SetupValues

abbrev pub fields_of : ℕ → Bool → List String
fields_of zero smtp = admin_fields
fields_of (suc zero) smtp = workspace_fields
fields_of (suc (suc n)) smtp = if smtp then smtp_fields else []

-- setStep((current) => current + 1)
abbrev pub go_on : Wizard → Wizard
go_on w = record w { step = suc w.step }

-- The first part of `next`: where there is nothing to check, it goes on at once.
unfoldable pub next : Wizard → Wizard
next w =
    if is_empty (fields_of w.step w.values.smtp_enabled)
    then go_on w
    else record w { checks = suc w.checks }

-- The rest of `next`, when its check passed and when it did not.
abbrev pub passed : Wizard → Wizard
passed w = go_on (record w { checks = w.checks - 1 })

abbrev pub refused : Wizard → Wizard
refused w = record w { checks = w.checks - 1 }

-- The button that goes back is disabled on the first step.
unfoldable pub back : Wizard → Wizard
back w = if nat_eq w.step 0 then w else record w { step = w.step - 1 }

-- The button that skips is shown on the third step, with mail turned off.
unfoldable pub skip : Wizard → Wizard
skip w = if nat_eq w.step 2 && not w.values.smtp_enabled then record w { step = 3 } else w

module _ (zod : Zod) where
  -- form.handleSubmit(complete)
  unfoldable pub complete : Wizard → Wizard
  complete w =
      if setup_accepted zod w.values
      then record w { posted = setup_payload (parsed w.values) ∷ w.posted }
      else w

  unfoldable pub submit : Wizard → Wizard
  submit w = if nat_eq w.step 3 then complete w else next w

  pub data Step : Wizard → Wizard → Type 0 where
    types : (values : SetupFormValues) (w : Wizard) → Step w (record w { values = values })
    submits : (w : Wizard) → Step w (submit w)
    passes : (w : Wizard) → 1 ≤ w.checks → Step w (passed w)
    refuses : (w : Wizard) → 1 ≤ w.checks → Step w (refused w)
    goes_back : (w : Wizard) → Step w (back w)
    skips : (w : Wizard) → Step w (skip w)

  abbrev pub first : Wizard
  first = record { step = 0; values = setup_defaults; checks = 0; posted = [] }

  pub data Reachable : Wizard → Type 0 where
    start : Reachable first
    step : {v w : Wizard} → Reachable v → Step v w → Reachable w
