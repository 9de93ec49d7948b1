-- ===== src/Settings/Accounts.antt =====
-- The form of an email connection
-- (frontend/src/features/organizations/components/EmailAccountForm.tsx), with what the schema of
-- frontend/src/features/organizations/emailAccountSchema.ts makes of its values.
use bubllio_crm.Prelude.{
  ℕ, String, Bool, true, false, Option, none, some, if◌then◌else◌, ◌≡◌, refl, not,
}
use bubllio_crm.Drawers.{Save, update, save_as}
use bubllio_crm.Forms.Ports.{to_number}
use bubllio_crm.Forms.Records.{EmailAccountFormValues, account_accepted, new_account_accepted}
use bubllio_crm.Forms.{Zod}
use bubllio_crm.Js.Text.{truthy, trim}

-- The provider, which is always SMTP, is left out.
pub record EmailAccount : Type 0 where
  pub id : String
  pub name : String
  pub host : String
  pub port : ℕ
  pub username : String
  pub use_tls : Bool
  pub use_ssl : Bool
  pub from_email : String
  pub from_name : String
  pub is_default : Bool
  pub is_active : Bool
  pub last_tested_at : Option String
  pub last_test_error : String
  pub created_at : String
  pub updated_at : String

pub data Security : Type 0 where
  starttls ssl : Security

pub record AccountForm : Type 0 where
  pub values : EmailAccountFormValues
  pub security : Security

-- The body of a save; a password that is none is not sent.
pub record AccountBody : Type 0 where
  pub name : String
  pub host : String
  pub port : ℕ
  pub username : String
  pub password : Option String
  pub from_email : String
  pub from_name : String
  pub use_tls : Bool
  pub use_ssl : Bool
  pub is_default : Bool
  pub is_active : Bool

abbrev is_starttls : Security → Bool
is_starttls starttls = true
is_starttls ssl = false

-- `to_text` gives the text of a number.
module _ (to_text : ℕ → String) where
  unfoldable pub default_values : Option EmailAccount → AccountForm
  default_values none = record {
    values = record {
      name = "";
      host = "";
      port = to_text 587;
      username = "";
      password = "";
      from_email = "";
      from_name = "";
    };
    security = starttls;
  }
  default_values (some a) = record {
    values = record {
      name = a.name;
      host = a.host;
      port = to_text a.port;
      username = a.username;
      password = "";
      from_email = a.from_email;
      from_name = a.from_name;
    };
    security = if a.use_ssl then ssl else starttls;
  }

-- The values that the schema hands on, with the texts that it trims.
abbrev pub parsed : EmailAccountFormValues → EmailAccountFormValues
parsed v = record {
  name = trim v.name;
  host = trim v.host;
  port = v.port;
  username = trim v.username;
  password = v.password;
  from_email = trim v.from_email;
  from_name = trim v.from_name;
}

abbrev given : String → Option String
given s = if truthy s then some s else none

unfoldable pub account_body : Security → EmailAccountFormValues → AccountBody
account_body security v = record {
  name = v.name;
  host = v.host;
  port = to_number v.port;
  username = v.username;
  password = given v.password;
  from_email = v.from_email;
  from_name = v.from_name;
  use_tls = is_starttls security;
  use_ssl = not (is_starttls security);
  is_default = true;
  is_active = true;
}

-- The schema of the form: a new connection needs a password.
abbrev pub form_accepted : Zod → Option EmailAccount → EmailAccountFormValues → Bool
form_accepted zod none v = new_account_accepted zod v
form_accepted zod (some a) v = account_accepted zod v

-- What sending the form saves, if the schema accepts its values.
abbrev pub submit : Zod → Option EmailAccount → AccountForm → Option (Save AccountBody)
submit zod account f =
    if form_accepted zod account f.values
    then some
        (save_as (λ (a : EmailAccount). a.id) account (account_body f.security (parsed f.values)))
    else none

-- A connection whose texts have no space around them, as those that the schema handed on.
abbrev pub IsTrimmed : EmailAccount → Type 0
IsTrimmed a =
    (trim a.name ≡ a.name)
    × (trim a.host ≡ a.host)
    × (trim a.username ≡ a.username)
    × (trim a.from_email ≡ a.from_email)
    × (trim a.from_name ≡ a.from_name)

-- The body that keeps a connection, but makes it the default, active, and one with TLS or SSL.
abbrev pub kept_body : EmailAccount → AccountBody
kept_body a = record {
  name = a.name;
  host = a.host;
  port = a.port;
  username = a.username;
  password = none;
  from_email = a.from_email;
  from_name = a.from_name;
  use_tls = not a.use_ssl;
  use_ssl = a.use_ssl;
  is_default = true;
  is_active = true;
}

security_of : (b : Bool) → is_starttls (if b then ssl else starttls) ≡ not b
security_of true = refl
security_of false = refl

not_twice : (b : Bool) → not (not b) ≡ b
not_twice true = refl
not_twice false = refl

-- Where the text of a port is read back as that port, and the texts of a connection have no space
-- around them: opening the form on the connection and sending it unchanged saves nothing where the
-- schema refuses its values, and otherwise updates that connection with its own values and no password,
-- but always makes it the default and active, and turns TLS on where it had neither TLS nor SSL.
pub submit-default_values :
    (zod : Zod) (to_text : ℕ → String) (a : EmailAccount)
    → to_number (to_text a.port) ≡ a.port
    → IsTrimmed a
    → submit zod (some a) (default_values to_text (some a)) ≡ (
        if account_accepted zod (default_values to_text (some a)).values
        then some (update a.id (kept_body a))
        else none)
unfolding default_values account_body
submit-default_values zod to_text a port (name, host, username, from_email, from_name) =
    simp (port, name, host, username, from_email, from_name, security_of, not_twice)
