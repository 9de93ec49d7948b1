-- ===== src/Forms/Setup.antt =====
-- The form that sets an installation up (frontend/src/features/setup/setupSchema.ts).
use bubllio_crm.Prelude.{sym, ◌≤◌, ◌<◌, String, Bool, true, false, not, ◌&&◌, ◌||◌, leb, ◌≡◌, arith}
use bubllio_crm.Forms.{Zod, filled}
use bubllio_crm.Forms.Ports.{
  setup_port, account_port, setup_port-account_port, account_port-lt, to_number,
}
use bubllio_crm.Forms.Slugs.{is_slug, is_slug-words, words, all_words}
use bubllio_crm.Js.Text.{trim}

pub record SetupFormValues : Type 0 where
  pub setup_token : String
  pub username : String
  pub email : String
  pub password : String
  pub organization_name : String
  pub organization_slug : String
  pub smtp_enabled : Bool
  pub smtp_name : String
  pub smtp_from_email : String
  pub smtp_host : String
  pub smtp_port : String
  pub smtp_username : String
  pub smtp_password : String
  pub smtp_use_ssl : Bool
  pub smtp_recipient : String

abbrev pub setup_defaults : SetupFormValues
setup_defaults = record {
  setup_token = "";
  username = "";
  email = "";
  password = "";
  organization_name = "";
  organization_slug = "";
  smtp_enabled = false;
  smtp_name = "Primary";
  smtp_from_email = "";
  smtp_host = "";
  smtp_port = "587";
  smtp_username = "";
  smtp_password = "";
  smtp_use_ssl = false;
  smtp_recipient = "";
}

module _ (zod : Zod) where
  -- The refinement raises no issue.
  unfoldable pub smtp_accepted : SetupFormValues → Bool
  smtp_accepted values =
      not values.smtp_enabled
      || filled zod values.smtp_name
        && (filled zod values.smtp_host
            && (filled zod values.smtp_username
                && (filled zod values.smtp_password
                    && (zod.is_email values.smtp_from_email && setup_port values.smtp_port))))

  unfoldable pub setup_accepted : SetupFormValues → Bool
  setup_accepted values =
      leb 32 (zod.units values.setup_token)
      && (filled zod values.username
          && (zod.is_email (trim values.email)
              && (leb 8 (zod.units values.password)
                  && (filled zod values.organization_name
                      && (is_slug (trim values.organization_slug) && smtp_accepted values)))))

  -- testRecipientSchema
  abbrev pub recipient_accepted : String → Bool
  recipient_accepted s = zod.is_email (trim s)

  smtp_port_of :
      (values : SetupFormValues)
      → values.smtp_enabled ≡ true
      → smtp_accepted values ≡ true
      → account_port values.smtp_port ≡ true
  unfolding smtp_accepted
  smtp_port_of values on h = rw (sym (setup_port-account_port values.smtp_port).0) (ground arith)

  -- A form that is accepted with mail turned on has a token of 32 units or more, a password of 8 or
  -- more, a slug whose parts between hyphens are words that are not empty, a sender that is an email
  -- address, a host, a login name and a login password that are not blank, and a port from 1 to 65535.
  pub setup_accepted_sound :
      (values : SetupFormValues)
      → setup_accepted values ≡ true
      → values.smtp_enabled ≡ true
      → (32 ≤ zod.units values.setup_token)
        × (8 ≤ zod.units values.password)
        × (all_words (words (trim values.organization_slug)) ≡ true)
        × (zod.is_email values.smtp_from_email ≡ true)
        × (filled zod values.smtp_host ≡ true)
        × (filled zod values.smtp_username ≡ true)
        × (filled zod values.smtp_password ≡ true)
        × (1 ≤ to_number values.smtp_port)
        × (to_number values.smtp_port < 65536)
  unfolding setup_accepted smtp_accepted
  setup_accepted_sound values h on =
      let mail : smtp_accepted values ≡ true = ground arith in
      let (digits, numeric, low, high) =
        account_port-lt values.smtp_port (smtp_port_of values on mail) in
      (
        ground arith,
        ground arith,
        rw (sym (is_slug-words (trim values.organization_slug))) (ground arith),
        ground arith,
        ground arith,
        ground arith,
        ground arith,
        low,
        high,
      )
