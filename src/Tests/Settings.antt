-- ===== src/Tests/Settings.antt =====
-- The theorems on the settings of a workspace.
use bubllio_crm.Forms.{Zod}
use bubllio_crm.Forms.Records.{account_accepted}
use bubllio_crm.Forms.Ports.{account_port}
use bubllio_crm.Prelude.{[], if◌then◌else◌, ◌∷◌, ℕ, String, true, false, none, some, ◌≡◌, refl}
use bubllio_crm.Drawers.{update}
use bubllio_crm.Js.Text.{truthy, trim, trim_start, trim_end}
use bubllio_crm.Settings.Accounts.{
  EmailAccount, default_values, submit, kept_body, submit-default_values, IsTrimmed,
}
use bubllio_crm.Settings.Sections.{
  owner, member, PageState, initial, danger, selects, start, step, role_changes, is_visible, had,
  Reachable-had,
}

abbrev text_of_port : ℕ → String
text_of_port n = "25"

abbrev account : EmailAccount
account = record {
  id = "a";
  name = "Old";
  host = "mail.example.org";
  port = 25;
  username = "u";
  use_tls = false;
  use_ssl = false;
  from_email = "u@example.org";
  from_name = "";
  is_default = false;
  is_active = false;
  last_tested_at = none;
  last_test_error = "";
  created_at = "";
  updated_at = "";
}

account-IsTrimmed : IsTrimmed account
unfolding trim trim_start trim_end
account-IsTrimmed = (refl, refl, refl, refl, refl)

-- Every text that is not empty is an address.
abbrev zod : Zod
zod = record { units = λ s. 40; is_email = truthy; is_url = truthy; is_uuid = truthy }

accepted : account_accepted zod (default_values text_of_port (some account)).values ≡ true
unfolding account_accepted default_values account_port trim trim_start trim_end
accepted = refl

submit-default_values_example :
    submit zod (some account) (default_values text_of_port (some account)) ≡ (
      if account_accepted zod (default_values text_of_port (some account)).values
      then some (update "a" (kept_body account))
      else none)
submit-default_values_example =
    submit-default_values zod text_of_port account refl account-IsTrimmed

-- The owner opens the last section and becomes a member.
abbrev opened : PageState
opened = record initial { section = danger }

Reachable-had_example : had (λ role. is_visible role danger) (some member ∷ some owner ∷ []) ≡ true
Reachable-had_example =
    (Reachable-had {roles = some member ∷ some owner ∷ []} "Kafe" false false
      (role_changes (some member) (step (start (some owner)) (selects danger initial refl)))).0
