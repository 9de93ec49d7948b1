-- ===== src/Settings/Queries.antt =====
-- The queries of a workspace's settings, invitations and members and what their mutations invalidate
-- (frontend/src/features/organizations/hooks/useOrganizationSettings.ts and
-- frontend/src/features/invitations/hooks/useInvitations.ts).
use bubllio_crm.Prelude.{
  String, Bool, true, false, List, [], ◌∷◌, ◌++◌, ◌==◌, ◌≡◌, refl, sym, ap, ◌∙◌, All, append-nil,
}
use bubllio_crm.Queries.{KeyPart, text, reaches, first-reaches, self-reaches, or_later}
use bubllio_crm.Queries.Laws.{other_part}
use bubllio_crm.Queries.Keys.{part_of, inbox_keys}

pub data SettingsQuery : Type 0 where
  settings accounts options activity invitations members inbox : SettingsQuery

pub data SettingsMutation : Type 0 where
  save_settings create_account update_account test_account delete_account : SettingsMutation
  download_export delete_organization : SettingsMutation

pub data PeopleMutation : Type 0 where
  create_invitation resend_invitation revoke_invitation : PeopleMutation
  update_member remove_member : PeopleMutation

module _ {F : Type 0} where
  unfoldable pub query_key : String → SettingsQuery → List (KeyPart F)
  query_key org settings = part_of "settings" org
  query_key org accounts = part_of "email-accounts" org
  query_key org options = text "organization-settings-options" ∷ []
  query_key org activity = part_of "activity" org
  query_key org invitations = part_of "invitations" org
  query_key org members = part_of "members" org
  query_key org inbox = inbox_keys org

  unfoldable pub invalidate_settings : String → SettingsMutation → List (List (KeyPart F))
  invalidate_settings org save_settings = part_of "settings" org ∷ []
  invalidate_settings org create_account = part_of "email-accounts" org ∷ []
  invalidate_settings org update_account = part_of "email-accounts" org ∷ []
  invalidate_settings org test_account = part_of "email-accounts" org ∷ []
  invalidate_settings org delete_account = part_of "email-accounts" org ∷ []
  invalidate_settings org download_export = part_of "activity" org ∷ []
  invalidate_settings org delete_organization = []

  unfoldable pub invalidate_people : String → PeopleMutation → List (List (KeyPart F))
  invalidate_people org create_invitation = part_of "invitations" org ∷ inbox_keys org ∷ []
  invalidate_people org resend_invitation = part_of "invitations" org ∷ inbox_keys org ∷ []
  invalidate_people org revoke_invitation = part_of "invitations" org ∷ inbox_keys org ∷ []
  invalidate_people org update_member = part_of "members" org ∷ []
  invalidate_people org remove_member = part_of "members" org ∷ []

-- `matches key query`: invalidating `key` reaches the query.
module _ {F : Type 0} (matches : List (KeyPart F) → List (KeyPart F) → Bool) where
  abbrev Refreshes : List (List (KeyPart F)) → String → SettingsQuery → Type 0
  Refreshes keys org q = reaches matches keys (query_key org q) ≡ true

  abbrev Misses : List (List (KeyPart F)) → String → SettingsQuery → Type 0
  Misses keys org q = reaches matches keys (query_key org q) ≡ false

  module _ (matches-append : (key rest : List (KeyPart F)) → matches key (key ++ rest) ≡ true)
      (matches-text : (a b : String) (key query : List (KeyPart F))
        → matches (text a ∷ key) (text b ∷ query) ≡ true
        → (a ≡ b) × (matches key query ≡ true)) where
    first_of_two : (key also : List (KeyPart F)) → reaches matches (key ∷ also ∷ []) key ≡ true
    first_of_two key also =
        ap (reaches matches (key ∷ also ∷ [])) (sym (append-nil key))
        ∙ first-reaches matches matches-append (also ∷ []) key []

    second_of_two : (key also : List (KeyPart F)) → reaches matches (key ∷ also ∷ []) also ≡ true
    second_of_two key also =
        or_later matches key also (also ∷ []) (self-reaches matches matches-append also)

    misses :
        (org a b : String)
        → (a == b) ≡ false
        → reaches matches (part_of a org ∷ []) (part_of b org) ≡ false
    misses org a b differ = rw (other_part matches matches-text org a b [] [] differ) refl

    account_queries :
        (org : String)
        → (reaches matches (part_of "email-accounts" org ∷ []) (part_of "email-accounts" org)
            ≡ true)
          × (reaches matches (part_of "email-accounts" org ∷ []) (part_of "activity" org) ≡ false)
    account_queries org = (
      self-reaches matches matches-append (part_of "email-accounts" org),
      misses org "email-accounts" "activity" refl,
    )

    people_queries :
        (org : String)
        → (reaches matches
              (part_of "invitations" org ∷ inbox_keys org ∷ [])
              (part_of "invitations" org)
            ≡ true)
          × (reaches matches (part_of "invitations" org ∷ inbox_keys org ∷ []) (inbox_keys org)
              ≡ true)
    people_queries org =
        let keys = part_of "invitations" org in
        (first_of_two keys (inbox_keys org), second_of_two keys (inbox_keys org))

    -- Where an invalidated key reaches every query whose key starts with it, and one that starts with a
    -- text only those whose key starts with the same text: saving the settings refreshes them, and a
    -- change of a connection the connections, but neither refreshes the activity; an export refreshes
    -- it; a change of an invitation refreshes the invitations and the inbox; and one of a member the
    -- members.
    pub invalidate_settings_lem :
        (org : String)
        → (Refreshes (invalidate_settings org save_settings) org settings)
          × (Misses (invalidate_settings org save_settings) org activity)
          × All
              (λ (m : SettingsMutation).
                Refreshes (invalidate_settings org m) org accounts
                × Misses (invalidate_settings org m) org activity)
              (create_account ∷ update_account ∷ test_account ∷ delete_account ∷ [])
          × (Refreshes (invalidate_settings org download_export) org activity)
          × All
              (λ (m : PeopleMutation).
                Refreshes (invalidate_people org m) org invitations
                × Refreshes (invalidate_people org m) org inbox)
              (create_invitation ∷ resend_invitation ∷ revoke_invitation ∷ [])
          × All
              (λ (m : PeopleMutation). Refreshes (invalidate_people org m) org members)
              (update_member ∷ remove_member ∷ [])
    unfolding invalidate_settings invalidate_people query_key
    invalidate_settings_lem org =
        let own = λ (part : String). self-reaches matches matches-append (part_of part org) in
        let account = account_queries org in
        let people = people_queries org in
        (
          own "settings",
          misses org "settings" "activity" refl,
          (account, (account, (account, (account, tt)))),
          own "activity",
          (people, (people, (people, tt))),
          (own "members", (own "members", tt)),
        )
