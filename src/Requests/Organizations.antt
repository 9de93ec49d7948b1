-- ===== src/Requests/Organizations.antt =====
-- The requests of workspaces and of the installation
-- (frontend/src/features/organizations/services/organizationService.ts).
use Prim.Native.String
use bubllio_crm.Prelude.{String}
use bubllio_crm.Requests.{Request, plain, get, post, patch, delete, organization_path, id_segment}

abbrev pub list_organizations : Request
list_organizations = plain "/organizations/" get

abbrev pub create_personal : Request
create_personal = plain "/organizations/personal/" post

abbrev pub personal_policy : Request
personal_policy = plain "/organizations/personal/" get

abbrev pub installation_administrators : Request
installation_administrators = plain "/organizations/installation-admin-invitations/" get

-- A request, and the address that its body names.
abbrev pub invite_installation_administrator : String → Request × String
invite_installation_administrator email =
    (plain "/organizations/installation-admin-invitations/" post, email)

abbrev pub workspace_creators : Request
workspace_creators = plain "/organizations/workspace-creators/" get

abbrev pub grant_workspace_creator : String → Request × String
grant_workspace_creator email = (plain "/organizations/workspace-creators/" post, email)

abbrev pub pending_workspaces : Request
pending_workspaces = plain "/organizations/provisioning/" get

abbrev pub settings_options : Request
settings_options = plain "/organizations/settings/options/" get

abbrev pub installation_settings : Request
installation_settings = plain "/organizations/installation-settings/" get

abbrev pub patch_installation_settings : Request
patch_installation_settings = plain "/organizations/installation-settings/" patch

-- `encode` is encodeURIComponent.
module _ (encode : String → String) where
  abbrev pub revoke_workspace_creator : String → Request
  revoke_workspace_creator grant =
      plain (String.◌++◌ "/organizations/workspace-creators/" (id_segment encode grant)) delete

  abbrev provisioning_path : String → String
  provisioning_path id = String.◌++◌ "/organizations/provisioning/" (id_segment encode id)

  abbrev pub resend_owner_invitation : String → Request
  resend_owner_invitation id = plain (provisioning_path id) post

  abbrev pub cancel_pending_workspace : String → Request
  cancel_pending_workspace id = plain (provisioning_path id) delete

  abbrev pub get_organization : String → Request
  get_organization id = plain (organization_path encode id) get

  abbrev pub remove_organization : String → Request
  remove_organization id = plain (organization_path encode id) delete

  abbrev pub get_settings : String → Request
  get_settings id = plain (String.◌++◌ (organization_path encode id) "settings/") get

  abbrev pub patch_settings : String → Request
  patch_settings id = plain (String.◌++◌ (organization_path encode id) "settings/") patch

  abbrev accounts_path : String → String → String
  accounts_path id rest =
      String.◌++◌ (organization_path encode id) (String.◌++◌ "email-accounts/" rest)

  abbrev pub email_accounts : String → Request
  email_accounts id = plain (accounts_path id "") get

  abbrev pub create_email_account : String → Request
  create_email_account id = plain (accounts_path id "") post

  abbrev pub update_email_account : String → String → Request
  update_email_account id account = plain (accounts_path id (id_segment encode account)) patch

  abbrev pub delete_email_account : String → String → Request
  delete_email_account id account = plain (accounts_path id (id_segment encode account)) delete

  -- The request of a test, and the recipient that its body names.
  abbrev pub test_email_account : String → String → String → Request × String
  test_email_account id account recipient =
      (plain (accounts_path id (String.◌++◌ (id_segment encode account) "test/")) post, recipient)

  abbrev pub list_activity : String → Request
  list_activity id = plain (String.◌++◌ (organization_path encode id) "activity/") get

  abbrev pub download_export : String → Request
  download_export id = plain (String.◌++◌ (organization_path encode id) "data-export/") get
