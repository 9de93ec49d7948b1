-- ===== src/Requests/Invitations.antt =====
-- The requests of invitations and members
-- (frontend/src/features/invitations/services/invitationService.ts).
use Prim.Native.String
use bubllio_crm.Prelude.{String, Bool, if◌then◌else◌}
use bubllio_crm.Requests.{Request, plain, get, post, patch, delete, organization_path, id_segment}

-- `encode` is encodeURIComponent.
module _ (encode : String → String) where
  abbrev invitation_path : String → String
  invitation_path token = String.◌++◌ "/invitations/" (id_segment encode token)

  abbrev admin_invitation_path : String → String
  admin_invitation_path token =
      String.◌++◌ "/installation-admin-invitations/" (id_segment encode token)

  abbrev invitations_path : String → String → String
  invitations_path organization rest =
      String.◌++◌ (organization_path encode organization) (String.◌++◌ "invitations/" rest)

  abbrev members_path : String → String → String
  members_path organization rest =
      String.◌++◌ (organization_path encode organization) (String.◌++◌ "members/" rest)

  abbrev pub list_invitations : String → Request
  list_invitations organization = plain (invitations_path organization "") get

  abbrev pub list_members : String → Request
  list_members organization = plain (members_path organization "") get

  abbrev pub create_invitation : String → Request
  create_invitation organization = plain (invitations_path organization "") post

  abbrev pub resend_invitation : String → String → Request
  resend_invitation organization invitation =
      plain (invitations_path organization (String.◌++◌ (id_segment encode invitation) "resend/"))
        post

  abbrev pub revoke_invitation : String → String → Request
  revoke_invitation organization invitation =
      plain (invitations_path organization (id_segment encode invitation)) delete

  -- The request that changes a role, and the role that its body names.
  abbrev pub update_member : {R : Type 0} → String → String → R → Request × R
  update_member organization member role =
      (plain (members_path organization (id_segment encode member)) patch, role)

  abbrev pub remove_member : String → String → Request
  remove_member organization member =
      plain (members_path organization (id_segment encode member)) delete

  abbrev token_path : Bool → String → String
  token_path installation_admin token =
      if installation_admin then admin_invitation_path token else invitation_path token

  abbrev pub preview_invitation : String → Bool → Request
  preview_invitation token installation_admin = plain (token_path installation_admin token) get

  abbrev pub accept_invitation : String → Bool → Request
  accept_invitation token installation_admin =
      plain (String.◌++◌ (token_path installation_admin token) "accept/") post
