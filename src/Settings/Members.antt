-- ===== src/Settings/Members.antt =====
-- The people of a workspace and their invitations (frontend/src/pages/Members/MembersPage.tsx).
use Prim.Native.String
use bubllio_crm.Prelude.{
  ℕ, ◌+◌, String, Bool, true, false, Option, none, some, List, [], ◌∷◌, ◌≡◌, refl, not, ◌&&◌, ◌||◌,
  filter, length, arith, if◌then◌else◌,
}
use bubllio_crm.Forms.{Zod}
use bubllio_crm.Js.Text.{trim}
use bubllio_crm.Settings.Sections.{Role, owner, admin, member, viewer}

pub data InvitationStatus : Type 0 where
  pending accepted expired revoked : InvitationStatus

abbrev pub invitation_statuses : List InvitationStatus
invitation_statuses = pending ∷ accepted ∷ expired ∷ revoked ∷ []

pub record Invitation : Type 0 where
  pub id : String
  pub email : String
  pub role : Role
  pub status : InvitationStatus
  pub invited_by : Option String
  pub created_at : String
  pub expires_at : String
  pub accepted_at : Option String
  pub revoked_at : Option String

pub record WorkspaceMember : Type 0 where
  pub id : String
  pub username : String
  pub email : String
  pub role : Role

abbrev pub is_status : InvitationStatus → InvitationStatus → Bool
is_status pending pending = true
is_status accepted accepted = true
is_status expired expired = true
is_status revoked revoked = true
is_status _ _ = false

abbrev pub is_owner_role : Role → Bool
is_owner_role owner = true
is_owner_role _ = false

-- The filter of the history; none shows all.
abbrev matches : Option InvitationStatus → Invitation → Bool
matches none i = true
matches (some status) i = is_status i.status status

unfoldable pub filtered_invitations : Option InvitationStatus → List Invitation → List Invitation
filtered_invitations shown invitations = filter (matches shown) invitations

-- The toggle buttons give no value for the one that is on, which then stays on.
abbrev pub change_filter :
    Option (Option InvitationStatus) → Option InvitationStatus → Option InvitationStatus
change_filter none shown = shown
change_filter (some next) shown = next

-- The number on the button of a status.
unfoldable pub status_count : InvitationStatus → List Invitation → ℕ
status_count status invitations =
    length (filter (λ (i : Invitation). is_status i.status status) invitations)

abbrev pub can_resend : Invitation → Bool
can_resend i = not (is_status i.status accepted)

abbrev pub can_revoke : Invitation → Bool
can_revoke i = is_status i.status pending

-- The role of a member can be changed, and a member removed; `is_pending` is that of the mutation.
abbrev pub can_change_role : (is_pending : Bool) → WorkspaceMember → Bool
can_change_role is_pending m = not (is_owner_role m.role || is_pending)

abbrev pub can_remove : (is_pending : Bool) → WorkspaceMember → Bool
can_remove is_pending m = not (is_owner_role m.role) && not is_pending

-- INVITABLE_ROLES
abbrev pub invitable_roles : List Role
invitable_roles = admin ∷ member ∷ viewer ∷ []

-- The roles in the menu of a member.
abbrev pub offered_roles : WorkspaceMember → List Role
offered_roles m = if is_owner_role m.role then owner ∷ invitable_roles else invitable_roles

pub record InvitationForm : Type 0 where
  pub email : String
  pub role : Role

abbrev pub empty_form : InvitationForm
empty_form = record { email = ""; role = member }

-- The schema accepts an invitation; the address is then sent without the space around it.
abbrev pub invitation_accepted : Zod → InvitationForm → Bool
invitation_accepted zod f = zod.is_email (trim f.email) && not (is_owner_role f.role)

-- The page after an accepted form was sent, by whether the server took it: the message and the form.
unfoldable pub submit : (is_sent : Bool) → InvitationForm → String × InvitationForm
submit true f = (String.◌++◌ "Invitation sent to " (String.◌++◌ (trim f.email) "."), empty_form)
submit false f = ("", f)

-- The message after an invitation was sent again, by whether the server did so.
unfoldable pub resend_invitation : (is_done : Bool) → (email : String) → String
resend_invitation true email =
    String.◌++◌ "A new invitation was sent to "
      (String.◌++◌ email ". The previous link is invalid.")
resend_invitation false email = ""

-- Whether the request is sent, and the message, by whether the user confirms and the server revokes.
unfoldable pub revoke_invitation :
    (confirms is_done : Bool) → (email message : String) → Bool × String
revoke_invitation false is_done email message = (false, message)
revoke_invitation true true email message =
    (true, String.◌++◌ "Invitation for " (String.◌++◌ email " revoked."))
revoke_invitation true false email message = (true, "")

total :
    (invitations : List Invitation)
    → length (filter (matches none) invitations)
      ≡ status_count pending invitations
        + status_count accepted invitations
        + (status_count expired invitations + status_count revoked invitations)
unfolding status_count
total [] = refl
total (i ∷ invitations) = ground (arith, total invitations, i.status)

-- The numbers on the buttons are those of the rows that the buttons show, and those of the four
-- statuses add up to the one of all.
pub status_counts_lem :
    (status : InvitationStatus) (invitations : List Invitation)
    → (length (filtered_invitations (some status) invitations) ≡ status_count status invitations)
      × (length (filtered_invitations none invitations)
          ≡ status_count pending invitations
            + status_count accepted invitations
            + (status_count expired invitations + status_count revoked invitations))
unfolding filtered_invitations status_count
status_counts_lem status invitations = (refl, total invitations)
