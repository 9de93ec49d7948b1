-- ===== src/Settings/Sections.antt =====
-- The sections of the settings page (frontend/src/pages/Settings/SettingsPage.tsx) and the deletion of
-- a workspace. The role of the user may change while the page stays.
use bubllio_crm.Prelude.{
  String, Bool, true, false, Option, none, some, List, [], ◌∷◌, ◌==◌, ◌≡◌, refl, not, ◌&&◌, ◌||◌,
  filter, arith, Bool-cases, inl, inr,
}
use bubllio_crm.Settings.Accounts.{EmailAccount}

pub data SettingsSection : Type 0 where
  general business email people erp activity danger : SettingsSection

abbrev pub settings_sections : List SettingsSection
settings_sections = general ∷ business ∷ email ∷ people ∷ erp ∷ activity ∷ danger ∷ []

pub data Role : Type 0 where
  owner admin member viewer : Role

abbrev pub is_owner : Option Role → Bool
is_owner (some owner) = true
is_owner (some admin) = false
is_owner (some member) = false
is_owner (some viewer) = false
is_owner none = false

abbrev pub can_manage : Option Role → Bool
can_manage (some owner) = true
can_manage (some admin) = true
can_manage (some member) = false
can_manage (some viewer) = false
can_manage none = false

abbrev is_for_managers : SettingsSection → Bool
is_for_managers people = true
is_for_managers activity = true
is_for_managers _ = false

abbrev is_danger : SettingsSection → Bool
is_danger danger = true
is_danger _ = false

abbrev pub is_visible : Option Role → SettingsSection → Bool
is_visible role s =
    not (is_for_managers s && not (can_manage role)) && not (is_danger s && not (is_owner role))

unfoldable pub visible : Option Role → List SettingsSection
visible role = filter (is_visible role) settings_sections

pub record PageState : Type 0 where
  pub section : SettingsSection
  pub confirm_name : String
  pub adding_email : Bool
  pub editing_email : Option EmailAccount

abbrev pub initial : PageState
initial = record {
  section = general;
  confirm_name = "";
  adding_email = false;
  editing_email = none;
}

abbrev is_email : SettingsSection → Bool
is_email email = true
is_email _ = false

-- The button that adds a connection is shown.
abbrev pub shows_add : Option Role → PageState → Bool
shows_add role s = is_email s.section && (can_manage role && not s.adding_email)

-- What a user does on the page. A card of a connection offers to edit it to those who manage.
pub data Step (role : Option Role) : PageState → PageState → Type 0 where
  selects :
      (next : SettingsSection) (s : PageState)
      → is_visible role next ≡ true
      → Step role s (record s { section = next })
  types : (text : String) (s : PageState) → Step role s (record s { confirm_name = text })
  adds : (s : PageState) → shows_add role s ≡ true → Step role s (record s { adding_email = true })
  stops_adding : (s : PageState) → Step role s (record s { adding_email = false })
  edits :
      (a : EmailAccount) (s : PageState)
      → can_manage role ≡ true
      → Step role s (record s { editing_email = some a })
  stops_editing : (s : PageState) → Step role s (record s { editing_email = none })

-- The states that the page can reach, with the roles that the user had meanwhile, the present one
-- first: a change of the role leaves the page's state as it is.
pub data Reachable : List (Option Role) → PageState → Type 0 where
  start : (role : Option Role) → Reachable (role ∷ []) initial
  step :
      {role : Option Role} {roles : List (Option Role)} {s t : PageState}
      → Reachable (role ∷ roles) s
      → Step role s t
      → Reachable (role ∷ roles) t
  role_changes :
      {roles : List (Option Role)} {s : PageState} (role : Option Role)
      → Reachable roles s
      → Reachable (role ∷ roles) s

-- The button that deletes the workspace is shown and can be pressed.
unfoldable pub can_delete : (name : String) → (is_personal is_pending : Bool) → PageState → Bool
can_delete name is_personal is_pending s =
    is_danger s.section && (not is_personal && not (not (s.confirm_name == name) || is_pending))

-- The form of a connection that is edited is shown.
abbrev edits_email : Option EmailAccount → Bool
edits_email none = false
edits_email (some a) = true

-- The form of a connection, a new one or one that is edited, is shown.
unfoldable pub shows_account_form : PageState → Bool
shows_account_form s = is_email s.section && (s.adding_email || edits_email s.editing_email)

-- Whether a role that the user had passes a test.
abbrev pub had : (Option Role → Bool) → List (Option Role) → Bool
had p [] = false
had p (role ∷ roles) = let earlier = had p roles in p role || earlier

owner_of_danger :
    (role : Option Role) (s : SettingsSection)
    → is_danger s ≡ true
    → is_visible role s ≡ true
    → is_owner role ≡ true
owner_of_danger role danger h seen = ground arith
owner_of_danger role general h seen = ground arith
owner_of_danger role business h seen = ground arith
owner_of_danger role email h seen = ground arith
owner_of_danger role people h seen = ground arith
owner_of_danger role erp h seen = ground arith
owner_of_danger role activity h seen = ground arith

had_owner :
    (section : SettingsSection) (roles : List (Option Role))
    → is_danger section ≡ true
    → had (λ role. is_visible role section) roles ≡ true
    → had is_owner roles ≡ true
had_owner section [] h seen = absurd (cc seen)
had_owner section (role ∷ roles) h seen = elim (Bool-cases (is_visible role section)) [
  | inl visible_now ↦ rw (owner_of_danger role section h visible_now) refl
  | inr hidden ↦
      let before : had is_owner roles ≡ true =
        had_owner section roles h (ground (arith, seen, hidden)) in
      ground (arith, before)
]

-- What holds of the page: a role that the user had may see the section, and where a form of a
-- connection is open, one could manage the workspace.
abbrev IsAllowed : List (Option Role) → PageState → Type 0
IsAllowed roles s =
    (had (λ role. is_visible role s.section) roles ≡ true)
    × ((not (s.adding_email || edits_email s.editing_email) || had can_manage roles) ≡ true)

Step-IsAllowed :
    {role : Option Role} (roles : List (Option Role)) {s t : PageState}
    → Step role s t
    → IsAllowed (role ∷ roles) s
    → IsAllowed (role ∷ roles) t
Step-IsAllowed roles (selects next s seen) (h, manages) = (rw seen refl, manages)
Step-IsAllowed roles (types text s) h = h
Step-IsAllowed roles (adds s shown) (h, manages) = (h, ground arith)
Step-IsAllowed roles (stops_adding s) (h, manages) = (h, ground arith)
Step-IsAllowed roles (edits a s manager) (h, manages) = (h, ground arith)
Step-IsAllowed roles (stops_editing s) (h, manages) = (h, ground arith)

Reachable-IsAllowed :
    {roles : List (Option Role)} {s : PageState} → Reachable roles s → IsAllowed roles s
Reachable-IsAllowed (start role) = (ground arith, refl)
Reachable-IsAllowed (step {role} {roles} r e) = Step-IsAllowed roles e (Reachable-IsAllowed r)
Reachable-IsAllowed (role_changes role r) =
    let (seen, manages) = Reachable-IsAllowed r in (ground (arith, seen), ground (arith, manages))

-- Whatever is clicked and typed, and however the user's role changes while the page stays: the
-- section that is shown is one that the user could see in some role held since the page was opened,
-- the workspace can be deleted only where the user was its owner in that time, and a form of a
-- connection is shown only where the user could manage the workspace in that time.
pub Reachable-had :
    {roles : List (Option Role)} {s : PageState} (name : String) (is_personal is_pending : Bool)
    → Reachable roles s
    → (had (λ role. is_visible role s.section) roles ≡ true)
      × ((not (can_delete name is_personal is_pending s) || had is_owner roles) ≡ true)
      × ((not (shows_account_form s) || had can_manage roles) ≡ true)
unfolding can_delete shows_account_form
Reachable-had {roles} {s} name is_personal is_pending r =
    let (seen, manages) = Reachable-IsAllowed r in
    (
      seen,
      elim (Bool-cases (is_danger s.section)) [
        | inl last ↦ rw (had_owner s.section roles last seen) (ground arith)
        | inr other ↦ rw other refl
      ],
      ground (arith, manages),
    )
