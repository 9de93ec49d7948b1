-- ===== src/Settings/Fields.antt =====
-- The fields of the sections of the settings and what saving a section sends
-- (frontend/src/features/organizations/components/WorkspaceSettingsForm.tsx,
-- businessIdentity.constants.ts, and the fields named in frontend/src/pages/Settings/SettingsPage.tsx).
use bubllio_crm.Prelude.{
  ℕ, String, Bool, true, false, none, some, List, [], ◌∷◌, ◌++◌, ◌==◌, ◌≡◌, refl, ◌||◌,
  if◌then◌else◌, map, eq_iff, Bool-cases, inl, inr, All, count,
}
use bubllio_crm.Js.Map

abbrev pub general_fields : List String
general_fields = "timezone" ∷ "locale" ∷ "default_from_name" ∷ []

abbrev pub business_fields : List String
business_fields =
    "legal_name" ∷ "trading_name" ∷ "tax_id" ∷ "tax_office" ∷ "registration_number"
    ∷ "business_email" ∷ "phone" ∷ "website" ∷ "address_line_1" ∷ "address_line_2" ∷ "city"
    ∷ "postal_code" ∷ "country" ∷ []

abbrev pub erp_fields : List String
erp_fields =
    "currency" ∷ "fiscal_year_start_month" ∷ "default_tax_rate" ∷ "default_payment_terms_days"
    ∷ "document_prefix" ∷ "next_document_number" ∷ []

-- The keys of WorkspaceSettings, in its order.
abbrev pub workspace_settings : List String
workspace_settings =
    "timezone" ∷ "locale" ∷ "default_from_name" ∷ "legal_name" ∷ "trading_name" ∷ "tax_id"
    ∷ "tax_office" ∷ "registration_number" ∷ "business_email" ∷ "phone" ∷ "website"
    ∷ "address_line_1" ∷ "address_line_2" ∷ "city" ∷ "postal_code" ∷ "country" ∷ "currency"
    ∷ "fiscal_year_start_month" ∷ "default_tax_rate" ∷ "default_payment_terms_days"
    ∷ "document_prefix" ∷ "next_document_number" ∷ []

abbrev pub is_named : String → List String → Bool
is_named key [] = false
is_named key (name ∷ names) = name == key || is_named key names

if_same {ℓ} : {A : Type ℓ} (b : Bool) (a : A) → (if b then a else a) ≡ a
if_same true a = refl
if_same false a = refl

-- The form's values, of a type that numbers and texts share, by name.
module _ {V : Type 0} where
  abbrev entries : List String → (String → V) → List (String × V)
  entries names values = map (λ (name : String). (name, values name)) names

  -- Object.fromEntries(formFields.map(({ name }) => [name, values[name]]))
  unfoldable pub changed_section : List String → (String → V) → List (String × V)
  changed_section names values = Map.from_entries Map.empty (entries names values)

  lookup-entries :
      (key : String) (values : String → V) (names : List String) (m : List (String × V))
      → Map.lookup key (Map.from_entries m (entries names values))
        ≡ (if is_named key names then some (values key) else Map.lookup key m)
  unfolding Map.from_entries
  lookup-entries key values [] m = refl
  lookup-entries key values (name ∷ names) m = elim (Bool-cases (name == key)) [
    | inl same ↦
        rw
          (
            lookup-entries key values names (Map.set name (values name) m),
            Map.lookup-set name key (values name) m,
            same,
            (eq_iff name key).0 same,
          )
          (if_same (is_named key names) (some (values key)))
    | inr differ ↦
        rw
          (
            lookup-entries key values names (Map.set name (values name) m),
            Map.lookup-set name key (values name) m,
            differ,
          )
          refl
  ]

-- How often a key stands in the fields of the sections.
abbrev pub times : String → ℕ
times key = count (λ (name : String). name == key) (general_fields ++ business_fields ++ erp_fields)

each_once : All (λ (name : String). times name ≡ 1) workspace_settings
each_once = (
  refl,
  (
    refl,
    (
      refl,
      (
        refl,
        (
          refl,
          (
            refl,
            (
              refl,
              (
                refl,
                (
                  refl,
                  (
                    refl,
                    (
                      refl,
                      (
                        refl,
                        (
                          refl,
                          (
                            refl,
                            (refl, (refl, (refl, (refl, (refl, (refl, (refl, (refl, tt)))))))),
                          ),
                        ),
                      ),
                    ),
                  ),
                ),
              ),
            ),
          ),
        ),
      ),
    ),
  ),
)

-- Saving a section sends the form's value of each of its settings, and of no other; and every setting
-- of a workspace is a field of one section, once, so that saving one section sends none of another's.
pub lookup-changed_section :
    {V : Type 0} (key : String) (names : List String) (values : String → V)
    → (Map.lookup key (changed_section names values)
        ≡ (if is_named key names then some (values key) else none))
      × All (λ (name : String). times name ≡ 1) workspace_settings
unfolding changed_section Map.lookup
lookup-changed_section key names values = (lookup-entries key values names [], each_once)
