-- ===== src/Deals/Drawer/Laws.antt =====
-- The contact that the drawer of a deal holds after any changes
-- (frontend/src/pages/Deals/DealDrawer.tsx).
use bubllio_crm.Prelude.{
  String, true, none, some, List, [], ◌∷◌, Bool, false, ◌||◌, ◌==◌, ◌⊎◌, inl, inr, ◌≡◌, refl, sym,
  ap, ◌∙◌, arith, eq_iff, Bool-cases, Option-cases,
}
use bubllio_crm.Js.Patch.{option_or}
use bubllio_crm.Js.Text.{truthy}
use bubllio_crm.Types.Contact.{Contact}
use bubllio_crm.Deals.Drawer.{
  DealInput, company_contacts, has_contact, choose_company, choose_contact, Edit, set_assigned_to,
  set_title, set_value, set_currency, set_tax_rate, set_lost_reason, set_notes,
  set_amount_includes_tax, set_probability, set_stage, set_expected_close_date, edit, is_offered,
  Step, chooses_company, chooses_contact, edits, Reachable, start, step, contacts_change,
}

-- One of the lists of contacts has the contact, for the company of the values.
abbrev pub had_contact : String → DealInput → List (List Contact) → Bool
had_contact id v [] = false
had_contact id v (contacts ∷ held) =
    let earlier = had_contact id v held in has_contact id (company_contacts contacts v) || earlier

-- The contact and the company fit: there is no contact, or the company has it in a list of contacts
-- that the query held, or both are still those that the drawer was opened with.
abbrev pub Fits : List (List Contact) → DealInput → DealInput → Type 0
Fits held first v =
    (v.contact ≡ none)
    ⊎ (((id : String) × (v.contact ≡ some id) × (had_contact id v held ≡ true))
        ⊎ ((v.contact ≡ first.contact) × (v.company ≡ first.company)))

edit-contact :
    (e : Edit) (v : DealInput) → ((edit e v).contact ≡ v.contact) × ((edit e v).company ≡ v.company)
unfolding edit
edit-contact (set_assigned_to x) v = (refl, refl)
edit-contact (set_title x) v = (refl, refl)
edit-contact (set_value x) v = (refl, refl)
edit-contact (set_currency x) v = (refl, refl)
edit-contact (set_tax_rate x) v = (refl, refl)
edit-contact (set_lost_reason x) v = (refl, refl)
edit-contact (set_notes x) v = (refl, refl)
edit-contact (set_amount_includes_tax x) v = (refl, refl)
edit-contact (set_probability x) v = (refl, refl)
edit-contact (set_stage x) v = (refl, refl)
edit-contact (set_expected_close_date x) v = (refl, refl)

had_contact-same :
    (id : String) (held : List (List Contact)) (v w : DealInput)
    → w.company ≡ v.company
    → had_contact id w held ≡ had_contact id v held
unfolding company_contacts
had_contact-same id [] v w company = refl
had_contact-same id (contacts ∷ held) v w company =
    rw (company, had_contact-same id held v w company) refl

-- Whether a state fits depends on its contact and its company alone.
Fits-same :
    (held : List (List Contact)) (first v w : DealInput)
    → w.contact ≡ v.contact
    → w.company ≡ v.company
    → Fits held first v
    → Fits held first w
Fits-same held first v w contact company (inl h) = inl (contact ∙ h)
Fits-same held first v w contact company (inr (inl (id, h, k))) =
    inr (inl (id, contact ∙ h, had_contact-same id held v w company ∙ k))
Fits-same held first v w contact company (inr (inr (h, k))) = inr (inr (contact ∙ h, company ∙ k))

-- The contact that is chosen again.
chosen_again :
    (v : DealInput) (id : String)
    → truthy id ≡ true
    → (option_or v.contact "" == id) ≡ true
    → (choose_contact id v).contact ≡ v.contact
unfolding choose_contact
chosen_again v id given same =
    let shown = (eq_iff (option_or v.contact "") id).0 same in
    elim (Option-cases v.contact) [
      | inl missing ↦
          let blank = sym (ap (λ o. option_or o "") missing) ∙ shown in
          absurd (cc (ap truthy blank, given))
      | inr (a, chosen) ↦
          let again = sym (ap (λ o. option_or o "") chosen) ∙ shown in
          rw given (sym (chosen ∙ ap some again))
    ]

choose_contact-Fits :
    (contacts : List Contact) (held : List (List Contact)) (first v : DealInput) (id : String)
    → is_offered contacts v id ≡ true
    → Fits (contacts ∷ held) first v
    → Fits (contacts ∷ held) first (choose_contact id v)
unfolding choose_contact company_contacts
choose_contact-Fits contacts held first v id offered fits = elim (Bool-cases (truthy id)) [
  | inl given ↦ elim (Bool-cases (has_contact id (company_contacts contacts v))) [
    | inl found ↦ inr (inl (id, rw given refl, rw found refl))
    | inr unknown ↦
        Fits-same (contacts ∷ held) first v (choose_contact id v)
          (chosen_again v id given (ground arith)) refl fits
  ]
  | inr empty ↦ inl (rw empty refl)
]

Step-Fits :
    {contacts : List Contact} (held : List (List Contact)) (first : DealInput) {v w : DealInput}
    → Step contacts v w
    → Fits (contacts ∷ held) first v
    → Fits (contacts ∷ held) first w
unfolding choose_company
Step-Fits held first (chooses_company company v) fits = inl refl
Step-Fits {contacts} held first (chooses_contact id v offered) fits =
    choose_contact-Fits contacts held first v id offered fits
Step-Fits {contacts} held first (edits e v) fits =
    Fits-same (contacts ∷ held) first v (edit e v) (edit-contact e v).0 (edit-contact e v).1 fits

more_contacts-Fits :
    (contacts : List Contact) (held : List (List Contact)) (first v : DealInput)
    → Fits held first v
    → Fits (contacts ∷ held) first v
more_contacts-Fits contacts held first v (inl h) = inl h
more_contacts-Fits contacts held first v (inr (inl (id, h, k))) =
    inr (inl (id, h, ground (arith, k)))
more_contacts-Fits contacts held first v (inr (inr h)) = inr (inr h)

-- After any changes, also of the contacts that the query holds: the deal has no contact, or one that
-- such a list had for the company that is chosen, or it still has the contact and the company that the
-- drawer was opened with. So choosing another company never leaves a deal with another company's
-- contact.
pub Reachable-Fits :
    {first : DealInput} {held : List (List Contact)} {v : DealInput}
    → Reachable first held v
    → Fits held first v
Reachable-Fits (start contacts) = inr (inr (refl, refl))
Reachable-Fits {first = first} (step {contacts} {earlier} r e) =
    Step-Fits earlier first e (Reachable-Fits r)
Reachable-Fits {first = first} (contacts_change {held} {v} contacts r) =
    more_contacts-Fits contacts held first v (Reachable-Fits r)
