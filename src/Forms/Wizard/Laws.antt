-- ===== src/Forms/Wizard/Laws.antt =====
-- The setup page after any steps (frontend/src/pages/Setup/SetupPage.tsx).
use bubllio_crm.Prelude.{
  ◌≤◌, ◌<◌, String, true, not, Option, none, some, nat_eq, if◌then◌else◌, ◌≡◌, refl, arith,
  Bool-cases, inl, inr, All, sym, ◌∙◌,
}
use bubllio_crm.Forms.{Zod}
use bubllio_crm.Forms.Setup.{SetupFormValues, smtp_accepted, setup_accepted, setup_accepted_sound}
use bubllio_crm.Forms.Slugs.{is_slug-words, words, all_words}
use bubllio_crm.Js.Text.{trim, truthy}
use bubllio_crm.Forms.Wizard.{
  SmtpSettings, SetupValues, smtp_payload, parsed, setup_payload, Wizard, next, complete, submit,
  back, skip, Step, types, submits, passes, refuses, goes_back, skips, Reachable, start, step,
}

module _ (zod : Zod) where
  -- Mail settings as the schema demands them: nothing is blank, the sender is the trimmed text of an
  -- address, the port exists, and there is one kind of encryption.
  abbrev pub MailSound : Option SmtpSettings → Type 0
  MailSound none = Unit
  MailSound (some s) =
      (truthy s.name ≡ true)
      × (truthy s.host ≡ true)
      × (truthy s.username ≡ true)
      × (truthy (trim s.password) ≡ true)
      × ((sender : String) × (s.from_email ≡ trim sender) × (zod.is_email sender ≡ true))
      × (1 ≤ s.port)
      × (s.port < 65536)
      × (s.use_tls ≡ not s.use_ssl)

  -- A payload as the schema demands it.
  abbrev pub PayloadSound : SetupValues → Type 0
  PayloadSound p =
      (32 ≤ zod.units p.setup_token)
      × (truthy p.username ≡ true)
      × (zod.is_email p.email ≡ true)
      × (8 ≤ zod.units p.password)
      × (truthy p.organization_name ≡ true)
      × (all_words (words p.organization_slug) ≡ true)
      × MailSound p.smtp

  abbrev pub WizardSound : Wizard → Type 0
  WizardSound w = All PayloadSound w.posted

  mail_settings :
      (v : SetupFormValues)
      → setup_accepted zod v ≡ true
      → v.smtp_enabled ≡ true
      → MailSound (some (smtp_payload (parsed v)))
  unfolding smtp_payload setup_accepted smtp_accepted
  mail_settings v h on =
      let (token, password, slug, sender, host, name, secret, low, high) =
        setup_accepted_sound zod v h on in
      (ground arith, host, name, secret, (v.smtp_from_email, refl, sender), low, high, refl)

  mail_payload :
      (v : SetupFormValues)
      → setup_accepted zod v ≡ true
      → MailSound (if v.smtp_enabled then some (smtp_payload (parsed v)) else none)
  unfolding smtp_payload
  mail_payload v h = elim (Bool-cases v.smtp_enabled) [
    | inl on ↦ rw on (mail_settings v h on)
    | inr off ↦ rw off tt
  ]

  setup_payload_sound :
      (v : SetupFormValues) → setup_accepted zod v ≡ true → PayloadSound (setup_payload (parsed v))
  unfolding setup_payload setup_accepted
  setup_payload_sound v h = (
    ground arith,
    ground arith,
    ground arith,
    ground arith,
    ground arith,
    sym (is_slug-words (trim v.organization_slug)) ∙ ground arith,
    mail_payload v h,
  )

  complete_sound : (w : Wizard) → WizardSound w → WizardSound (complete zod w)
  unfolding complete
  complete_sound w posted = elim (Bool-cases (setup_accepted zod w.values)) [
    | inl accepted ↦ rw accepted (setup_payload_sound w.values accepted, posted)
    | inr refused ↦ rw refused posted
  ]

  next-posted : (w : Wizard) → (next w).posted ≡ w.posted
  unfolding next
  next-posted w = ground arith

  back-posted : (w : Wizard) → (back w).posted ≡ w.posted
  unfolding back
  back-posted w = ground arith

  skip-posted : (w : Wizard) → (skip w).posted ≡ w.posted
  unfolding skip
  skip-posted w = ground arith

  submit_sound : (w : Wizard) → WizardSound w → WizardSound (submit zod w)
  unfolding submit
  submit_sound w h = elim (Bool-cases (nat_eq w.step 3)) [
    | inl last ↦ rw last (complete_sound w h)
    | inr early ↦ rw (early, next-posted w) h
  ]

  Step-WizardSound : {v w : Wizard} → Step zod v w → WizardSound v → WizardSound w
  Step-WizardSound (types values w) h = h
  Step-WizardSound (submits w) h = submit_sound w h
  Step-WizardSound (passes w some_wait) h = h
  Step-WizardSound (refuses w some_wait) h = h
  Step-WizardSound (goes_back w) h = rw (back-posted w) h
  Step-WizardSound (skips w) h = rw (skip-posted w) h

  -- Whatever is typed and pressed, and however the checks of single steps overlap and end: every
  -- payload that was sent has a token of 32 units or more, a login name and a workspace name that are
  -- not empty, an address, a password of 8 units or more, and a slug of words that are not empty; and
  -- with mail turned on, a name, host, login and password that are not blank, the sender that an
  -- address gives when it is trimmed, a port from 1 to 65535 and exactly one of TLS and SSL.
  pub Reachable-WizardSound : {w : Wizard} → Reachable zod w → WizardSound w
  Reachable-WizardSound start = tt
  Reachable-WizardSound (step r e) = Step-WizardSound e (Reachable-WizardSound r)
