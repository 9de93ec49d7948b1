-- ===== src/Forms.antt =====
-- The schemas that the forms are checked by. A schema of zod accepts values when every check of every
-- field and its refinements do, whatever the order that they run in; which messages are shown is
-- left out. What zod takes for an email address or a URL, and the length of a text in UTF-16 units,
-- are parameters.
pub mod Ports
pub mod Slugs
pub mod Setup
pub mod Records
pub mod Workspace
pub mod Task
pub mod Wizard
use bubllio_crm.Prelude.{ℕ, String, Bool, ◌&&◌, ◌||◌, not, leb, Option, none, some, true, nat_eq}
use bubllio_crm.Js.Text.{truthy, trim}

pub record Zod : Type 0 where
  -- s.length
  pub units : String → ℕ
  -- z.string().email(), z.string().url() and z.string().uuid()
  pub is_email : String → Bool
  pub is_url : String → Bool
  pub is_uuid : String → Bool

module _ (zod : Zod) where
  -- z.string().trim().max(n)
  abbrev pub within : ℕ → String → Bool
  within n s = leb (zod.units (trim s)) n

  -- z.string().trim().min(1): a text of no unit is empty
  abbrev pub filled : String → Bool
  filled s = truthy (trim s)

  abbrev pub filled_within : ℕ → String → Bool
  filled_within n s = filled s && within n s

  abbrev pub optional_email : String → Bool
  optional_email s = not (truthy (trim s)) || zod.is_email (trim s)

  abbrev pub optional_url : String → Bool
  optional_url s = not (truthy (trim s)) || zod.is_url (trim s)

  abbrev pub optional_uuid : Option String → Bool
  optional_uuid none = true
  optional_uuid (some s) = zod.is_uuid s

-- z.number().int().positive().nullable(), for a number that is not negative
abbrev pub optional_positive : Option ℕ → Bool
optional_positive none = true
optional_positive (some n) = not (nat_eq n 0)
