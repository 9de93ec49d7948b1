-- ===== src/Js/Patch.antt =====
-- Objects with optional keys: spreading a patch over them, and building them key by key.
use bubllio_crm.Prelude.{
  String, Bool, true, false, Option, none, some, List, ◌==◌, if◌then◌else◌, ◌≡◌, refl, arith, ◌&&◌,
}
use bubllio_crm.Js.Value.{
  Value, str, bool, undefined, Fields, field, get, as_string, is_true, one_of, spelled,
}
use bubllio_crm.Js.Text.{trim, truthy}

-- A key of a patch: not named, or named with a value, which `undefined` may be.
pub data Change {ℓ} (A : Type ℓ) : Type ℓ where
  keep : Change A
  assign : Option A → Change A

module _ {ℓ} {A : Type ℓ} where
  abbrev pub changed : Change A → Option A → Option A
  changed keep old = old
  changed (assign new) old = new

  -- a ?? b
  abbrev pub option_or : Option A → A → A
  option_or none b = b
  option_or (some a) b = a

  abbrev pub is_some : Option A → Bool
  is_some none = false
  is_some (some a) = true

  -- ...(a === undefined ? {} : { key: a })
  abbrev pub present : {N : Type 0} → String → (A → Value N) → Option A → Fields N → Fields N
  present key value none rest = rest
  present key value (some a) rest = field key (value a) rest

  -- The value under a key: of the option, or else of the rest.
  abbrev pub shown : {N : Type 0} → (A → Value N) → Option A → Value N → Value N
  shown value none rest = rest
  shown value (some a) rest = value a

  pub get-present :
      {N : Type 0} (j k : String) (value : A → Value N) (o : Option A) (rest : Fields N)
      → get j (present k value o rest) ≡ (if k == j then shown value o (get j rest) else get j rest)
  get-present j k value none rest = ground arith
  get-present j k value (some a) rest = refl

-- ...(flag ? { key: true } : {})
abbrev pub flag : {N : Type 0} → String → Bool → Fields N → Fields N
flag key true rest = field key (bool true) rest
flag key false rest = rest

-- text.trim() ? text : undefined
abbrev pub non_blank : Option String → Option String
non_blank none = none
non_blank (some s) = if truthy (trim s) then some s else none

pub get-flag :
    {N : Type 0} (j k : String) (b : Bool) (rest : Fields N)
    → get j (flag k b rest) ≡ (if k == j && b then bool true else get j rest)
get-flag j k true rest = ground arith
get-flag j k false rest = ground arith

module _ (N : Type 0) where
  pub as_string-shown : (o : Option String) → as_string (shown {N = N} (λ t. str t) o undefined) ≡ o
  as_string-shown none = refl
  as_string-shown (some s) = refl

  pub one_of-shown {ℓ} :
      {A : Type ℓ} (name : A → String) (options : List A)
      → ((a : A) → spelled name options (name a) ≡ some a)
      → (o : Option A) → one_of name options (shown {N = N} (λ a. str (name a)) o undefined) ≡ o
  one_of-shown name options found none = refl
  one_of-shown name options found (some a) = found a

  pub is_true-if : (b : Bool) → is_true {N = N} (if b then bool true else undefined) ≡ b
  is_true-if true = refl
  is_true-if false = refl

pub non_blank_idempotent : (o : Option String) → non_blank (non_blank o) ≡ non_blank o
non_blank_idempotent none = refl
non_blank_idempotent (some s) = ground arith
