-- ===== src/Js/Value.antt =====
-- Values of type `unknown`, as they come from the URL, from a drag source or from JSON.
-- `N` is the type of numbers. An object carries the text that `String(value)` gives for it, and
-- its properties; an array is an object. Functions and symbols do not occur in such data.
use bubllio_crm.Prelude.{
  String, Bool, true, false, Option, none, some, List, [], ◌∷◌, ◌==◌, if◌then◌else◌, ◌≡◌, eq_iff,
  ap,
}

mutual
  pub data Value (N : Type 0) : Type 0 where
    undefined : Value N
    null : Value N
    bool : Bool → Value N
    num : N → Value N
    str : String → Value N
    obj : (text : String) → Fields N → Value N

  pub data Fields (N : Type 0) : Type 0 where
    end : Fields N
    field : String → Value N → Fields N → Fields N

module _ {N : Type 0} where
  -- A property that is missing reads as `undefined`.
  abbrev pub get : String → Fields N → Value N
  get k end = undefined
  get k (field j v fs) = let rest = get k fs in if j == k then v else rest

  -- typeof value === 'string'
  abbrev pub as_string : Value N → Option String
  as_string (str s) = some s
  as_string undefined = none
  as_string _ = none

  abbrev pub is_string : Value N → Bool
  is_string (str s) = true
  is_string undefined = false
  is_string _ = false

  abbrev pub is_null : Value N → Bool
  is_null null = true
  is_null undefined = false
  is_null _ = false

  -- value === true || value === 'true'
  abbrev pub is_true : Value N → Bool
  is_true (bool b) = b
  is_true (str s) = s == "true"
  is_true undefined = false
  is_true _ = false

  -- typeof value === 'object' && value !== null
  abbrev pub as_record : Value N → Option (Fields N)
  as_record (obj text fs) = some fs
  as_record undefined = none
  as_record _ = none

-- `options.includes(value)` for a value of unknown type: the option that it spells, if any.
abbrev pub spelled {ℓ} : {A : Type ℓ} → (A → String) → List A → String → Option A
spelled name [] s = none
spelled name (a ∷ more) s = let rest = spelled name more s in if name a == s then some a else rest

abbrev pub of_string {ℓ} : {A : Type ℓ} → (String → Option A) → Option String → Option A
of_string f none = none
of_string f (some s) = f s

abbrev pub one_of {ℓ} : {A : Type ℓ} {N : Type 0} → (A → String) → List A → Value N → Option A
one_of name options v = of_string (spelled name options) (as_string v)

-- Options that are found again by their names have different names.
pub name_injective {ℓ} :
    {A : Type ℓ} (name : A → String) (options : List A)
    → ((a : A) → spelled name options (name a) ≡ some a)
    → (a b : A) → (name a == name b) ≡ true
    → a ≡ b
name_injective name options found a b h =
    cc (found a, found b, ap (spelled name options) ((eq_iff (name a) (name b)).0 h))
