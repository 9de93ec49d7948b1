-- ===== src/Js/Numbers.antt =====
-- The numbers of JavaScript (IEEE doubles) and their conversions, which the model takes as a
-- parameter: the code only relies on the operations named here.
use bubllio_crm.Prelude.{ℕ, String, Bool, true, false}
use bubllio_crm.Js.Value.{Value, undefined, null, bool, num, str, obj}

pub record Numbers : Type 1 where
  pub Num : Type 0
  -- a literal, and Number(text)
  pub of_nat : ℕ → Num
  pub of_text : String → Num
  -- String(number)
  pub to_text : Num → String
  pub nan : Num
  pub add : Num → Num → Num
  pub mul : Num → Num → Num
  pub div : Num → Num → Num
  -- Number.isInteger(n) && n >= 1
  pub is_positive_integer : Num → Bool

module _ (numbers : Numbers) where
  open numbers use {Num, of_nat, of_text, to_text, nan}

  -- Number(value). An object is converted by its text, as arrays and plain objects are.
  abbrev pub to_number : Value Num → Num
  to_number undefined = nan
  to_number null = of_nat 0
  to_number (bool true) = of_nat 1
  to_number (bool false) = of_nat 0
  to_number (num n) = n
  to_number (str s) = of_text s
  to_number (obj text fields) = of_text text

  -- String(value)
  abbrev pub to_string : Value Num → String
  to_string undefined = "undefined"
  to_string null = "null"
  to_string (bool true) = "true"
  to_string (bool false) = "false"
  to_string (num n) = to_text n
  to_string (str s) = s
  to_string (obj text fields) = text
