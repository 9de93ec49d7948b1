-- ===== src/Forms/Ports.antt =====
-- The ports that the forms accept (frontend/src/features/setup/setupSchema.ts and
-- frontend/src/features/organizations/emailAccountSchema.ts). `Number` of a text of digits is its
-- decimal value: a double rounds it only beyond 2^53, where it stays above every port.
use Prim.Native.Char.{Char, code}
use bubllio_crm.Prelude.{
  ℕ, ◌+◌, ◌-◌, ◌*◌, ◌≤◌, ◌<◌, String, Bool, true, not, ◌&&◌, ◌||◌, leb, ltb, ◌≡◌, arith,
}
use bubllio_crm.Js.Text.{truthy}

abbrev pub is_digit : Char → Bool
is_digit c = leb 48 (code c) && leb (code c) 57

abbrev pub all_digits : String → Bool
all_digits String.[] = true
all_digits (String.◌∷◌ c s) = is_digit c && all_digits s

-- /^\d+$/.test(value)
abbrev pub is_numeric : String → Bool
is_numeric s = truthy s && all_digits s

-- The value of digits that follow others of a given value.
abbrev pub value_from : ℕ → String → ℕ
value_from n String.[] = n
value_from n (String.◌∷◌ c s) = value_from (n * 10 + (code c - 48)) s

abbrev pub to_number : String → ℕ
to_number s = value_from 0 s

-- `port` of emailAccountSchema
unfoldable pub account_port : String → Bool
account_port s = is_numeric s && (leb 1 (to_number s) && leb (to_number s) 65535)

-- The port of setupSchema raises no issue; the value of a text of digits is an integer.
unfoldable pub setup_port : String → Bool
setup_port s = let port = to_number s in not (not (is_numeric s) || (ltb port 1 || ltb 65535 port))

-- The two forms accept the same ports: texts of digits alone, of a value from 1 to 65535.
pub setup_port-account_port :
    (s : String)
    → (setup_port s ≡ account_port s)
      × (setup_port s ≡ (is_numeric s && (leb 1 (to_number s) && ltb (to_number s) 65536)))
unfolding setup_port account_port
setup_port-account_port s = (ground arith, ground arith)

-- A port that is accepted is not empty and of a value that 16 bits hold, and of at most as many digits as are written.
pub account_port-lt :
    (s : String)
    → account_port s ≡ true
    → (truthy s ≡ true) × (all_digits s ≡ true) × (1 ≤ to_number s) × (to_number s < 65536)
unfolding account_port
account_port-lt s h = (ground arith, ground arith, ground arith, ground arith)
