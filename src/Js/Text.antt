-- ===== src/Js/Text.antt =====
-- `trim`, `includes`, `join` and truthiness of texts, over code points.
use Prim.Native.Char.{Char, code}
use Prim.Native.String
use bubllio_crm.Prelude.{
  ℕ, String, Bool, true, false, not, ◌&&◌, ◌||◌, List, [], ◌∷◌, leb, nat_eq, if◌then◌else◌, ◌≡◌,
  refl, arith,
}

-- WhiteSpace and LineTerminator of ECMAScript.
abbrev pub is_space : ℕ → Bool
is_space c =
    leb 9 c && leb c 13
    || nat_eq c 32
    || nat_eq c 0xa0
    || nat_eq c 0x1680
    || leb 0x2000 c && leb c 0x200a
    || nat_eq c 0x2028
    || nat_eq c 0x2029
    || nat_eq c 0x202f
    || nat_eq c 0x205f
    || nat_eq c 0x3000
    || nat_eq c 0xfeff

-- Boolean(text)
abbrev pub truthy : String → Bool
truthy String.[] = false
truthy (String.◌∷◌ c s) = true

unfoldable pub trim_start : String → String
trim_start String.[] = ""
trim_start (String.◌∷◌ c s) =
    let rest = trim_start s in if is_space (code c) then rest else String.◌∷◌ c s

-- `rest` is the tail without its trailing space.
abbrev trim_end_step : Char → String → String
trim_end_step c rest = if is_space (code c) && not (truthy rest) then "" else String.◌∷◌ c rest

unfoldable pub trim_end : String → String
trim_end String.[] = ""
trim_end (String.◌∷◌ c s) = trim_end_step c (trim_end s)

unfoldable pub trim : String → String
unfolding trim_start trim_end
trim s = trim_end (trim_start s)

pub trim_empty : trim "" ≡ ""
unfolding trim trim_start trim_end
trim_empty = refl

-- text.startsWith(part)
abbrev pub is_prefix : String → String → Bool
is_prefix String.[] s = true
is_prefix (String.◌∷◌ c p) String.[] = false
is_prefix (String.◌∷◌ c p) (String.◌∷◌ d s) = nat_eq (code c) (code d) && is_prefix p s

-- text.includes(part)
unfoldable pub includes : String → String → Bool
includes part String.[] = is_prefix part ""
includes part (String.◌∷◌ c s) = is_prefix part (String.◌∷◌ c s) || includes part s

-- parts.join(separator)
unfoldable pub join : String → List String → String
join sep [] = ""
join sep (s ∷ []) = s
join sep (s ∷ t ∷ more) = String.◌++◌ s (String.◌++◌ sep (join sep (t ∷ more)))

trim_end_step_idempotent :
    (c : Char) (rest : String)
    → trim_end rest ≡ rest
    → trim_end (trim_end_step c rest) ≡ trim_end_step c rest
unfolding trim_end
trim_end_step_idempotent c rest h = ground arith

trim_end_idempotent : (s : String) → trim_end (trim_end s) ≡ trim_end s
unfolding trim_end
trim_end_idempotent String.[] = refl
trim_end_idempotent (String.◌∷◌ c s) =
    trim_end_step_idempotent c (trim_end s) (trim_end_idempotent s)
