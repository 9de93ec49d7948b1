-- ===== src/Forms/Slugs.antt =====
-- The slug of a workspace (frontend/src/features/setup/setupSchema.ts): the expression
-- /^[a-z0-9]+(?:-[a-z0-9]+)*$/ as a scan of the text.
use Prim.Native.Char.{Char, code}
use bubllio_crm.Prelude.{
  String, Bool, true, false, ◌&&◌, ◌||◌, List, [], ◌∷◌, leb, nat_eq, if◌then◌else◌, ◌≡◌, refl,
  arith, ◌∙◌, Bool-cases, inl, inr,
}
use bubllio_crm.Js.Text.{truthy}

abbrev pub is_slug_letter : Char → Bool
is_slug_letter c = leb 97 (code c) && leb (code c) 122 || leb 48 (code c) && leb (code c) 57

abbrev pub is_hyphen : Char → Bool
is_hyphen c = nat_eq (code c) 45

-- The rest of a match, after a letter or not.
abbrev pub slug_from : Bool → String → Bool
slug_from after_letter String.[] = after_letter
slug_from after_letter (String.◌∷◌ c s) =
    let word = slug_from true s in
    let next = slug_from false s in
    if is_slug_letter c then word else is_hyphen c && (after_letter && next)

unfoldable pub is_slug : String → Bool
is_slug s = slug_from false s

-- The parts between the hyphens.
abbrev put_char : Char → List String → List String
put_char c [] = String.◌∷◌ c "" ∷ []
put_char c (w ∷ ws) = String.◌∷◌ c w ∷ ws

abbrev pub words : String → List String
words String.[] = "" ∷ []
words (String.◌∷◌ c s) = let rest = words s in if is_hyphen c then "" ∷ rest else put_char c rest

abbrev all_letters : String → Bool
all_letters String.[] = true
all_letters (String.◌∷◌ c s) = is_slug_letter c && all_letters s

abbrev pub is_word : String → Bool
is_word w = truthy w && all_letters w

abbrev pub all_words : List String → Bool
all_words [] = true
all_words (w ∷ ws) = is_word w && all_words ws

-- The first part may be empty where a letter stands before it.
abbrev rest_words : Bool → List String → Bool
rest_words after_letter [] = after_letter
rest_words after_letter (w ∷ ws) = all_letters w && (after_letter || truthy w) && all_words ws

letter_no_hyphen : (c : Char) → is_hyphen c ≡ true → is_slug_letter c ≡ false
letter_no_hyphen c h = ground arith

put_char_lem :
    (after_letter : Bool) (c : Char) (ws : List String)
    → rest_words after_letter (put_char c ws) ≡ (is_slug_letter c && rest_words true ws)
put_char_lem after_letter c [] = ground arith
put_char_lem after_letter c (w ∷ ws) = ground arith

all_words-put_char :
    (c : Char) (ws : List String) → rest_words false (put_char c ws) ≡ all_words (put_char c ws)
all_words-put_char c [] = ground arith
all_words-put_char c (w ∷ ws) = ground arith

all_words-words : (s : String) → rest_words false (words s) ≡ all_words (words s)
all_words-words String.[] = refl
all_words-words (String.◌∷◌ c s) = elim (Bool-cases (is_hyphen c)) [
  | inl hyphen ↦ rw hyphen refl
  | inr other ↦ rw other (all_words-put_char c (words s))
]

slug_from-words :
    (after_letter : Bool) (s : String)
    → slug_from after_letter s ≡ rest_words after_letter (words s)
slug_from-words after_letter String.[] = ground arith
slug_from-words after_letter (String.◌∷◌ c s) = elim (Bool-cases (is_hyphen c)) [
  | inl hyphen ↦
      rw (letter_no_hyphen c hyphen, hyphen, slug_from-words false s, all_words-words s)
        (ground arith)
  | inr other ↦
      rw (other, put_char_lem after_letter c (words s), slug_from-words true s) (ground arith)
]

-- A slug is accepted just when its parts between hyphens are all words of small letters and digits
-- that are not empty: it begins and ends with a letter or a digit, and no two hyphens meet.
pub is_slug-words : (s : String) → is_slug s ≡ all_words (words s)
unfolding is_slug
is_slug-words s = slug_from-words false s ∙ all_words-words s
