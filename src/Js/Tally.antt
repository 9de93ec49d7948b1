-- ===== src/Js/Tally.antt =====
-- Values gathered in a map under the key of each element, as a loop that reads an entry, or starts
-- one, and writes it back does.
use bubllio_crm.Prelude.{
  ap, String, Bool, Option, some, List, [], ◌∷◌, ◌==◌, ◌≡◌, ◌≤◌, refl, arith, eq_iff, if◌then◌else◌,
  filter, Bool-cases, inl, inr, ◌∙◌,
}
use bubllio_crm.Js.Map
use bubllio_crm.Js.Map.{lookup-set, entries_of, entries_of-set}
use bubllio_crm.Js.Patch.{option_or}

-- `start` is the value that a key begins with, and `put` adds an element to it.
module _ {ℓ κ} {X : Type ℓ} {V : Type κ} (key : X → String) (start : String → V)
    (put : V → X → V) where
  abbrev pub tally_step : List (String × V) → X → List (String × V)
  tally_step m x = Map.set (key x) (put (option_or (Map.lookup (key x) m) (start (key x))) x) m

  abbrev pub tally : List (String × V) → List X → List (String × V)
  tally m [] = m
  tally m (x ∷ xs) = tally (tally_step m x) xs

  abbrev pub put_all : V → List X → V
  put_all v [] = v
  put_all v (x ∷ xs) = put_all (put v x) xs

  -- The value of a key that stands at `o` after the elements; none where there is no element.
  abbrev pub total : String → Option V → List X → Option V
  total k o [] = o
  total k o (x ∷ xs) = some (put_all (option_or o (start k)) (x ∷ xs))

  abbrev pub has_key : String → X → Bool
  has_key k x = key x == k

  total-some : (k : String) (v : V) (xs : List X) → total k (some v) xs ≡ some (put_all v xs)
  total-some k v [] = refl
  total-some k v (x ∷ xs) = refl

  lookup-tally_step :
      (k : String) (m : List (String × V)) (x : X)
      → Map.lookup k (tally_step m x) ≡ (
          if has_key k x
          then some (put (option_or (Map.lookup k m) (start k)) x)
          else Map.lookup k m)
  lookup-tally_step k m x = lookup-set (key x) k _ m ∙ elim (Bool-cases (has_key k x)) [
    | inl same ↦
        rw same (
          ap (λ c. some (put (option_or (Map.lookup c m) (start c)) x)) ((eq_iff (key x) k).0 same))
    | inr other ↦ rw other refl
  ]

  pub lookup-tally :
      (k : String) (m : List (String × V)) (xs : List X)
      → Map.lookup k (tally m xs) ≡ total k (Map.lookup k m) (filter (has_key k) xs)
  lookup-tally k m [] = refl
  lookup-tally k m (x ∷ xs) =
      lookup-tally k (tally_step m x) xs
      ∙ rw (lookup-tally_step k m x) (elim (Bool-cases (has_key k x)) [
        | inl same ↦ rw same (total-some k _ _)
        | inr other ↦ rw other refl
      ])

  pub entries_of-tally :
      (k : String) (m : List (String × V)) (xs : List X)
      → entries_of k m ≤ 1
      → entries_of k (tally m xs) ≤ 1
  entries_of-tally k m [] h = h
  entries_of-tally k m (x ∷ xs) h =
      entries_of-tally k (tally_step m x) xs (rw (entries_of-set (key x) k _ m) (ground arith))
