-- ===== src/Js/Map.antt =====
-- `Map` with text keys, in insertion order: `set` overwrites in place, or appends.
use bubllio_crm.Prelude.{
  String, Option, none, some, List, [], ◌∷◌, ◌==◌, if◌then◌else◌, ◌≡◌, refl, arith, eq_iff, ℕ,
  count, nat_eq,
}

module _ {ℓ} {V : Type ℓ} where
  abbrev pub empty : List (String × V)
  empty = []

  unfoldable pub lookup : String → List (String × V) → Option V
  lookup k [] = none
  lookup k ((j, v) ∷ m) = let rest = lookup k m in if j == k then some v else rest

  unfoldable pub set : String → V → List (String × V) → List (String × V)
  set k v [] = (k, v) ∷ []
  set k v ((j, w) ∷ m) = let rest = set k v m in if j == k then (k, v) ∷ m else (j, w) ∷ rest

  pub lookup-set :
      (k j : String) (v : V) (m : List (String × V))
      → lookup j (set k v m) ≡ (if k == j then some v else lookup j m)
  unfolding lookup set
  lookup-set k j v [] = refl
  lookup-set k j v ((i, w) ∷ m) =
      ground (arith, eq_iff k j, eq_iff i k, eq_iff i j, lookup-set k j v m)

  -- new Map(entries): a later entry of a key wins
  unfoldable pub from_entries : List (String × V) → List (String × V) → List (String × V)
  from_entries m [] = m
  from_entries m ((k, v) ∷ more) = from_entries (set k v m) more

  -- How many entries a key has, and that `set` never makes a second one.
  abbrev pub entries_of : String → List (String × V) → ℕ
  entries_of k m = count (λ (e : String × V). e.0 == k) m

  pub entries_of-set :
      (k j : String) (v : V) (m : List (String × V))
      → entries_of j (set k v m) ≡ (
          if k == j
          then (if nat_eq (entries_of j m) 0 then 1 else entries_of j m)
          else entries_of j m)
  unfolding set
  entries_of-set k j v [] = ground arith
  entries_of-set k j v ((i, w) ∷ m) =
      ground (arith, eq_iff k j, eq_iff i k, eq_iff i j, entries_of-set k j v m)
