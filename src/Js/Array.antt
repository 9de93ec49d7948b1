-- ===== src/Js/Array.antt =====
-- Array methods, by a Boolean test, and `Array.prototype.splice` as the code calls it.
use bubllio_crm.Prelude.{
  ◌<◌, ℕ, zero, suc, ◌+◌, ◌≤◌, Bool, true, false, Option, none, some, List, [], ◌∷◌, if◌then◌else◌,
  ◌≡◌, refl, arith, length, count, get_elem?,
}

abbrev pub find_index_from : Bool → Option ℕ → Option ℕ
find_index_from true rest = some 0
find_index_from false none = none
find_index_from false (some i) = some (suc i)

find_index_from-suc :
    (found : Bool) (rest : Option ℕ) (i : ℕ)
    → find_index_from found rest ≡ some (suc i)
    → rest ≡ some i
find_index_from-suc true rest i e = ground arith
find_index_from-suc false none i e = cc
find_index_from-suc false (some j) i e = cc

module _ {ℓ} {A : Type ℓ} where
  -- xs.find(test)
  abbrev pub find : (A → Bool) → List A → Option A
  find p [] = none
  find p (x ∷ xs) = let rest = find p xs in if p x then some x else rest

  -- xs.findIndex(test); `none` is -1
  abbrev pub find_index : (A → Bool) → List A → Option ℕ
  find_index p [] = none
  find_index p (x ∷ xs) = find_index_from (p x) (find_index p xs)

  -- xs.splice(i, 0, x) for i ≤ xs.length
  abbrev pub insert_at : ℕ → A → List A → List A
  insert_at zero x xs = x ∷ xs
  insert_at (suc i) x [] = x ∷ []
  insert_at (suc i) x (y ∷ ys) = y ∷ insert_at i x ys

  -- xs.map((x, index) => f(index, x)), from a first index
  abbrev pub map_index {κ} : {B : Type κ} → (ℕ → A → B) → ℕ → List A → List B
  map_index f i [] = []
  map_index f i (x ∷ xs) = f i x ∷ map_index f (suc i) xs

  pub count-insert_at :
      (p : A → Bool) (i : ℕ) (x : A) (xs : List A)
      → count p (insert_at i x xs) ≡ (if p x then 1 else 0) + count p xs
  count-insert_at p zero x xs = refl
  count-insert_at p (suc i) x [] = refl
  count-insert_at p (suc i) x (y ∷ ys) = ground (arith, count-insert_at p i x ys)

  pub get_elem?-insert_at :
      (i : ℕ) (x : A) (xs : List A) → i ≤ length xs → get_elem? (insert_at i x xs) i ≡ some x
  get_elem?-insert_at zero x xs h = refl
  get_elem?-insert_at (suc i) x [] h = absurd (omega arith)
  get_elem?-insert_at (suc i) x (y ∷ ys) h = get_elem?-insert_at i x ys (omega arith)

  pub find_sound : (p : A → Bool) (x : A) (xs : List A) → find p xs ≡ some x → p x ≡ true
  find_sound p x [] e = cc
  find_sound p x (y ∷ ys) e = ground (arith, find_sound p x ys)

  pub find_index-lt :
      (p : A → Bool) (xs : List A) (i : ℕ) → find_index p xs ≡ some i → i < length xs
  find_index-lt p [] i e = absurd (cc e)
  find_index-lt p (x ∷ xs) zero e = omega arith
  find_index-lt p (x ∷ xs) (suc i) e =
      omega (arith, find_index-lt p xs i (find_index_from-suc (p x) (find_index p xs) i e))
