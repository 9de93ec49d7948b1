-- ===== src/Js/Sort.antt =====
-- `sort` and `toSorted` by a number: a stable sort. ECMAScript fixes the result, not the algorithm;
-- insertion is used here, and the lemmas say that the result is sorted, stable and a permutation.
pub mod Compare
use mathlib.Core.List.{Perm}
use mathlib.Core.List.Perm
use bubllio_crm.Prelude.{
  ℕ, suc, ◌+◌, ◌≤◌, Bool, List, [], ◌∷◌, leb, nat_eq, if◌then◌else◌, ◌≡◌, refl, arith, count,
  filter, length, Bool-cases, inl, inr, not_leb→le, leb→le, All,
}

module _ {ℓ} {A : Type ℓ} (key : A → ℕ) where
  insert : A → List A → List A
  insert x [] = x ∷ []
  insert x (y ∷ ys) = let rest = insert x ys in if leb (key x) (key y) then x ∷ y ∷ ys else y ∷ rest

  unfoldable pub sort_by : List A → List A
  unfolding insert
  sort_by [] = []
  sort_by (x ∷ xs) = insert x (sort_by xs)

  abbrev pub IsSorted : List A → Type 0
  IsSorted [] = Unit
  IsSorted (x ∷ xs) = All (λ y. key x ≤ key y) xs × IsSorted xs

  count-insert :
      (p : A → Bool) (x : A) (xs : List A)
      → count p (insert x xs) ≡ (if p x then 1 else 0) + count p xs
  unfolding insert
  count-insert p x [] = refl
  count-insert p x (y ∷ ys) = ground (arith, count-insert p x ys)

  pub count-sort_by : (p : A → Bool) (xs : List A) → count p (sort_by xs) ≡ count p xs
  unfolding sort_by
  count-sort_by p [] = refl
  count-sort_by p (x ∷ xs) = ground (arith, count-insert p x (sort_by xs), count-sort_by p xs)

  All-le_trans : (a b : ℕ) (xs : List A) → a ≤ b → All (λ y. b ≤ key y) xs → All (λ y. a ≤ key y) xs
  All-le_trans a b [] h k = tt
  All-le_trans a b (x ∷ xs) h (p, k) = (omega arith, All-le_trans a b xs h k)

  All-insert : (P : A → Type 0) (x : A) (xs : List A) → P x → All P xs → All P (insert x xs)
  unfolding insert
  All-insert P x [] p h = (p, tt)
  All-insert P x (y ∷ ys) p (q, h) = elim (Bool-cases (leb (key x) (key y))) [
    | inl le ↦ rw le (p, (q, h))
    | inr gt ↦ rw gt (q, All-insert P x ys p h)
  ]

  insert-IsSorted : (x : A) (xs : List A) → IsSorted xs → IsSorted (insert x xs)
  unfolding insert
  insert-IsSorted x [] h = (tt, tt)
  insert-IsSorted x (y ∷ ys) (below, h) = elim (Bool-cases (leb (key x) (key y))) [
    | inl le ↦
        let x_le_y = leb→le (key x) (key y) le in
        rw le ((x_le_y, All-le_trans (key x) (key y) ys x_le_y below), (below, h))
    | inr gt ↦ rw gt (
      All-insert (λ z. key y ≤ key z) x ys (not_leb→le (key x) (key y) gt) below,
      insert-IsSorted x ys h,
    )
  ]

  pub sort_by-IsSorted : (xs : List A) → IsSorted (sort_by xs)
  unfolding sort_by
  sort_by-IsSorted [] = tt
  sort_by-IsSorted (x ∷ xs) = insert-IsSorted x (sort_by xs) (sort_by-IsSorted xs)

  -- Stability: the elements of one key keep their order.
  abbrev pub same_key : ℕ → A → Bool
  same_key k x = nat_eq (key x) k

  filter-insert :
      (k : ℕ) (x : A) (xs : List A)
      → filter (same_key k) (insert x xs) ≡ filter (same_key k) (x ∷ xs)
  unfolding insert
  filter-insert k x [] = refl
  filter-insert k x (y ∷ ys) = ground (arith, filter-insert k x ys)

  pub sort_by_stable :
      (k : ℕ) (xs : List A) → filter (same_key k) (sort_by xs) ≡ filter (same_key k) xs
  unfolding sort_by
  sort_by_stable k [] = refl
  sort_by_stable k (x ∷ xs) = ground (arith, filter-insert k x (sort_by xs), sort_by_stable k xs)

  length-insert : (x : A) (xs : List A) → length (insert x xs) ≡ suc (length xs)
  unfolding insert
  length-insert x [] = refl
  length-insert x (y ∷ ys) = ground (arith, length-insert x ys)

  pub length-sort_by : (xs : List A) → length (sort_by xs) ≡ length xs
  unfolding sort_by
  length-sort_by [] = refl
  length-sort_by (x ∷ xs) = ground (arith, length-insert x (sort_by xs), length-sort_by xs)

  insert-perm : (x : A) (xs : List A) → Perm (insert x xs) (x ∷ xs)
  unfolding insert
  insert-perm x [] = Perm.refl (x ∷ [])
  insert-perm x (y ∷ ys) = elim (Bool-cases (leb (key x) (key y))) [
    | inl le ↦ rw le (Perm.refl (x ∷ y ∷ ys))
    | inr gt ↦ rw gt (Perm.trans (Perm.cons y (insert-perm x ys)) (Perm.swap x y ys))
  ]

  pub sort_by-perm : (xs : List A) → Perm (sort_by xs) xs
  unfolding sort_by
  sort_by-perm [] = Perm.refl []
  sort_by-perm (x ∷ xs) = Perm.trans (insert-perm x (sort_by xs)) (Perm.cons x (sort_by-perm xs))
