-- ===== src/Js/Sort/Compare.antt =====
-- `sort` by a comparison, told by the test that one element does not come after another: a stable
-- sort.
use bubllio_crm.Prelude.{
  ◌+◌, Bool, true, false, List, [], ◌∷◌, if◌then◌else◌, ◌≡◌, refl, arith, count, Bool-cases, inl,
  inr, All,
}

module _ {ℓ} {A : Type ℓ} (le : A → A → Bool) where
  abbrev insert_before : A → List A → List A
  insert_before x [] = x ∷ []
  insert_before x (y ∷ ys) =
      let rest = insert_before x ys in if le x y then x ∷ y ∷ ys else y ∷ rest

  unfoldable pub sort_with : List A → List A
  sort_with [] = []
  sort_with (x ∷ xs) = insert_before x (sort_with xs)

  -- No element comes after a later one.
  abbrev pub IsOrdered : List A → Type ℓ
  IsOrdered [] = Unit
  IsOrdered (x ∷ xs) = All (λ y. le x y ≡ true) xs × IsOrdered xs

  count-insert_before :
      (p : A → Bool) (x : A) (xs : List A)
      → count p (insert_before x xs) ≡ (if p x then 1 else 0) + count p xs
  count-insert_before p x [] = refl
  count-insert_before p x (y ∷ ys) = ground (arith, count-insert_before p x ys)

  pub count-sort_with : (p : A → Bool) (xs : List A) → count p (sort_with xs) ≡ count p xs
  unfolding sort_with
  count-sort_with p [] = refl
  count-sort_with p (x ∷ xs) =
      ground (arith, count-insert_before p x (sort_with xs), count-sort_with p xs)

  module _ (total : (x y : A) → le x y ≡ false → le y x ≡ true)
      (trans : (x y z : A) → le x y ≡ true → le y z ≡ true → le x z ≡ true) where
    All-trans :
        (x y : A) (ys : List A)
        → le x y ≡ true
        → All (λ z. le y z ≡ true) ys
        → All (λ z. le x z ≡ true) ys
    All-trans x y [] h k = tt
    All-trans x y (z ∷ zs) h (p, k) = (trans x y z h p, All-trans x y zs h k)

    All-insert_before :
        (y x : A) (ys : List A)
        → le y x ≡ true
        → All (λ z. le y z ≡ true) ys
        → All (λ z. le y z ≡ true) (insert_before x ys)
    All-insert_before y x [] p h = (p, tt)
    All-insert_before y x (z ∷ zs) p (q, h) = elim (Bool-cases (le x z)) [
      | inl before ↦ rw before (p, (q, h))
      | inr after ↦ rw after (q, All-insert_before y x zs p h)
    ]

    insert_before-IsOrdered : (x : A) (xs : List A) → IsOrdered xs → IsOrdered (insert_before x xs)
    insert_before-IsOrdered x [] h = (tt, tt)
    insert_before-IsOrdered x (y ∷ ys) (below, h) = elim (Bool-cases (le x y)) [
      | inl before ↦ rw before ((before, All-trans x y ys before below), (below, h))
      | inr after ↦
          rw after
            (All-insert_before y x ys (total x y after) below, insert_before-IsOrdered x ys h)
    ]

    pub sort_with-IsOrdered : (xs : List A) → IsOrdered (sort_with xs)
    unfolding sort_with
    sort_with-IsOrdered [] = tt
    sort_with-IsOrdered (x ∷ xs) = insert_before-IsOrdered x (sort_with xs) (sort_with-IsOrdered xs)
