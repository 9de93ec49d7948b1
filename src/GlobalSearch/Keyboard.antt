-- ===== src/GlobalSearch/Keyboard.antt =====
-- The keys of the search field
-- (`handleKeyDown` of frontend/src/features/global-search/components/GlobalSearch.tsx).
use native.Mathlib.Nat.{mod-lt, mod-eq_of_lt, mod-eq-sub-mod}
use bubllio_crm.Prelude.{
  leb-cases, ◌∙◌, inl, inr, ℕ, zero, suc, ◌+◌, ◌-◌, ◌%◌, ◌≤◌, ◌<◌, Option, none, some, List, [],
  ◌∷◌, ◌≡◌, refl, arith, length, get_elem?,
}
use bubllio_crm.GlobalSearch.State.{
  GlobalSearchState, active_index_changed, close, global_search_reducer,
}

pub data Key : Type 0 where
  arrow_down arrow_up enter other : Key

-- i % n for n ≥ 1, the only case that the code reaches.
abbrev pub remainder : ℕ → ℕ → ℕ
remainder i zero = 0
remainder i (suc n) = i % suc n

-- An index just past the end wraps once.
mod-once : (a n : ℕ) → n ≤ a → a < n + n → a % n ≡ a - n
mod-once a n le lt = mod-eq-sub-mod le ∙ mod-eq_of_lt (omega arith)

down : (i n : ℕ) → i < suc n → ((i + 1) % suc n + suc n - 1) % suc n ≡ i
down i n lt = elim (leb-cases (i + 2) (suc n)) [
  | inl below ↦
      rw (mod-eq_of_lt {n = i + 1} {m = suc n} (omega arith))
        (mod-once (i + 1 + suc n - 1) (suc n) (omega arith) (omega arith) ∙ omega arith)
  | inr last ↦
      rw (mod-once (i + 1) (suc n) (omega arith) (omega arith))
        (mod-eq_of_lt (omega arith) ∙ omega arith)
]

up : (i n : ℕ) → i < suc n → ((i + suc n - 1) % suc n + 1) % suc n ≡ i
up i n lt = elim (leb-cases 1 i) [
  | inl inside ↦
      rw (mod-once (i + suc n - 1) (suc n) (omega arith) (omega arith))
        (mod-eq_of_lt (omega arith) ∙ omega arith)
  | inr first ↦
      rw (mod-eq_of_lt {n = i + suc n - 1} {m = suc n} (omega arith))
        (mod-once (i + suc n - 1 + 1) (suc n) (omega arith) (omega arith) ∙ omega arith)
]

module _ {ℓ} {R : Type ℓ} where
  -- (activeIndex + 1) % displayedResults.length
  abbrev pub next_index : ℕ → List R → ℕ
  next_index i shown = remainder (i + 1) (length shown)

  -- (activeIndex - 1 + displayedResults.length) % displayedResults.length
  abbrev pub previous_index : ℕ → List R → ℕ
  previous_index i shown = remainder (i + length shown - 1) (length shown)

  -- displayedResults[activeIndex] ?? displayedResults[0]
  abbrev pub chosen : ℕ → R → List R → R
  chosen i first more = elim (get_elem? (first ∷ more) i) [ none ↦ first | some r ↦ r ]

  -- The new state and the result that the key selects, if any.
  unfoldable pub handle_key_down : Key → List R → GlobalSearchState → GlobalSearchState × Option R
  handle_key_down key [] s = (s, none)
  handle_key_down arrow_down (r ∷ rs) s =
      (global_search_reducer s (active_index_changed (next_index s.active_index (r ∷ rs))), none)
  handle_key_down arrow_up (r ∷ rs) s = (
    global_search_reducer s (active_index_changed (previous_index s.active_index (r ∷ rs))),
    none,
  )
  handle_key_down enter (r ∷ rs) s =
      (global_search_reducer s close, some (chosen s.active_index r rs))
  handle_key_down other (r ∷ rs) s = (s, none)

  -- With results on screen, an arrow key leaves the active index on one of them, wherever it was;
  -- and when it was on one of them, the two arrows undo each other.
  pub handle_key_down-arrows :
      (shown : List R) (s : GlobalSearchState)
      → 1 ≤ length shown
      → ((handle_key_down arrow_down shown s).0.active_index < length shown)
        × ((handle_key_down arrow_up shown s).0.active_index < length shown)
        × (s.active_index < length shown
            → ((handle_key_down arrow_up shown (handle_key_down arrow_down shown s).0).0 ≡ s)
              × ((handle_key_down arrow_down shown (handle_key_down arrow_up shown s).0).0 ≡ s))
  unfolding handle_key_down global_search_reducer
  handle_key_down-arrows [] s h = absurd (omega arith)
  handle_key_down-arrows (r ∷ rs) s h = (
    mod-lt _ (omega arith),
    mod-lt _ (omega arith),
    λ lt.
        (rw (down s.active_index (length rs) lt) refl, rw (up s.active_index (length rs) lt) refl),
  )
