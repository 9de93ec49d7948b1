-- ===== src/ListPage.antt =====
-- The page of a list, which a change of its filter resets (frontend/src/hooks/useListPage.ts).
use bubllio_crm.Prelude.{
  Bool-cases, inl, inr, ℕ, String, Bool, true, false, if◌then◌else◌, ◌≡◌, ◌==◌, refl, eq_refl,
  arith,
}

pub record ListPage : Type 0 where
  pub filter_key : String
  pub page : ℕ

abbrev pub initial : String → ListPage
initial filter_key = record { filter_key = filter_key; page = 0 }

-- The state after a render for a filter, and the page that the render shows.
unfoldable pub render : String → ListPage → ListPage
render filter_key s = if s.filter_key == filter_key then s else initial filter_key

unfoldable pub shown_page : String → ListPage → ℕ
shown_page filter_key s = if s.filter_key == filter_key then s.page else 0

-- `setPage` of the render for a filter.
abbrev pub set_page : String → ℕ → ListPage
set_page filter_key page = record { filter_key = filter_key; page = page }

zero_either : (b : Bool) → ◌≡◌ {A = ℕ} (if b then 0 else 0) 0
zero_either true = refl
zero_either false = refl

-- The page that was chosen is shown as long as the filter stays, another filter shows its first
-- page at once, and a render never changes what the next one for the same filter shows.
pub shown_page_lem :
    (key other : String) (page : ℕ) (s : ListPage)
    → (shown_page key (set_page key page) ≡ page)
      × ((key == other) ≡ false → shown_page other (set_page key page) ≡ 0)
      × (shown_page key (render key s) ≡ shown_page key s)
      × ((key == other) ≡ false → shown_page key (render other (set_page key page)) ≡ 0)
unfolding shown_page render
shown_page_lem key other page s =
    (ground (arith, eq_refl key), λ h. rw h refl, rendered, λ h. rw h (zero_either (other == key)))
  where
    rendered : shown_page key (render key s) ≡ shown_page key s
    rendered = elim (Bool-cases (s.filter_key == key)) [
      | inl same ↦ rw same (rw same refl)
      | inr changed ↦ rw changed (zero_either (key == key))
    ]
