-- ===== src/Queries/Laws.antt =====
-- Which queries of a workspace its mutations refresh (the hooks of frontend/src/features/).
use bubllio_crm.Prelude.{
  eq_iff, ◌==◌, String, Bool, true, false, List, ◌∷◌, ◌≡◌, inl, inr, Bool-cases,
}
use bubllio_crm.Queries.{KeyPart, text}

-- `matches key query`: invalidating `key` reaches the query.
module _ {F : Type 0} (matches : List (KeyPart F) → List (KeyPart F) → Bool) where
  module _
      (matches-text : (a b : String) (key query : List (KeyPart F))
        → matches (text a ∷ key) (text b ∷ query) ≡ true
        → (a ≡ b) × (matches key query ≡ true)) where
    apart :
        (a b : String) (key query : List (KeyPart F))
        → (a == b) ≡ false
        → matches (text a ∷ key) (text b ∷ query) ≡ false
    apart a b key query differ = elim (Bool-cases (matches (text a ∷ key) (text b ∷ query))) [
      | inl same ↦ absurd (cc ((eq_iff a b).1 (matches-text a b key query same).0, differ))
      | inr missed ↦ missed
    ]

    under :
        (a : String) (key query : List (KeyPart F))
        → matches key query ≡ false
        → matches (text a ∷ key) (text a ∷ query) ≡ false
    under a key query differ = elim (Bool-cases (matches (text a ∷ key) (text a ∷ query))) [
      | inl same ↦ absurd (cc ((matches-text a a key query same).1, differ))
      | inr missed ↦ missed
    ]

    pub other_part :
        (org a b : String) (key query : List (KeyPart F))
        → (a == b) ≡ false
        → matches
            (text "organizations" ∷ text org ∷ text a ∷ key)
            (text "organizations" ∷ text org ∷ text b ∷ query)
          ≡ false
    other_part org a b key query differ =
        under "organizations" _ _ (under org _ _ (apart a b key query differ))
