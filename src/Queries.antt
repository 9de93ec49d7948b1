-- ===== src/Queries.antt =====
-- Query keys, and which queries an invalidation reaches. Whether an invalidated key reaches a query's
-- key is TanStack Query's and a parameter.
pub mod Keys
pub mod Subjects
pub mod Laws
use bubllio_crm.Prelude.{
  append-nil, ℕ, String, Bool, true, false, List, [], ◌∷◌, ◌++◌, if◌then◌else◌, ◌≡◌, refl, sym, ap,
  ◌∙◌, arith,
}

-- A part of a query's key: a text, a page number, or the filters of a list.
pub data KeyPart (F : Type 0) : Type 0 where
  text : String → KeyPart F
  number : ℕ → KeyPart F
  filters : F → KeyPart F

-- `matches key query`: invalidating `key` reaches the query.
module _ {F : Type 0} (matches : List (KeyPart F) → List (KeyPart F) → Bool) where
  abbrev pub reaches : List (List (KeyPart F)) → List (KeyPart F) → Bool
  reaches [] query = false
  reaches (key ∷ keys) query =
      let rest = reaches keys query in if matches key query then true else rest

  pub or_later :
      (key query : List (KeyPart F)) (keys : List (List (KeyPart F)))
      → reaches keys query ≡ true
      → reaches (key ∷ keys) query ≡ true
  or_later key query keys h = rw h (ground arith)

  module _ (matches-append : (key rest : List (KeyPart F)) → matches key (key ++ rest) ≡ true) where
    pub first-reaches :
        (keys : List (List (KeyPart F))) (key rest : List (KeyPart F))
        → reaches (key ∷ keys) (key ++ rest) ≡ true
    first-reaches keys key rest = rw (matches-append key rest) refl

    pub self-reaches : (key : List (KeyPart F)) → reaches (key ∷ []) key ≡ true
    self-reaches key = ap (reaches (key ∷ [])) (sym (append-nil key)) ∙ first-reaches [] key []
