-- ===== src/Js/Concat.antt =====
-- Texts that start with the same text: their prefixes and their equality.
use Prim.Native.String
use Prim.Native.String.append
use text.Mathlib.TextLemmas.{append_cancel_left}
use bubllio_crm.Prelude.{String, ◌==◌, ◌≡◌, refl, arith, eq_iff, ap, Bool-cases, inl, inr}
use bubllio_crm.Js.Text.{is_prefix}

pub is_prefix-append :
    (a p q : String) → is_prefix (String.◌++◌ a p) (String.◌++◌ a q) ≡ is_prefix p q
is_prefix-append String.[] p q = rw (append.nil p, append.nil q) refl
is_prefix-append (String.◌∷◌ c a) p q =
    rw (append.cons c a p, append.cons c a q) (ground (arith, is_prefix-append a p q))

pub eq-append : (a p q : String) → (String.◌++◌ a p == String.◌++◌ a q) ≡ (p == q)
eq-append a p q = elim (Bool-cases (p == q)) [
  | inl same ↦
      rw same
        ((eq_iff (String.◌++◌ a p) (String.◌++◌ a q)).1 (ap (String.◌++◌ a) ((eq_iff p q).0 same)))
  | inr other ↦ elim (Bool-cases (String.◌++◌ a p == String.◌++◌ a q)) [
    | inl same ↦ absurd (
        cc (
          (eq_iff p q).1
              (append_cancel_left a p q ((eq_iff (String.◌++◌ a p) (String.◌++◌ a q)).0 same)),
          other,
        ))
    | inr differ ↦ rw (other, differ) refl
  ]
]
