-- ===== src/Js/Integers.antt =====
-- Integers over the native numbers, and `Math.round` of a quotient by an even number. The minus zero
-- of JavaScript is not told apart from zero.
use bubllio_crm.Prelude.{
  leb, ◌-◌, if◌then◌else◌, ℕ, zero, suc, ◌+◌, ◌*◌, ◌/◌, ◌≡◌, refl, Bool, true, false,
}

pub data ℤ : Type 0 where
  pos : ℕ → ℤ
  negsuc : ℕ → ℤ

abbrev pub neg_of : ℕ → ℤ
neg_of zero = pos 0
neg_of (suc n) = negsuc n

-- Math.abs
abbrev pub abs : ℤ → ℕ
abs (pos n) = n
abs (negsuc n) = suc n

-- Math.round(x / (2 * half)), which rounds a half up: for x = -m, the magnitude is the ceiling
-- of (m - half) / (2 * half).
abbrev pub round_div : (half : ℕ) → ℤ → ℤ
round_div half (pos n) = pos ((n + half) / (2 * half))
round_div half (negsuc n) = neg_of ((n + half) / (2 * half))

pub abs-neg_of : (n : ℕ) → abs (neg_of n) ≡ n
abs-neg_of zero = refl
abs-neg_of (suc n) = refl

abbrev pub is_negative : ℤ → Bool
is_negative (pos n) = false
is_negative (negsuc n) = true

pub is_negative-round_div :
    (half : ℕ) (x : ℤ) → is_negative x ≡ false → is_negative (round_div half x) ≡ false
is_negative-round_div half (pos n) h = refl
is_negative-round_div half (negsuc n) h = absurd (cc h)

abbrev diff : ℕ → ℕ → ℤ
diff a b = if leb b a then pos (a - b) else neg_of (b - a)

-- x - y
abbrev pub minus : ℤ → ℤ → ℤ
minus (pos a) (pos b) = diff a b
minus (pos a) (negsuc b) = pos (a + suc b)
minus (negsuc a) (pos b) = neg_of (suc a + b)
minus (negsuc a) (negsuc b) = diff b a

-- k * x
abbrev pub times : ℕ → ℤ → ℤ
times k (pos n) = pos (k * n)
times k (negsuc n) = neg_of (k * suc n)
