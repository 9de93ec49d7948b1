-- ===== src/Timeline/Relative.antt =====
-- How long ago an event was (`getTimelineRelativeTime`). The difference of the two times in
-- milliseconds is given; `none` is a text that is no date, for which the formatter throws.
-- (frontend/src/features/companies/components/CompanyTimelineFormatters.ts)
use bubllio_crm.Prelude.{
  ℕ, ◌+◌, ◌/◌, ◌≤◌, ◌<◌, Option, none, some, if◌then◌else◌, ◌≡◌, refl, ◌∙◌, ◌*◌, ◌⊎◌, zero, suc,
  arith, ltb, inl, inr, Bool-cases,
}
use bubllio_crm.Js.Integers.{ℤ, pos, negsuc, abs, abs-neg_of, is_negative, round_div, neg_of}

pub data TimeUnit : Type 0 where
  second minute hour day : TimeUnit

-- What is passed to `formatter.format`.
pub record RelativeTime : Type 0 where
  pub amount : ℤ
  pub unit : TimeUnit

abbrev pub relative_hours : ℤ → RelativeTime
relative_hours hours =
    if ltb (abs hours) 24
    then record { amount = hours; unit = hour }
    else record { amount = round_div 12 hours; unit = day }

abbrev pub relative_minutes : ℤ → RelativeTime
relative_minutes minutes =
    if ltb (abs minutes) 60
    then record { amount = minutes; unit = minute }
    else relative_hours (round_div 30 minutes)

abbrev pub relative_seconds : ℤ → RelativeTime
relative_seconds seconds =
    if ltb (abs seconds) 60
    then record { amount = seconds; unit = second }
    else relative_minutes (round_div 30 seconds)

unfoldable pub get_timeline_relative_time : Option ℤ → Option RelativeTime
get_timeline_relative_time none = none
get_timeline_relative_time (some milliseconds) =
    some (relative_seconds (round_div 500 milliseconds))

-- The amounts that a unit is used with: no unit is used where the next larger one fits, and a unit
-- larger than the second is never used with zero.
abbrev pub IsAmount : TimeUnit → ℕ → Type 0
IsAmount second n = n < 60
IsAmount minute n = (1 ≤ n) × (n < 60)
IsAmount hour n = (1 ≤ n) × (n < 24)
IsAmount day n = 1 ≤ n

round_minutes : (x : ℤ) → 60 ≤ abs x → 1 ≤ abs (round_div 30 x)
round_minutes (pos n) h = omega arith
round_minutes (negsuc n) h = omega (arith, abs-neg_of ((n + 30) / 60))

round_days : (x : ℤ) → 24 ≤ abs x → 1 ≤ abs (round_div 12 x)
round_days (pos n) h = omega arith
round_days (negsuc n) h = omega (arith, abs-neg_of ((n + 12) / 24))

abbrev IsWellChosen : RelativeTime → Type 0
IsWellChosen r = IsAmount r.unit (abs r.amount)

hours-IsWellChosen : (x : ℤ) → 1 ≤ abs x → IsWellChosen (relative_hours x)
hours-IsWellChosen x h = elim (Bool-cases (ltb (abs x) 24)) [
  | inl below ↦ rw below (h, ground arith)
  | inr above ↦ rw above (round_days x (ground arith))
]

minutes-IsWellChosen : (x : ℤ) → 1 ≤ abs x → IsWellChosen (relative_minutes x)
minutes-IsWellChosen x h = elim (Bool-cases (ltb (abs x) 60)) [
  | inl below ↦ rw below (h, ground arith)
  | inr above ↦ rw above (hours-IsWellChosen (round_div 30 x) (round_minutes x (ground arith)))
]

seconds-IsWellChosen : (x : ℤ) → IsWellChosen (relative_seconds x)
seconds-IsWellChosen x = elim (Bool-cases (ltb (abs x) 60)) [
  | inl below ↦ rw below (ground arith)
  | inr above ↦ rw above (minutes-IsWellChosen (round_div 30 x) (round_minutes x (ground arith)))
]

-- The milliseconds of a unit, and how far an amount in it may be from the time: half a unit of each
-- rounding on the way.
abbrev pub length_of : TimeUnit → ℕ
length_of second = 1000
length_of minute = 60000
length_of hour = 3600000
length_of day = 86400000

abbrev pub slack_of : TimeUnit → ℕ
slack_of second = 500
slack_of minute = 30500
slack_of hour = 1830500
slack_of day = 45030500

-- A number of units is a number of milliseconds, up to the slack of the unit.
abbrev pub IsNear : TimeUnit → ℕ → ℕ → Type 0
IsNear unit n milliseconds =
    (n * length_of unit ≤ milliseconds + slack_of unit)
    × (milliseconds ≤ n * length_of unit + slack_of unit)

-- The two signs agree, where the first number is not zero.
abbrev pub IsSameSign : ℤ → ℤ → Type 0
IsSameSign a x = (abs a ≡ 0) ⊎ (is_negative a ≡ is_negative x)

abbrev Rounds : (half : ℕ) → ℤ → Type 0
Rounds half x =
    (abs (round_div half x) * (2 * half) ≤ abs x + half)
    × (abs x ≤ abs (round_div half x) * (2 * half) + half)

within_seconds : (x : ℤ) → Rounds 500 x
within_seconds (pos n) = (omega arith, omega arith)
within_seconds (negsuc n) =
    (omega (arith, abs-neg_of ((n + 500) / 1000)), omega (arith, abs-neg_of ((n + 500) / 1000)))

within_sixty : (x : ℤ) → Rounds 30 x
within_sixty (pos n) = (omega arith, omega arith)
within_sixty (negsuc n) =
    (omega (arith, abs-neg_of ((n + 30) / 60)), omega (arith, abs-neg_of ((n + 30) / 60)))

within_days : (x : ℤ) → Rounds 12 x
within_days (pos n) = (omega arith, omega arith)
within_days (negsuc n) =
    (omega (arith, abs-neg_of ((n + 12) / 24)), omega (arith, abs-neg_of ((n + 12) / 24)))

hours-IsNear :
    (x : ℤ) (m : ℕ)
    → IsNear hour (abs x) m
    → IsNear (relative_hours x).unit (abs (relative_hours x).amount) m
hours-IsNear x m (low, high) = elim (Bool-cases (ltb (abs x) 24)) [
  | inl below ↦ rw below (low, high)
  | inr above ↦ let (a, b) = within_days x in rw above (omega arith, omega arith)
]

minutes-IsNear :
    (x : ℤ) (m : ℕ)
    → IsNear minute (abs x) m
    → IsNear (relative_minutes x).unit (abs (relative_minutes x).amount) m
minutes-IsNear x m (low, high) = elim (Bool-cases (ltb (abs x) 60)) [
  | inl below ↦ rw below (low, high)
  | inr above ↦
      let (a, b) = within_sixty x in
      rw above (hours-IsNear (round_div 30 x) m (omega arith, omega arith))
]

seconds-IsNear :
    (x : ℤ) (m : ℕ)
    → IsNear second (abs x) m
    → IsNear (relative_seconds x).unit (abs (relative_seconds x).amount) m
seconds-IsNear x m (low, high) = elim (Bool-cases (ltb (abs x) 60)) [
  | inl below ↦ rw below (low, high)
  | inr above ↦
      let (a, b) = within_sixty x in
      rw above (minutes-IsNear (round_div 30 x) m (omega arith, omega arith))
]

neg_of-IsSameSign : (m n : ℕ) → IsSameSign (neg_of m) (negsuc n)
neg_of-IsSameSign zero n = inl refl
neg_of-IsSameSign (suc m) n = inr refl

round_div-IsSameSign : (half : ℕ) (x : ℤ) → IsSameSign (round_div half x) x
round_div-IsSameSign half (pos n) = inr refl
round_div-IsSameSign half (negsuc n) = neg_of-IsSameSign ((n + half) / (2 * half)) n

IsSameSign-trans : (b a x : ℤ) → 1 ≤ abs a → IsSameSign b a → IsSameSign a x → IsSameSign b x
IsSameSign-trans b a x some_amount (inl zero_amount) h = inl zero_amount
IsSameSign-trans b a x some_amount (inr same) (inl none_left) = absurd (omega arith)
IsSameSign-trans b a x some_amount (inr same) (inr h) = inr (same ∙ h)

hours-IsSameSign : (x y : ℤ) → 1 ≤ abs x → IsSameSign x y → IsSameSign (relative_hours x).amount y
hours-IsSameSign x y some_amount h = elim (Bool-cases (ltb (abs x) 24)) [
  | inl below ↦ rw below h
  | inr above ↦
      rw above (IsSameSign-trans (round_div 12 x) x y some_amount (round_div-IsSameSign 12 x) h)
]

minutes-IsSameSign :
    (x y : ℤ) → 1 ≤ abs x → IsSameSign x y → IsSameSign (relative_minutes x).amount y
minutes-IsSameSign x y some_amount h = elim (Bool-cases (ltb (abs x) 60)) [
  | inl below ↦ rw below h
  | inr above ↦ rw above (
      hours-IsSameSign (round_div 30 x) y (round_minutes x (ground arith))
        (IsSameSign-trans (round_div 30 x) x y some_amount (round_div-IsSameSign 30 x) h))
]

seconds-IsSameSign : (x y : ℤ) → IsSameSign x y → IsSameSign (relative_seconds x).amount y
seconds-IsSameSign x y h = elim (Bool-cases (ltb (abs x) 60)) [
  | inl below ↦ rw below h
  | inr above ↦ rw above (
      minutes-IsSameSign (round_div 30 x) y (round_minutes x (ground arith))
        (IsSameSign-trans (round_div 30 x) x y (ground arith) (round_div-IsSameSign 30 x) h))
]

-- A time that is a date is always told, in seconds below a minute, else in minutes below an hour,
-- else in hours below a day, else in days, and except in seconds never with the amount zero; the
-- amount is the time in that unit, up to half a unit for each rounding on the way; and an amount that
-- is not zero has the sign of the time.
pub get_timeline_relative_time_lem :
    (milliseconds : ℤ)
    → (r : RelativeTime) × (get_timeline_relative_time (some milliseconds) ≡ some r)
      × IsAmount r.unit (abs r.amount)
      × IsNear r.unit (abs r.amount) (abs milliseconds)
      × IsSameSign r.amount milliseconds
unfolding get_timeline_relative_time
get_timeline_relative_time_lem milliseconds =
    let seconds = round_div 500 milliseconds in
    (
      relative_seconds seconds,
      refl,
      seconds-IsWellChosen seconds,
      seconds-IsNear seconds (abs milliseconds) (within_seconds milliseconds),
      seconds-IsSameSign seconds milliseconds (round_div-IsSameSign 500 milliseconds),
    )
