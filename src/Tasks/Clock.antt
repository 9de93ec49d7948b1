-- ===== src/Tasks/Clock.antt =====
-- Points in time, which the code handles through `Date`: a parameter, since parsing a date and the
-- local time zone belong to the host. `before a b` is `a < b`, which is false where one of the two
-- is an invalid date; `end_of_day` is `setHours(24, 0, 0, 0)`.
use bubllio_crm.Prelude.{String, Bool}

pub record Clock : Type 1 where
  pub Time : Type 0
  pub parse : String → Time
  pub before : Time → Time → Bool
  pub end_of_day : Time → Time
