-- ===== src/Time.antt =====
-- Python's `datetime` as the program uses it: an instant, and whether the value carries a timezone.
use agent_rca.Prelude.{ℕ, ◌+◌, Bool, leb}

-- `instant` counts microseconds of UTC since the first instant of year 1, `datetime.min`.
pub record DateTime : Type 0 where
  pub instant : ℕ
  pub aware : Bool

-- `a <= b`, of two values with a timezone
abbrev pub at_most : DateTime → DateTime → Bool
at_most a b = leb a.instant b.instant

-- `t + timedelta`, the duration in microseconds
abbrev pub after : DateTime → ℕ → DateTime
after t d = record { instant = t.instant + d; aware = t.aware }
