-- ===== src/Time.antt =====
-- Instants and dates (Python's `datetime` and `date`, every instant in UTC).
-- A date is its proleptic Gregorian ordinal, 1 for 0001-01-01 (`date.toordinal`); an instant is a
-- date and the microseconds since midnight. Arithmetic past the last date raises OverflowError.
use human_review_console.Prelude.{ℕ, ◌+◌, ◌%◌, ◌&&◌, ◌||◌, Bool, ltb, eqb}

pub record Datetime : Type 0 where
  pub day : ℕ
  pub time : ℕ

-- `date.max.toordinal()`, for 9999-12-31.
abbrev pub max_day : ℕ
max_day = 3652059

-- `a < b` on instants; Python's `a > b` is `before b a`.
abbrev pub before : Datetime → Datetime → Bool
before a b = ltb a.day b.day || (eqb a.day b.day && ltb a.time b.time)

abbrev pub same_instant : Datetime → Datetime → Bool
same_instant a b = eqb a.day b.day && eqb a.time b.time

-- `date.weekday()`: 0 is Monday. Ordinal 1 was a Monday.
abbrev pub weekday : ℕ → ℕ
weekday day = (day + 6) % 7
