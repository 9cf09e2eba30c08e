-- ===== src/Cases/Clock.antt =====
-- domain/cases/clock.py: business-day and calendar deadlines. A holiday set is a list of dates.
pub mod Days
pub mod Spans
pub mod Deadlines
use human_review_console.Prelude.{
  ℕ, zero, suc, ◌+◌, ◌-◌, Bool, true, false, not, ◌&&◌, Option, none, some, List, [], ◌∷◌, any, ltb,
  leb, eqb, if◌then◌else◌,
}
use human_review_console.Prelude.Int.{ℤ, pos, negsuc, sub_ℕ, neg_ℕ, leb_ℤ}
use human_review_console.Time.{Datetime, before, same_instant, weekday, max_day}
use human_review_console.Errors.{Result, ok, err, value_error, overflow_error, ◌>>=◌}
use human_review_console.Cases.Kernel.{ClockKind, business, calendar, kind_value}
use human_review_console.Cases.Models.{ClockSpec, DeadlineStatus}

abbrev pub Holidays : Type 0
Holidays = List ℕ

-- `day.weekday() < 5 and day not in holidays`
unfoldable pub is_business_day : ℕ → Holidays → Bool
is_business_day day holidays = ltb (weekday day) 5 && not (any (eqb day) holidays)

-- The loop of `add_business_days`. `room` is the number of dates after `day`: stepping past the
-- last date raises OverflowError, which bounds the loop.
unfoldable pub advance : (room day counted n : ℕ) → Holidays → Result ℕ
advance zero day counted n holidays = if ltb counted n then err overflow_error else ok day
advance (suc room) day counted n holidays =
    let rest =
      advance room (day + 1) (if is_business_day (day + 1) holidays then counted + 1 else counted) n
        holidays in
    if ltb counted n then rest else ok day

-- `datetime.combine(day, start.timetz())`
abbrev pub at_time_of : Datetime → ℕ → Datetime
at_time_of start day = record { day = day; time = start.time }

unfoldable pub add_business_days : Datetime → ℤ → Holidays → Result Datetime
unfolding advance
add_business_days start (negsuc n) holidays = err value_error
add_business_days start (pos n) holidays = do
  day ← advance (max_day - start.day) start.day 0 n holidays
  ok (at_time_of start day)

-- The loop of `business_days_between`: `rounds` dates are left before the later one.
unfoldable pub count_days : (rounds day count : ℕ) → Holidays → ℕ
count_days zero day count holidays = count
count_days (suc rounds) day count holidays =
    count_days rounds (day + 1) (if is_business_day (day + 1) holidays then count + 1 else count)
      holidays

unfoldable pub business_days_between : Datetime → Datetime → Holidays → ℤ
business_days_between start end holidays =
    if same_instant end start
    then pos 0
    else if before start end
    then pos (count_days (end.day - start.day) start.day 0 holidays)
    else neg_ℕ (count_days (start.day - end.day) end.day 0 holidays)

-- `start + timedelta(days=n)`: a date outside the calendar raises OverflowError.
unfoldable pub add_calendar_days : Datetime → ℤ → Result Datetime
add_calendar_days start (pos n) =
    if leb (start.day + n) max_day
    then ok (at_time_of start (start.day + n))
    else err overflow_error
add_calendar_days start (negsuc n) =
    if ltb (suc n) start.day then ok (at_time_of start (start.day - suc n)) else err overflow_error

unfoldable pub calendar_days_between : Datetime → Datetime → ℤ
calendar_days_between start end = sub_ℕ end.day start.day

-- Python's floats, as far as the warning threshold uses them: `math.ceil((1.0 - r) * d)`.
pub record Floats : Type 1 where
  pub Float : Type 0
  pub one : Float
  pub subtract : Float → Float → Float
  pub multiply : Float → Float → Float
  pub of_int : ℤ → Float
  pub ceil : Float → ℤ

-- The due date and the days that remain, by the kind of the clock.
unfoldable pub due_and_remaining :
    ClockKind → ℤ → Datetime → Datetime → Holidays → Result (Datetime × ℤ)
due_and_remaining business duration_days anchor as_of holidays = do
  due_at ← add_business_days anchor duration_days holidays
  ok (due_at, business_days_between as_of due_at holidays)
due_and_remaining calendar duration_days anchor as_of holidays = do
  due_at ← add_calendar_days anchor duration_days
  ok (due_at, calendar_days_between as_of due_at)

module _ (floats : Floats) where
  open floats use {Float, one, subtract, multiply, of_int, ceil}

  unfoldable pub warn_threshold : ClockSpec Float → ℤ
  warn_threshold spec = ceil (multiply (subtract one spec.warn_ratio) (of_int spec.duration_days))

  unfoldable pub deadline_for :
      ClockSpec Float → Option Datetime → Datetime → Holidays → Result DeadlineStatus
  deadline_for spec none as_of holidays = ok (record {
    clock = spec.name;
    kind = kind_value spec.kind;
    due_at = none;
    remaining_days = spec.duration_days;
    breached = false;
    approaching = false;
  })
  deadline_for spec (some anchor) as_of holidays = do
    (due_at, remaining) ← due_and_remaining spec.kind spec.duration_days anchor as_of holidays
    let breached = before due_at as_of
    ok (record {
      clock = spec.name;
      kind = kind_value spec.kind;
      due_at = some due_at;
      remaining_days = remaining;
      breached = breached;
      approaching = not breached && leb_ℤ remaining (warn_threshold spec);
    })
