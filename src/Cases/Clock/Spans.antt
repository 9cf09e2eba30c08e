-- ===== src/Cases/Clock/Spans.antt =====
-- Adding business days and counting them between two instants.
use human_review_console.Prelude.{
  ℕ, ◌+◌, ◌-◌, ◌*◌, ◌≤◌, ◌<◌, true, false, ◌≡◌, refl, sym, ap, subst, ◌∙◌, inl, inr, length, arith,
  Bool-cases,
}
use human_review_console.Prelude.Int.{pos, pos_part, neg_part}
use human_review_console.Time.{Datetime, before, same_instant, max_day}
use human_review_console.Errors.{ok, bind_ok}
use human_review_console.Cases.Clock.{
  Holidays, is_business_day, advance, at_time_of, add_business_days, business_days_between,
}
use human_review_console.Cases.Clock.Days.{
  business_in, count_days-business_in, advance-counts, advance_total, business_in-add,
  business_in-enough,
}

-- From an instant to one that is not before it, the count is that of the dates between.
pub between_forward :
    (a b : Datetime) (hs : Holidays)
    → before b a ≡ false
    → business_days_between a b hs ≡ pos (business_in (b.day - a.day) a.day hs)
unfolding business_days_between
between_forward a b hs h = elim (Bool-cases (same_instant b a)) [
  | inl same ↦ rw same (
      let none_left : b.day - a.day ≡ 0 = ground arith in unfold business_in in (rw none_left refl))
  | inr apart ↦ rw apart (
      let ahead : before a b ≡ true = ground arith in
      rw ahead (ground (arith, count_days-business_in (b.day - a.day) a.day 0 hs)))
]

-- A deadline of n business days that is in the calendar is n business days after its start, at
-- the time of day of the start, not before it, and on a business day if n is positive.
pub add_business_days_counts :
    (start due : Datetime) (n : ℕ) (hs : Holidays)
    → add_business_days start (pos n) hs ≡ ok due
    → (business_days_between start due hs ≡ pos n)
      × (due.time ≡ start.time)
      × (start.day ≤ due.day)
      × (0 < n → is_business_day due.day hs ≡ true)
unfolding add_business_days
add_business_days_counts start due n hs h =
    let (d, ran, made) =
      bind_ok (advance (max_day - start.day) start.day 0 n hs) (λ day. ok (at_time_of start day))
        h in
    let (k, there, fits, total, lands) =
      advance-counts (max_day - start.day) start.day 0 n hs ran (omega arith) in
    let day : d ≡ due.day = cc made in
    let time : start.time ≡ due.time = cc made in
    let span : due.day - start.day ≡ k = omega arith in
    (
      between_forward start due hs (ground arith)
          ∙ ap (λ (x : ℕ). pos x) (ap (λ (x : ℕ). business_in x start.day hs) span ∙ omega arith),
      sym time,
      omega arith,
      λ more. subst (λ (x : ℕ). is_business_day x hs ≡ true) day (lands more),
    )

-- If three dates for each business day asked for and each holiday are left in the calendar, the
-- deadline is computed: the loop ends and does not overflow.
pub add_business_days_total :
    (start : Datetime) (n : ℕ) (hs : Holidays)
    → 3 * (n + length hs) ≤ max_day - start.day
    → (due : Datetime) × (add_business_days start (pos n) hs ≡ ok due)
unfolding add_business_days
add_business_days_total start n hs h =
    let (d, ran) =
      advance_total (max_day - start.day) start.day 0 n hs
        (omega (arith, business_in-enough (max_day - start.day) start.day n hs)) in
    (at_time_of start d, rw ran refl)

-- The count of business days changes its sign with the direction: the positive part of one is
-- the negative part of the other.
pub between_antisymm :
    (a b : Datetime) (hs : Holidays)
    → (pos_part (business_days_between b a hs) ≡ neg_part (business_days_between a b hs))
      × (neg_part (business_days_between b a hs) ≡ pos_part (business_days_between a b hs))
unfolding business_days_between
between_antisymm a b hs = (ground arith, ground arith)

-- Counts of business days add up along three instants in order.
pub between_add :
    (a b c : Datetime) (hs : Holidays) (x y : ℕ)
    → before b a ≡ false
    → before c b ≡ false
    → business_days_between a b hs ≡ pos x
    → business_days_between b c hs ≡ pos y
    → business_days_between a c hs ≡ pos (x + y)
between_add a b c hs x y ab bc hx hy =
    let ac : before c a ≡ false = ground arith in
    let ab_le : a.day ≤ b.day = ground arith in
    let bc_le : b.day ≤ c.day = ground arith in
    let hx' : business_in (b.day - a.day) a.day hs ≡ x =
      cc (sym (between_forward a b hs ab) ∙ hx) in
    let hy' : business_in (c.day - b.day) b.day hs ≡ y =
      cc (sym (between_forward b c hs bc) ∙ hy) in
    let middle : a.day + (b.day - a.day) ≡ b.day = omega arith in
    let whole : c.day - a.day ≡ (b.day - a.day) + (c.day - b.day) = omega arith in
    between_forward a c hs ac
    ∙ ap (λ (k : ℕ). pos (business_in k a.day hs)) whole
    ∙ ap (λ (k : ℕ). pos k)
        (business_in-add (b.day - a.day) (c.day - b.day) a.day hs
          ∙ omega (arith, ap (λ (d : ℕ). business_in (c.day - b.day) d hs) middle))
