-- ===== src/Cases/Clock/Days.antt =====
-- Business days in a span of dates: the loops of the clock against a plain count.
use native.Mathlib.Nat.{zero-add, add-zero, suc-add}
use human_review_console.Prelude.{
  ℕ, zero, suc, ◌+◌, ◌*◌, ◌≤◌, ◌<◌, Bool, true, false, ◌≡◌, refl, sym, ap, subst, ◌∙◌, inl, inr, [],
  ◌∷◌, any, ltb, eqb, length, arith, if◌then◌else◌, Bool-cases,
}
use human_review_console.Time.{weekday}
use human_review_console.Errors.{ok}
use human_review_console.Cases.Clock.{Holidays, is_business_day, advance, count_days}

abbrev pub one_if : Bool → ℕ
one_if b = if b then 1 else 0

-- The number of business days among the k dates after a date.
unfoldable pub business_in : ℕ → ℕ → Holidays → ℕ
business_in zero day hs = 0
business_in (suc k) day hs = one_if (is_business_day (day + 1) hs) + business_in k (day + 1) hs

pub count_days-business_in :
    (k day count : ℕ) (hs : Holidays) → count_days k day count hs ≡ count + business_in k day hs
unfolding count_days business_in
count_days-business_in zero day count hs = omega arith
count_days-business_in (suc k) day count hs = ground (
  arith,
  count_days-business_in k (day + 1) (if is_business_day (day + 1) hs then count + 1 else count) hs,
)

advance-stop :
    (room day counted n : ℕ) (hs : Holidays)
    → ltb counted n ≡ false
    → advance room day counted n hs ≡ ok day
unfolding advance
advance-stop zero day counted n hs h = rw h refl
advance-stop (suc room) day counted n hs h = rw h refl

-- A run of the loop that returns has moved k dates on, over the business days that it had to
-- count, and if it moved at all it stopped on a business day.
pub advance-counts :
    (room day counted n : ℕ) (hs : Holidays) {d : ℕ}
    → advance room day counted n hs ≡ ok d
    → counted ≤ n
    → (k : ℕ) × (d ≡ day + k)
      × (k ≤ room)
      × (counted + business_in k day hs ≡ n)
      × ((moved : counted < n) → is_business_day d hs ≡ true)
unfolding advance business_in
advance-counts zero day counted n hs {d} h le = elim (Bool-cases (ltb counted n)) [
  | inl more ↦ cc (rw more at h)
  | inr done ↦
      let same : day ≡ d = cc (rw done at h) in
      (0, ground arith, omega arith, ground arith, λ m. absurd (ground arith))
]
advance-counts (suc room) day counted n hs {d} h le = elim (Bool-cases (ltb counted n)) [
  | inr done ↦
      let same : day ≡ d = cc (rw done at h) in
      (0, ground arith, omega arith, ground arith, λ m. absurd (ground arith))
  | inl more ↦
      let counted' = if is_business_day (day + 1) hs then counted + 1 else counted in
      let (k, there, fits, total, lands) =
        advance-counts room (day + 1) counted' n hs (rw more at h) (ground arith) in
      (
        suc k,
        omega arith,
        omega arith,
        ground arith,
        λ m. elim (Bool-cases (ltb counted' n)) [
          | inl still ↦ lands (ground arith)
          | inr reached ↦
              let here : day + 1 ≡ d =
                cc (sym (advance-stop room (day + 1) counted' n hs reached) ∙ rw more at h) in
              subst (λ (x : ℕ). is_business_day x hs ≡ true) here (ground arith)
        ],
      )
]

-- The loop raises only if the dates left hold too few business days.
pub advance_total :
    (room day counted n : ℕ) (hs : Holidays)
    → n ≤ counted + business_in room day hs
    → (d : ℕ) × (advance room day counted n hs ≡ ok d)
unfolding advance business_in
advance_total zero day counted n hs h = (day, ground arith)
advance_total (suc room) day counted n hs h = elim (Bool-cases (ltb counted n)) [
  | inr done ↦ (day, rw done refl)
  | inl more ↦
      let (d, e) =
        advance_total room (day + 1) (if is_business_day (day + 1) hs then counted + 1 else counted)
          n hs (ground arith) in
      (d, rw more e)
]

-- Weekdays among the k dates after a date, and the holidays among them.
weekdays_in : ℕ → ℕ → ℕ
weekdays_in zero day = 0
weekdays_in (suc k) day = one_if (ltb (weekday (day + 1)) 5) + weekdays_in k (day + 1)

holidays_in : ℕ → ℕ → Holidays → ℕ
holidays_in zero day hs = 0
holidays_in (suc k) day hs = one_if (any (eqb (day + 1)) hs) + holidays_in k (day + 1) hs

weekdays-le :
    (k day : ℕ) (hs : Holidays) → weekdays_in k day ≤ business_in k day hs + holidays_in k day hs
unfolding weekdays_in business_in holidays_in is_business_day
weekdays-le zero day hs = omega arith
weekdays-le (suc k) day hs = ground (arith, weekdays-le k (day + 1) hs)

triple : ℕ → ℕ
triple zero = zero
triple (suc m) = suc (suc (suc (triple m)))

triple_lem : (m : ℕ) → triple m ≡ 3 * m
unfolding triple
triple_lem zero = omega arith
triple_lem (suc m) = omega (arith, triple_lem m)

-- Of three dates in a row one is a weekday.
weekdays_in-triple : (m day : ℕ) → m ≤ weekdays_in (triple m) day
unfolding weekdays_in triple
weekdays_in-triple zero day = omega arith
weekdays_in-triple (suc m) day = ground (arith, weekdays_in-triple m (day + 1 + 1 + 1))

-- One date occurs at most once in a span, and not at all once it has passed.
passed_holiday : (k day x : ℕ) → x ≤ day → holidays_in k day (x ∷ []) ≡ 0
unfolding holidays_in
passed_holiday zero day x h = refl
passed_holiday (suc k) day x h = ground (arith, passed_holiday k (day + 1) x)

single_holiday : (k day x : ℕ) → holidays_in k day (x ∷ []) ≤ 1
unfolding holidays_in
single_holiday zero day x = omega arith
single_holiday (suc k) day x =
    ground (arith, single_holiday k (day + 1) x, passed_holiday k (day + 1) x)

holidays_in-cons :
    (k day x : ℕ) (hs : Holidays)
    → holidays_in k day (x ∷ hs) ≤ holidays_in k day (x ∷ []) + holidays_in k day hs
unfolding holidays_in
holidays_in-cons zero day x hs = omega arith
holidays_in-cons (suc k) day x hs = ground (arith, holidays_in-cons k (day + 1) x hs)

no_holidays : (k day : ℕ) → holidays_in k day [] ≡ 0
unfolding holidays_in
no_holidays zero day = refl
no_holidays (suc k) day = ground (arith, no_holidays k (day + 1))

holidays_in-le-length : (k day : ℕ) (hs : Holidays) → holidays_in k day hs ≤ length hs
holidays_in-le-length k day [] = omega (arith, no_holidays k day)
holidays_in-le-length k day (x ∷ hs) =
    omega
      (arith, holidays_in-cons k day x hs, single_holiday k day x, holidays_in-le-length k day hs)

business_in_mono :
    (k j day : ℕ) (hs : Holidays) → k ≤ j → business_in k day hs ≤ business_in j day hs
unfolding business_in
business_in_mono zero j day hs h = omega arith
business_in_mono (suc k) zero day hs h = absurd (omega arith)
business_in_mono (suc k) (suc j) day hs h = ground (arith, business_in_mono k j (day + 1) hs)

pub business_in-add :
    (k j day : ℕ) (hs : Holidays)
    → business_in (k + j) day hs ≡ business_in k day hs + business_in j (day + k) hs
unfolding business_in
business_in-add zero j day hs = rw (zero-add, add-zero) (omega arith)
business_in-add (suc k) j day hs =
    let shift : day + 1 + k ≡ day + suc k = omega arith in
    rw suc-add
      (omega (arith, business_in-add k j (day + 1) hs, ap (λ (d : ℕ). business_in j d hs) shift))

-- Three dates for each business day wanted and each holiday are enough.
pub business_in-enough :
    (room day n : ℕ) (hs : Holidays) → 3 * (n + length hs) ≤ room → n ≤ business_in room day hs
business_in-enough room day n hs h =
    let span = triple (n + length hs) in
    omega (
      arith,
      triple_lem (n + length hs),
      weekdays_in-triple (n + length hs) day,
      weekdays-le span day hs,
      holidays_in-le-length span day hs,
      business_in_mono span room day hs (omega (arith, triple_lem (n + length hs))),
    )
