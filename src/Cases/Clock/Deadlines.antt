-- ===== src/Cases/Clock/Deadlines.antt =====
-- The status of a clock.
use human_review_console.Prelude.{
  suc, ◌+◌, ◌-◌, ◌≤◌, ◌<◌, ltb, leb, inl, inr, Bool-cases, Option, none, true, false, not, ◌&&◌,
  ◌≡◌, refl, sym, ap, ◌∙◌, some, arith,
}
use human_review_console.Prelude.Int.{ℤ, pos, negsuc, pos_part, neg_part, ◌≤ℤ◌, leb_ℤ}
use human_review_console.Time.{Datetime, before, max_day}
use human_review_console.Errors.{Result, ok, bind_ok, ◌>>=◌}
use human_review_console.Cases.Kernel.{ClockKind, business, calendar}
use human_review_console.Cases.Models.{ClockSpec, DeadlineStatus}
use human_review_console.Cases.Clock.Spans.{add_business_days_counts}
use human_review_console.Cases.Clock.{
  Holidays, is_business_day, add_business_days, business_days_between, add_calendar_days,
  calendar_days_between, due_and_remaining, Floats, warn_threshold, deadline_for,
}

-- The due date of a clock does not depend on the instant at which it is read.
due_date : ClockKind → ℤ → Datetime → Holidays → Result Datetime
due_date business n anchor hs = add_business_days anchor n hs
due_date calendar n anchor hs = add_calendar_days anchor n

days_left : ClockKind → Datetime → Datetime → Holidays → ℤ
days_left business as_of due hs = business_days_between as_of due hs
days_left calendar as_of due hs = calendar_days_between as_of due

due_and_remaining_lem :
    (kind : ClockKind) (n : ℤ) (anchor as_of : Datetime) (hs : Holidays)
    → due_and_remaining kind n anchor as_of hs
      ≡ (due_date kind n anchor hs >>= λ due. ok (due, days_left kind as_of due hs))
unfolding due_and_remaining due_date days_left
due_and_remaining_lem business n anchor as_of hs = refl
due_and_remaining_lem calendar n anchor as_of hs = refl

days_left-overdue :
    (kind : ClockKind) (as_of due : Datetime) (hs : Holidays)
    → before due as_of ≡ true
    → days_left kind as_of due hs ≤ℤ pos 0
unfolding days_left business_days_between calendar_days_between
days_left-overdue business as_of due hs h = ground arith
days_left-overdue calendar as_of due hs h = ground arith

days_left-ahead :
    (kind : ClockKind) (as_of due : Datetime) (hs : Holidays)
    → before due as_of ≡ false
    → pos 0 ≤ℤ days_left kind as_of due hs
unfolding days_left business_days_between calendar_days_between
days_left-ahead business as_of due hs h = ground arith
days_left-ahead calendar as_of due hs h = ground arith

-- A business deadline is as many business days after its start as its duration says, on a business
-- day if those are any; a calendar deadline is as many dates after it.
abbrev pub IsDue : ClockKind → ℤ → Datetime → Datetime → Holidays → Type 0
IsDue business (pos n) anchor due hs =
    (business_days_between anchor due hs ≡ pos n)
    × (due.time ≡ anchor.time)
    × (anchor.day ≤ due.day)
    × (0 < n → is_business_day due.day hs ≡ true)
IsDue business (negsuc n) anchor due hs = ⊥
IsDue calendar n anchor due hs =
    (anchor.day + pos_part n ≡ due.day + neg_part n) × (due.time ≡ anchor.time)

abbrev pub IsLeft : ClockKind → Datetime → Datetime → Holidays → ℤ → Type 0
IsLeft business as_of due hs days = days ≡ business_days_between as_of due hs
IsLeft calendar as_of due hs days = as_of.day + pos_part days ≡ due.day + neg_part days

due_date-IsDue :
    (kind : ClockKind) (n : ℤ) (anchor due : Datetime) (hs : Holidays)
    → due_date kind n anchor hs ≡ ok due
    → IsDue kind n anchor due hs
unfolding due_date add_business_days add_calendar_days
due_date-IsDue business (pos n) anchor due hs h = add_business_days_counts anchor due n hs h
due_date-IsDue business (negsuc n) anchor due hs h = cc h
due_date-IsDue calendar (pos n) anchor due hs h = elim (Bool-cases (leb (anchor.day + n) max_day)) [
  | inl fits ↦
      let day : anchor.day + n ≡ due.day = cc (rw fits at h) in
      let time : anchor.time ≡ due.time = cc (rw fits at h) in (omega arith, sym time)
  | inr over ↦ cc (rw over at h)
]
due_date-IsDue calendar (negsuc n) anchor due hs h = elim (Bool-cases (ltb (suc n) anchor.day)) [
  | inl fits ↦
      let day : anchor.day - suc n ≡ due.day = cc (rw fits at h) in
      let time : anchor.time ≡ due.time = cc (rw fits at h) in (ground arith, sym time)
  | inr under ↦ cc (rw under at h)
]

days_left-IsLeft :
    (kind : ClockKind) (as_of due : Datetime) (hs : Holidays) (days : ℤ)
    → days ≡ days_left kind as_of due hs
    → IsLeft kind as_of due hs days
unfolding days_left calendar_days_between
days_left-IsLeft business as_of due hs days e = e
days_left-IsLeft calendar as_of due hs days e = rw e (ground arith)

module _ (floats : Floats) where
  open floats use {Float, one, subtract, multiply, of_int, ceil}

  -- What a status says of a clock whose start state was entered at the anchor.
  started_status :
      (spec : ClockSpec Float) (anchor as_of : Datetime) (hs : Holidays) (s : DeadlineStatus)
      → deadline_for floats spec (some anchor) as_of hs ≡ ok s
      → (due : Datetime) × (due_date spec.kind spec.duration_days anchor hs ≡ ok due)
        × (s.due_at ≡ some due)
        × (s.breached ≡ before due as_of)
        × (s.remaining_days ≡ days_left spec.kind as_of due hs)
        × (s.approaching
            ≡ (not (before due as_of) && leb_ℤ s.remaining_days (warn_threshold floats spec)))
  unfolding deadline_for
  started_status spec anchor as_of hs s h =
      let ((due, remaining), both, made) =
        bind_ok (due_and_remaining spec.kind spec.duration_days anchor as_of hs) _ h in
      let (due', dated, same) =
        bind_ok (due_date spec.kind spec.duration_days anchor hs)
          (λ due. ok (due, days_left spec.kind as_of due hs))
          (sym (due_and_remaining_lem spec.kind spec.duration_days anchor as_of hs) ∙ both) in
      let due_same : due' ≡ due = cc same in
      let left : remaining ≡ days_left spec.kind as_of due hs = cc (due_same, same) in
      let shown : remaining ≡ s.remaining_days = cc made in
      let raw : (not (before due as_of) && leb_ℤ remaining (warn_threshold floats spec))
          ≡ s.approaching =
        cc made in
      let approach : s.approaching
          ≡ (not (before due as_of) && leb_ℤ s.remaining_days (warn_threshold floats spec)) =
        sym raw
        ∙ ap (λ (r : ℤ). not (before due as_of) && leb_ℤ r (warn_threshold floats spec)) shown in
      (
        due,
        dated ∙ ap (λ (d : Datetime). ok d) due_same,
        cc made,
        cc made,
        cc (made, left),
        approach,
      )

  -- What the status of a clock says, from the instant at which its start state was entered, if it
  -- was. The warning threshold is the ceiling of one minus the ratio, times the duration.
  abbrev pub IsStatus :
      ClockSpec Float → Option Datetime → Datetime → Holidays → DeadlineStatus → Type 0
  IsStatus spec none as_of hs s =
      (s.due_at ≡ none)
      × (s.remaining_days ≡ spec.duration_days)
      × (s.breached ≡ false)
      × (s.approaching ≡ false)
  IsStatus spec (some anchor) as_of hs s =
      (due : Datetime) × (s.due_at ≡ some due)
      × IsDue spec.kind spec.duration_days anchor due hs
      × IsLeft spec.kind as_of due hs s.remaining_days
      × (s.breached ≡ before due as_of)
      × (s.breached ≡ true → (s.approaching ≡ false) × (s.remaining_days ≤ℤ pos 0))
      × (s.breached ≡ false
          → (pos 0 ≤ℤ s.remaining_days)
            × (s.approaching
                ≡ leb_ℤ s.remaining_days
                    (ceil (multiply (subtract one spec.warn_ratio) (of_int spec.duration_days)))))

  -- The status of a clock. One that has not started has no due date, its whole duration left, and
  -- neither is breached nor approaches. Of one that has: a business deadline of n days is n business
  -- days after the start, a calendar deadline n dates after it, both at the time of day of the
  -- start; the days left are the business days, or the dates, up to it; it is breached exactly after
  -- its due date; a breached clock is not approaching and has no day left; any other has no negative
  -- number of days left and is approaching exactly if they are at most the ceiling of one minus the
  -- warning ratio, times the duration.
  pub deadline_status :
      (spec : ClockSpec Float) (start : Option Datetime) (as_of : Datetime) (hs : Holidays)
      (s : DeadlineStatus)
      → deadline_for floats spec start as_of hs ≡ ok s
      → IsStatus spec start as_of hs s
  unfolding deadline_for warn_threshold
  deadline_status spec none as_of hs s h = (cc h, cc h, cc h, cc h)
  deadline_status spec (some anchor) as_of hs s h =
      let (due, dated, shown, late, left, near) = started_status spec anchor as_of hs s h in
      (
        due,
        shown,
        due_date-IsDue spec.kind spec.duration_days anchor due hs dated,
        days_left-IsLeft spec.kind as_of due hs s.remaining_days left,
        late,
        (λ b.
            let over : before due as_of ≡ true = sym late ∙ b in
            (near ∙ rw over refl, rw left (days_left-overdue spec.kind as_of due hs over))),
        (λ b.
            let early : before due as_of ≡ false = sym late ∙ b in
            (rw left (days_left-ahead spec.kind as_of due hs early), near ∙ rw early refl)),
      )

  -- A breach is permanent: of two readings of a started clock that return, if the earlier is
  -- breached then the later has the same due date and is breached.
  pub breach_is_permanent :
      (spec : ClockSpec Float) (anchor t u : Datetime) (hs : Holidays) (s r : DeadlineStatus)
      → before u t ≡ false
      → deadline_for floats spec (some anchor) t hs ≡ ok s
      → deadline_for floats spec (some anchor) u hs ≡ ok r
      → s.breached ≡ true
      → (r.breached ≡ true) × (r.due_at ≡ s.due_at)
  breach_is_permanent spec anchor t u hs s r order hs_t hs_u b =
      let (due, dated, shown, late, left, near) = started_status spec anchor t hs s hs_t in
      let (due', dated', shown', late', left', near') = started_status spec anchor u hs r hs_u in
      let same : due ≡ due' = cc (sym dated ∙ dated') in
      let over : before due t ≡ true = sym late ∙ b in
      let still : before due u ≡ true = ground arith in
      (
        late' ∙ ap (λ (d : Datetime). before d u) (sym same) ∙ still,
        shown' ∙ ap (λ (d : Datetime). some d) (sym same) ∙ sym shown,
      )
