-- ===== src/MakerChecker/Policy.antt =====
-- `RoutingPolicy`: the number of approvals it asks for, and its parsing from configuration.
-- `Severity(...)` is the commons' lenient enum lookup, and `int`, `str` and `bool` are Python's
-- conversions of a parsed JSON value: parameters, each with the exception it raises.
use human_review_console.Prelude.{
  String, Bool, true, false, ◌≡◌, ap, ◌∙◌, Option, none, some, [], ◌∷◌, any, arith, if◌then◌else◌,
  Bool-cases, inl, inr,
}
use human_review_console.Prelude.Int.{ℤ, pos, ◌≤ℤ◌, ltb_ℤ}
use human_review_console.Kernel.{Severity, low, medium, high, critical}
use human_review_console.Errors.{Result, ok, err, value_error, bind_ok, ◌>>=◌}
use human_review_console.Json.{Json, null, obj, Fields, end, field, get_field}
use human_review_console.MakerChecker.{RoutingPolicy, routed_approvals, floor_for, default_routing}

-- The policy asks for at least one approval, what was requested, and the floor; and for no more
-- than any number that meets the three.
pub routed_approvals_least :
    (policy : RoutingPolicy) (severity : Severity) (requested : ℤ)
    → let n = routed_approvals policy severity requested in
      (pos 1 ≤ℤ n)
      × (requested ≤ℤ n)
      × (floor_for policy severity ≤ℤ n)
      × ((m : ℤ) → pos 1 ≤ℤ m → requested ≤ℤ m → floor_for policy severity ≤ℤ m → n ≤ℤ m)
unfolding routed_approvals
routed_approvals_least policy severity requested =
    let f = floor_for policy severity in
    (ground arith, ground arith, ground arith, λ m a b c. ground arith)

-- Routing twice asks for what routing once does.
pub routed_approvals_idem :
    (policy : RoutingPolicy) (severity : Severity) (requested : ℤ)
    → routed_approvals policy severity (routed_approvals policy severity requested)
      ≡ routed_approvals policy severity requested
unfolding routed_approvals
routed_approvals_idem policy severity requested = ground arith

abbrev pub is_severity : Severity → Severity → Bool
is_severity low low = true
is_severity medium medium = true
is_severity high high = true
is_severity critical critical = true
is_severity _ _ = false

abbrev pub Floors : Type 0
Floors = Severity → Option ℤ

-- `floors[severity] = count`
abbrev pub set_floor : Severity → ℤ → Floors → Floors
set_floor s n floors t = if is_severity s t then some n else floors t

abbrev pub below_one : Option ℤ → Bool
below_one none = false
below_one (some count) = ltb_ℤ count (pos 1)

-- `any(count < 1 for count in floors.values())`
abbrev pub any_below_one : Floors → Bool
any_below_one floors = any (λ s. below_one (floors s)) (low ∷ medium ∷ high ∷ critical ∷ [])

module _ {Float : Type 0} (to_severity : String → Result Severity) (to_int : Json Float → Result ℤ)
    (to_str : Json Float → String) (to_bool : Json Float → Bool) where
  -- `{Severity(str(k)): int(v) for k, v in floors_raw.items()}`
  unfoldable pub parse_floors : Fields Float → Floors → Result Floors
  parse_floors end floors = ok floors
  parse_floors (field k v rest) floors = do
    severity ← to_severity k
    count ← to_int v
    parse_floors rest (set_floor severity count floors)

  unfoldable pub read_floors : Json Float → Result Floors
  unfolding parse_floors
  read_floors null = ok (default_routing.min_approvals_by_severity)
  read_floors (obj fields) = parse_floors fields (λ s. none)
  read_floors _ = err value_error

  -- `if any(...): raise ValueError`
  unfoldable pub checked_floors : Floors → Result Floors
  checked_floors floors = if any_below_one floors then err value_error else ok floors

  abbrev pub read_enforce_sod : Json Float → Bool
  read_enforce_sod null = default_routing.enforce_sod
  read_enforce_sod v = to_bool v

  unfoldable pub from_mapping : Fields Float → Result RoutingPolicy
  unfolding read_floors checked_floors
  from_mapping raw = do
    parsed ← read_floors (get_field raw "min_approvals_by_severity")
    floors ← checked_floors parsed
    ok (record {
      min_approvals_by_severity = floors;
      enforce_sod = read_enforce_sod (get_field raw "enforce_sod");
      approver_group =
          (if to_bool (get_field raw "approver_group")
            then to_str (get_field raw "approver_group")
            else default_routing.approver_group);
    })

  checked-bounds :
      (floors : Floors)
      → any_below_one floors ≡ false
      → (s : Severity) (n : ℤ) → floors s ≡ some n
      → pos 1 ≤ℤ n
  checked-bounds floors h low n e = ground arith
  checked-bounds floors h medium n e = ground arith
  checked-bounds floors h high n e = ground arith
  checked-bounds floors h critical n e = ground arith

  checked-ok :
      (parsed floors : Floors)
      → checked_floors parsed ≡ ok floors
      → (any_below_one floors ≡ false) × (parsed ≡ floors)
  unfolding checked_floors
  checked-ok parsed floors h = elim (Bool-cases (any_below_one parsed)) [
    | inl bad ↦ cc (rw bad at h)
    | inr good ↦ let same : parsed ≡ floors = cc (rw good at h) in (rw (← same) good, same)
  ]

  floors_of-ok :
      (floors : Floors) (policy : RoutingPolicy) (b : Bool) (g : String)
      → ◌≡◌ {A = Result RoutingPolicy}
          (ok (record { min_approvals_by_severity = floors; enforce_sod = b; approver_group = g }))
          (ok policy)
      → floors ≡ policy.min_approvals_by_severity
  floors_of-ok floors policy b g h = cc

  -- Every floor of a policy that parses is at least 1, whatever the document holds.
  pub from_mapping_floors :
      (raw : Fields Float) (policy : RoutingPolicy) (s : Severity) (n : ℤ)
      → from_mapping raw ≡ ok policy
      → policy.min_approvals_by_severity s ≡ some n
      → pos 1 ≤ℤ n
  unfolding from_mapping
  from_mapping_floors raw policy s n h e =
      let (parsed, p, rest) =
        bind_ok (read_floors (get_field raw "min_approvals_by_severity")) _ h in
      let (floors, q, built) = bind_ok (checked_floors parsed) _ rest in
      let (bounded, same) = checked-ok parsed floors q in
      checked-bounds floors bounded s n
        (ap (λ (t : Severity → Option ℤ). t s) (floors_of-ok floors policy _ _ built) ∙ e)

  -- A document that names no setting gives the default policy, if `bool(None)` is False.
  pub from_mapping_default : to_bool null ≡ false → from_mapping end ≡ ok default_routing
  unfolding from_mapping
  from_mapping_default h = rw h
