-- ===== src/Cases/CloudPorts/Ids.antt =====
-- The ids of the timers' tasks: what `_task_id` of adapters/gcp/timers.py makes.
use Prim.Native.String.{count}
use human_review_console.Prelude.{
  ℕ, zero, suc, ◌≤◌, String, Bool, true, ◌&&◌, ◌≡◌, refl, [], ◌∷◌, arith, Bool-cases, inl, inr,
}
use text.Mathlib.TextLemmas.{length-cons}
use human_review_console.Strings.{join}
use human_review_console.Cases.CloudPorts.{is_task_char, with_dashes, first_chars, task_id}

abbrev pub has_task_chars : String → Bool
has_task_chars String.[] = true
has_task_chars (String.◌∷◌ c s) = is_task_char c && has_task_chars s

with_dashes_safe : (s : String) → has_task_chars (with_dashes s) ≡ true
with_dashes_safe String.[] = refl
with_dashes_safe (String.◌∷◌ c s) = elim (Bool-cases (is_task_char c)) [
  | inl safe ↦ rw safe (rw (safe, with_dashes_safe s) refl)
  | inr other ↦ rw other (rw (with_dashes_safe s) refl)
]

first_chars_safe :
    (n : ℕ) (s : String) → has_task_chars s ≡ true → has_task_chars (first_chars n s) ≡ true
first_chars_safe zero s h = refl
first_chars_safe (suc n) String.[] h = refl
first_chars_safe (suc n) (String.◌∷◌ c s) h =
    let first : is_task_char c ≡ true = ground arith in
    let rest : has_task_chars s ≡ true = ground arith in rw (first, first_chars_safe n s rest) refl

count-first_chars : (n : ℕ) (s : String) → count (first_chars n s) ≤ n
count-first_chars zero s = omega arith
count-first_chars (suc n) String.[] = omega arith
count-first_chars (suc n) (String.◌∷◌ c s) =
    omega (arith, count-first_chars n s, length-cons c (first_chars n s))

-- Cloud Tasks admits the id of any timer.
pub task_id-IsSafe :
    (tenant case_id clock : String)
    → (count (task_id tenant case_id clock) ≤ 500)
      × (has_task_chars (task_id tenant case_id clock) ≡ true)
unfolding task_id
task_id-IsSafe tenant case_id clock =
    let raw = join "" (tenant ∷ "--" ∷ case_id ∷ "--" ∷ clock ∷ []) in
    (
      count-first_chars 500 (with_dashes raw),
      first_chars_safe 500 (with_dashes raw) (with_dashes_safe raw),
    )
