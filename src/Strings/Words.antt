-- ===== src/Strings/Words.antt =====
-- Splitting a text into words and joining them again.
use Prim.Native.Char.{Char}
use Prim.Native.String.{◌++◌ as text_append}
use text.Mathlib.TextLemmas.{cons-ne-nil, append-nil, nil-append, cons-append}
use human_review_console.Prelude.{
  String, Bool, true, false, ◌||◌, ◌≡◌, refl, sym, ap, ◌∙◌, List, [], ◌∷◌, ◌==◌, any, All, eq_iff,
  eq_ne, inl, inr, Bool-cases, arith,
}
use human_review_console.Strings.{is_space, is_star, has_star, push, scan, split, join}

abbrev has_space : String → Bool
has_space String.[] = false
has_space (String.◌∷◌ c s) = is_space c || has_space s

-- A word has a character, and no space.
abbrev pub IsWord : String → Type 0
IsWord w = (has_space w ≡ false) × ((w == "") ≡ false)

cons_not_empty : (c : Char) (s : String) → (String.◌∷◌ c s == "") ≡ false
cons_not_empty c s = eq_ne (String.◌∷◌ c s) "" (cons-ne-nil c s)

push-IsWord :
    (w : String) (words : List String)
    → has_space w ≡ false
    → All IsWord words
    → All IsWord (push w words)
push-IsWord w words h all = elim (Bool-cases (w == "")) [
  | inl empty ↦ rw empty all
  | inr full ↦ rw full ((h, full), all)
]

scan_words : (s : String) → (has_space (scan s).0 ≡ false) × All IsWord (scan s).1
scan_words String.[] = (refl, tt)
scan_words (String.◌∷◌ c s) =
    let (word, words) = scan_words s in
    elim (Bool-cases (is_space c)) [
      | inl space ↦ rw space (refl, push-IsWord (scan s).0 (scan s).1 word words)
      | inr other ↦ rw other (rw (other, word) refl, words)
    ]

pub split-IsWord : (s : String) → All IsWord (split s)
unfolding split
split-IsWord s = push-IsWord (scan s).0 (scan s).1 (scan_words s).0 (scan_words s).1

scan-append :
    (w s : String)
    → has_space w ≡ false
    → scan (text_append w s) ≡ (text_append w (scan s).0, (scan s).1)
scan-append String.[] s h = rw (nil-append s) (rw (nil-append (scan s).0) refl)
scan-append (String.◌∷◌ c w) s h =
    let other : is_space c ≡ false = ground arith in
    let rest : has_space w ≡ false = ground arith in
    rw (cons-append c w s)
      (rw (cons-append c w (scan s).0) (rw (scan-append w s rest) (rw other refl)))

scan-space : (s : String) → scan (text_append " " s) ≡ ("", push (scan s).0 (scan s).1)
scan-space s = ap scan (cons-append " " "" s ∙ ap (λ (t : String). String.◌∷◌ " " t) (nil-append s))

push_full : (w : String) (words : List String) → (w == "") ≡ false → push w words ≡ w ∷ words
push_full w words h = rw h refl

-- Words that are joined by spaces are split again.
pub split-join : (words : List String) → All IsWord words → split (join " " words) ≡ words
unfolding split
split-join [] all = refl
split-join (w ∷ []) ((h, full), all) =
    let whole : scan w ≡ (w, []) =
      ap scan (sym (append-nil w)) ∙ scan-append w "" h ∙ rw append-nil refl in
    rw whole (push_full w [] full)
split-join (w ∷ u ∷ rest) ((h, full), all) =
    let tail = join " " (u ∷ rest) in
    let whole : scan (text_append w (text_append " " tail))
        ≡ (w, push (scan tail).0 (scan tail).1) =
      scan-append w (text_append " " tail) h ∙ rw (scan-space tail) (rw append-nil refl) in
    rw whole (push_full w _ full ∙ ap (λ (l : List String). w ∷ l) (split-join (u ∷ rest) all))

space_no_star : (c : Char) → is_space c ≡ true → is_star c ≡ false
space_no_star c h = ground arith

star_push :
    (w : String) (words : List String)
    → any has_star (push w words) ≡ (has_star w || any has_star words)
star_push w words = elim (Bool-cases (w == "")) [
  | inl empty ↦ rw empty (rw ((eq_iff w "").0 empty) refl)
  | inr full ↦ rw full refl
]

scan_star : (s : String) → has_star s ≡ (has_star (scan s).0 || any has_star (scan s).1)
scan_star String.[] = refl
scan_star (String.◌∷◌ c s) = elim (Bool-cases (is_space c)) [
  | inl space ↦
      rw space (ground (arith, space_no_star c space, scan_star s, star_push (scan s).0 (scan s).1))
  | inr other ↦ rw other (ground (arith, scan_star s))
]

-- A text has an asterisk just if one of its words has.
pub star-split : (s : String) → has_star s ≡ any has_star (split s)
unfolding split
star-split s = scan_star s ∙ sym (star_push (scan s).0 (scan s).1)
