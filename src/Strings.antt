-- ===== src/Strings.antt =====
-- Python's string methods, as the code uses them: `split`, `strip`, `endswith`, `join` and `in`.
-- `lower` is a parameter wherever it is used: it reads Unicode's tables.
pub mod Words
use Prim.Native.Char.{Char, code}
use Prim.Native.String.{◌++◌ as text_append}
use human_review_console.Prelude.{
  ℕ, String, Bool, true, false, ◌&&◌, ◌||◌, not, List, [], ◌∷◌, ◌==◌, leb, eqb, if◌then◌else◌,
}

-- `c.isspace()`
abbrev pub is_space : Char → Bool
is_space c =
    let n = code c in
    (leb 9 n && leb n 13)
    || (leb 28 n && leb n 32)
    || eqb n 133
    || eqb n 160
    || eqb n 5760
    || (leb 8192 n && leb n 8202)
    || eqb n 8232
    || eqb n 8233
    || eqb n 8239
    || eqb n 8287
    || eqb n 12288

-- The character is an asterisk.
abbrev pub is_star : Char → Bool
is_star c = eqb (code c) b'*'

-- `"*" in s`
abbrev pub has_star : String → Bool
has_star String.[] = false
has_star (String.◌∷◌ c s) = is_star c || has_star s

-- `s.endswith(suffix)`
abbrev pub ends_with : String → String → Bool
ends_with String.[] suffix = "" == suffix
ends_with (String.◌∷◌ c s) suffix = String.◌∷◌ c s == suffix || ends_with s suffix

-- `s.lstrip()`
abbrev pub strip_left : String → String
strip_left String.[] = ""
strip_left (String.◌∷◌ c s) = let rest = strip_left s in if is_space c then rest else String.◌∷◌ c s

-- `s.rstrip()`
abbrev pub strip_right : String → String
strip_right String.[] = ""
strip_right (String.◌∷◌ c s) =
    let rest = strip_right s in if is_space c && rest == "" then "" else String.◌∷◌ c rest

unfoldable pub strip : String → String
strip s = strip_right (strip_left s)

-- A word is kept if it is not empty.
abbrev pub push : String → List String → List String
push w words = if w == "" then words else w ∷ words

-- The word at the start of a text, and the words after it.
abbrev pub scan : String → String × List String
scan String.[] = ("", [])
scan (String.◌∷◌ c s) =
    let (w, words) = scan s in if is_space c then ("", push w words) else (String.◌∷◌ c w, words)

-- `s.split()`
unfoldable pub split : String → List String
split s = push (scan s).0 (scan s).1

abbrev scan_comma : String → String × List String
scan_comma String.[] = ("", [])
scan_comma (String.◌∷◌ c s) =
    let (w, words) = scan_comma s in
    if eqb (code c) b',' then ("", w ∷ words) else (String.◌∷◌ c w, words)

-- `s.split(",")`
unfoldable pub split_commas : String → List String
split_commas s = (scan_comma s).0 ∷ (scan_comma s).1

-- `separator.join(texts)`
abbrev pub join : String → List String → String
join separator [] = ""
join separator (t ∷ []) = t
join separator (t ∷ u ∷ rest) = text_append t (text_append separator (join separator (u ∷ rest)))
