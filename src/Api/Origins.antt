-- ===== src/Api/Origins.antt =====
-- The origin policies of api/app.py: `_refuse_wildcard`, `_cors_origins`, `_frame_ancestors`. The
-- shared kit's `cors_allowlist` is an argument.
use human_review_console.Prelude.{
  String, Bool, false, not, ◌||◌, ◌≡◌, refl, ◌∙◌, List, [], ◌∷◌, ◌==◌, any, keep, map, elem, arith,
  Bool-cases, inl, inr, if◌then◌else◌,
}
use human_review_console.Errors.{Result, ok, err, value_error, bind_ok, ◌>>=◌}
use human_review_console.Strings.{has_star, strip, split, split_commas, join}
use human_review_console.Strings.Words.{split-IsWord, split-join, star-split}
use human_review_console.Config.{Setting, unset, emptied, given}

abbrev pub wildcard_tokens : List String
wildcard_tokens = "*" ∷ "'*'" ∷ "null" ∷ "*.*" ∷ []

-- `"*" in origin or origin in _WILDCARD_TOKENS`
abbrev pub is_wildcard : String → Bool
is_wildcard origin = has_star origin || elem origin wildcard_tokens

-- `_refuse_wildcard`
unfoldable pub refuse_wildcard : List String → Result (Unit {0})
refuse_wildcard origins = if any is_wildcard origins then err value_error else ok tt

-- `setting.value`: what is stripped of an unset variable is empty.
abbrev pub value_of : Setting → String
value_of (given value) = value
value_of unset = ""
value_of emptied = ""

-- `_cors_origins`
unfoldable pub cors_origins :
    (String → Result (List String)) → Setting → String → Result (List String)
unfolding refuse_wildcard
cors_origins cors_allowlist configured exposure = do
  _ ←
      refuse_wildcard
        (keep (λ origin. not (origin == "")) (map strip (split_commas (value_of configured))))
  cors_allowlist exposure

-- `_frame_ancestors`
unfoldable pub frame_ancestors : Setting → Result String
unfolding refuse_wildcard
frame_ancestors unset = ok "'self'"
frame_ancestors emptied = err value_error
frame_ancestors (given value) =
    let ancestors = join " " (split value) in
    if ancestors == ""
    then err value_error
    else (refuse_wildcard (split ancestors) >>= λ _. ok ancestors)

-- What the header may carry: some origin, with no asterisk in any and no wildcard among them.
abbrev pub IsExactPolicy : String → Type 0
IsExactPolicy ancestors =
    ((ancestors == "") ≡ false)
    × (has_star ancestors ≡ false)
    × (any is_wildcard (split ancestors) ≡ false)

refuse_wildcard_lem :
    (origins : List String) (u : Unit {0})
    → refuse_wildcard origins ≡ ok u
    → any is_wildcard origins ≡ false
unfolding refuse_wildcard
refuse_wildcard_lem origins u h = elim (Bool-cases (any is_wildcard origins)) [
  | inl refused ↦ cc (rw refused at h)
  | inr exact ↦ exact
]

any_star : (origins : List String) → any is_wildcard origins ≡ false → any has_star origins ≡ false
any_star [] h = refl
any_star (o ∷ rest) h = ground (arith, any_star rest)

-- A frame policy that is accepted is not empty, has no asterisk and no wildcard among its words,
-- and the same variable set to the policy gives it again.
pub frame_ancestors-IsExactPolicy :
    (setting : Setting) (ancestors : String)
    → frame_ancestors setting ≡ ok ancestors
    → IsExactPolicy ancestors × (frame_ancestors (given ancestors) ≡ ok ancestors)
unfolding frame_ancestors
frame_ancestors-IsExactPolicy emptied ancestors h = cc h
frame_ancestors-IsExactPolicy unset ancestors h =
    let same : "'self'" ≡ ancestors = cc h in rw (← same) ((refl, refl, self_exact), self_again)
  where
    self_exact : any is_wildcard (split "'self'") ≡ false
    self_exact = unfold split in refl

    self_again : frame_ancestors (given "'self'") ≡ ok "'self'"
    self_again = unfold split in refl
frame_ancestors-IsExactPolicy (given value) ancestors h =
    let words = split value in
    let normal : split (join " " words) ≡ words = split-join words (split-IsWord value) in
    elim (Bool-cases (join " " words == "")) [
      | inl empty ↦ cc (rw empty at h)
      | inr full ↦
          let (u, passed, made) =
            bind_ok (refuse_wildcard (split (join " " words))) (λ _. ok (join " " words))
              (rw full at h) in
          let same : join " " words ≡ ancestors = cc made in
          let exact = refuse_wildcard_lem (split (join " " words)) u passed in
          rw (← same) (
            (full, star-split (join " " words) ∙ any_star (split (join " " words)) exact, exact),
            rw normal (rw full (rw normal (rw (rw normal at passed) refl))),
          )
    ]
