-- ===== src/Config/Callers.antt =====
-- `iap_service_callers` of config.py: the machine callers that may submit behind the proxy edge.
-- `json.loads` and `str.lower` are arguments.
use human_review_console.Prelude.{
  String, Bool, true, false, not, ◌||◌, ◌≡◌, ◌≢◌, sym, List, [], ◌∷◌, ◌==◌, elem, All, arith,
  Bool-cases, inl, inr, if◌then◌else◌,
}
use human_review_console.Errors.{Result, ok, err, value_error, configured_empty}
use human_review_console.Json.{Json, null, bool, int, float, str, arr, obj, Items, nil, cons}
use human_review_console.Strings.{has_star, strip, ends_with}
use human_review_console.Config.{Setting, unset, emptied, given}

abbrev pub service_account_suffix : String
service_account_suffix = ".gserviceaccount.com"

-- `callers.add(address)`
abbrev pub add_caller : String → List String → List String
add_caller address callers = if elem address callers then callers else address ∷ callers

-- `not address or "*" in address or not address.endswith(_SERVICE_ACCOUNT_SUFFIX)`
unfoldable pub is_refused_caller : String → Bool
is_refused_caller address =
    address == "" || has_star address || not (ends_with address service_account_suffix)

module _ {Float : Type 0} (loads : String → Result (Json Float)) (lower : String → String) where
  -- `entry.strip().lower() if isinstance(entry, str) else ""`
  abbrev pub address_of : Json Float → String
  address_of (str s) = lower (strip s)
  address_of _ = ""

  -- The loop over the entries.
  unfoldable pub add_callers : Items Float → List String → Result (List String)
  unfolding is_refused_caller
  add_callers nil callers = ok callers
  add_callers (cons entry rest) callers =
      let more = add_callers rest (add_caller (address_of entry) callers) in
      if is_refused_caller (address_of entry) then err value_error else more

  -- `if not isinstance(parsed, list) or not parsed`
  unfoldable pub callers_of : Json Float → Result (List String)
  unfolding add_callers
  callers_of (arr nil) = err value_error
  callers_of (arr (cons entry rest)) = add_callers (cons entry rest) []
  callers_of _ = err value_error

  unfoldable pub iap_service_callers : Setting → Result (List String)
  unfolding callers_of
  iap_service_callers emptied = err (configured_empty "REVIEW_IAP_SERVICE_CALLERS_JSON")
  iap_service_callers unset = ok []
  iap_service_callers (given value) = elim (loads value) [
    | err e ↦ err value_error
    | ok parsed ↦ callers_of parsed
  ]

  -- An address of a service account, spelled out.
  abbrev pub IsExact : String → Type 0
  IsExact address =
      ((address == "") ≡ false)
      × (has_star address ≡ false)
      × (ends_with address service_account_suffix ≡ true)

  exact_lem : (address : String) → is_refused_caller address ≡ false → IsExact address
  unfolding is_refused_caller
  exact_lem address h = ground arith

  add_caller-IsExact :
      (address : String) (callers : List String)
      → IsExact address
      → All IsExact callers
      → All IsExact (add_caller address callers)
  add_caller-IsExact address callers h all = elim (Bool-cases (elem address callers)) [
    | inl there ↦ rw there all
    | inr absent ↦ rw absent (h, all)
  ]

  add_callers-IsExact :
      (items : Items Float) (callers out : List String)
      → All IsExact callers
      → add_callers items callers ≡ ok out
      → All IsExact out
  unfolding add_callers
  add_callers-IsExact nil callers out all h = subst_ok callers out all h
    where
      subst_ok :
          (a b : List String)
          → All IsExact a
          → ◌≡◌ {A = Result (List String)} (ok a) (ok b)
          → All IsExact b
      subst_ok a b all e = let same : a ≡ b = cc e in rw (← same) all
  add_callers-IsExact (cons entry rest) callers out all h =
      elim (Bool-cases (is_refused_caller (address_of entry))) [
        | inl refused ↦ cc (rw refused at h)
        | inr exact ↦
            add_callers-IsExact rest (add_caller (address_of entry) callers) out
              (add_caller-IsExact (address_of entry) callers (exact_lem (address_of entry) exact)
                all)
              (rw exact at h)
      ]

  -- Every caller of an allowlist that is read is the exact address of a service account: it is not
  -- empty, has no asterisk, and ends in the suffix; an unset variable admits no caller, and an
  -- emptied one is refused.
  pub iap_service_callers-IsExact :
      (setting : Setting) (callers : List String)
      → iap_service_callers setting ≡ ok callers
      → All IsExact callers × (setting ≡ unset → callers ≡ []) × (setting ≢ emptied)
  unfolding iap_service_callers
  iap_service_callers-IsExact emptied callers h = cc h
  iap_service_callers-IsExact unset callers h =
      let none_named : [] ≡ callers = cc h in
      (rw (← none_named) tt, (λ u. sym none_named), (λ e. cc e))
  iap_service_callers-IsExact (given value) callers h = go (loads value) h
    where
      go :
          (r : Result (Json Float))
          → (elim r as (λ _. Result (List String)) [
            | err e ↦ err value_error
            | ok parsed ↦ callers_of parsed
          ])
            ≡ ok callers
          → All IsExact callers × (given value ≡ unset → callers ≡ []) × (given value ≢ emptied)
      go (err e) k = cc k
      go (ok (arr (cons entry rest))) k =
          (add_callers-IsExact (cons entry rest) [] callers tt k, (λ u. cc u), (λ e. cc e))
      go (ok (arr nil)) k = cc k
      go (ok null) k = cc k
      go (ok (bool b)) k = cc k
      go (ok (int n)) k = cc k
      go (ok (float x)) k = cc k
      go (ok (str t)) k = cc k
      go (ok (obj fields)) k = cc k
