-- ===== src/Identity/Gcp.antt =====
-- adapters/gcp/identity.py: the principal that an IAP assertion names. The choice of the header,
-- the algorithm pin, the verification of the token and the check of the claim set are the service
-- kit's and the cloud library's; `json.loads`, `str`, `bool` and `str.lower` are arguments too.
pub mod Reviewed
use Prim.Native.String.{◌++◌ as text_append}
use human_review_console.Prelude.{
  String, Bool, true, false, not, ◌&&◌, ◌||◌, Option, none, some, List, [], ◌∷◌, ◌==◌, elem, map,
  keep, if◌then◌else◌,
}
use human_review_console.Errors.{
  Error, Result, ok, err, identity_error, audience_unconfigured, ◌>>=◌,
}
use human_review_console.Json.{
  Json, null, bool, int, float, str, arr, obj, Items, nil, cons, Fields, end, field, get_field,
}
use human_review_console.Strings.{strip}
use human_review_console.Identity.{Principal, Headers}

-- What the adapter calls that is not its own.
pub record Kit (Float : Type 0) : Type 0 where
  pub loads : String → Result (Json Float)
  pub to_str : Json Float → String
  pub to_bool : Json Float → Bool
  pub lower : String → String
  pub select_assertion : Headers → Result String
  pub require_pinned_algorithm : String → Result (Unit {0})
  pub verify_token : (assertion audience : String) → Result (Fields Float)
  pub require_claims : Fields Float → (issuer audience : String) → List String → Result (Unit {0})
  pub iap_issuer : String

abbrev pub required_claims : List String
required_claims = "iss" ∷ "sub" ∷ "email" ∷ "exp" ∷ []

-- `dict.fromkeys`: the first of each is kept, in order.
abbrev pub first_of_each : List String → List String
first_of_each [] = []
first_of_each (k ∷ rest) = k ∷ keep (λ j. not (j == k)) (first_of_each rest)

module _ {Float : Type 0} where
  -- Every value of the object is an object.
  abbrev pub all_objects : Fields Float → Bool
  all_objects end = true
  all_objects (field subject (obj entry) rest) = all_objects rest
  all_objects (field subject _ rest) = false

  -- `self._entitlements.get(subject)`
  abbrev pub entitlement_of : Fields Float → String → Option (Fields Float)
  entitlement_of end subject = none
  entitlement_of (field k (obj entry) rest) subject =
      if k == subject then some entry else entitlement_of rest subject
  entitlement_of (field k _ rest) subject = entitlement_of rest subject

  -- `all(isinstance(group, str) and group.strip() for group in groups)`, and the stripped groups.
  abbrev pub group_names : Items Float → Option (List String)
  group_names nil = some []
  group_names (cons (str g) rest) = elim (group_names rest) [
    | none ↦ none
    | some names ↦ if strip g == "" then none else some (strip g ∷ names)
  ]
  group_names (cons _ rest) = none

  -- The groups of an entitlement, if they are a list of names.
  abbrev pub groups_of : Json Float → Option (List String)
  groups_of (arr items) = group_names items
  groups_of _ = none

module _ {Float : Type 0} (kit : Kit Float) (audience : String) where
  open kit use {
    loads, to_str, to_bool, lower, select_assertion, require_pinned_algorithm, verify_token,
    require_claims, iap_issuer,
  }

  -- `_parse_entitlements`
  unfoldable pub parse_entitlements : String → Result (Fields Float)
  parse_entitlements raw = if raw == "" then ok end else elim (loads raw) [
    | ok (obj entries) ↦ if all_objects entries then ok entries else err identity_error
    | _ ↦ err identity_error
  ]

  -- `_select_assertion`
  abbrev pub selected : Headers → Result String
  selected headers =
      elim (select_assertion (map (λ (h : String × String). (lower h.0, h.1)) headers)) [
        | ok assertion ↦ ok assertion
        | err e ↦ err identity_error
      ]

  -- `_require_audience`
  abbrev pub require_audience : Result (Unit {0})
  require_audience = if audience == "" then err audience_unconfigured else ok tt

  -- `_verified_claims`
  unfoldable pub verified_claims : String → Result (Fields Float)
  verified_claims assertion = do
    _ ← require_pinned_algorithm assertion
    claims ← verify_token assertion audience
    _ ← require_claims claims iap_issuer audience required_claims
    ok claims

  -- `str(value or "").strip()`
  abbrev pub text_of : Json Float → String
  text_of value = if to_bool value then strip (to_str value) else ""

  -- `not self._entitlements`
  abbrev pub require_entitlements : Fields Float → Result (Unit {0})
  require_entitlements end = err identity_error
  require_entitlements (field k v rest) = ok tt

  -- What `resolve` makes of a subject's entitlement and of the hosted domain of the claims.
  unfoldable pub principal_of : String → Fields Float → Json Float → Result Principal
  principal_of subject entitlement hd = elim (groups_of (get_field entitlement "principals")) [
    | none ↦ err identity_error
    | some groups ↦
        if text_of (get_field entitlement "tenant") == ""
        then err identity_error
        else if not (text_of (get_field entitlement "hosted_domain") == "")
            && not (text_of hd == text_of (get_field entitlement "hosted_domain"))
        then err identity_error
        else ok (record {
          subject = subject;
          principals = first_of_each (text_append "user:" subject ∷ groups);
          tenant = text_of (get_field entitlement "tenant");
          assurance = "iap";
          source = "gcp-iap";
        })
  ]

  -- `resolve`
  unfoldable pub resolve : Fields Float → Headers → Result Principal
  unfolding verified_claims principal_of
  resolve entitlements headers = do
    assertion ← selected headers
    _ ← require_audience
    _ ← require_entitlements entitlements
    claims ← verified_claims assertion
    let subject = strip (to_str (get_field claims "email"))
    elim (entitlement_of entitlements subject) [
      | none ↦ err identity_error
      | some entitlement ↦ principal_of subject entitlement (get_field claims "hd")
    ]

  -- `verify_service_assertion`
  unfoldable pub verify_service_assertion : Headers → Result String
  unfolding verified_claims
  verify_service_assertion headers = do
    _ ← require_audience
    assertion ← selected headers
    claims ← verified_claims assertion
    ok (lower (strip (to_str (get_field claims "email"))))
