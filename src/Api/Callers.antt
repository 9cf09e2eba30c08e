-- ===== src/Api/Callers.antt =====
-- `get_principal`, `_require_iap_machine_caller` and `require_service_caller` of api/app.py. The
-- shared-secret check is the service kit's, an argument.
use human_review_console.Prelude.{
  String, true, false, not, ◌≡◌, refl, sym, ◌∙◌, ap, subst, Option, none, some, List, [], ◌∷◌, ◌==◌,
  elem, All, eq_iff, Bool-cases, inl, inr, if◌then◌else◌,
}
use human_review_console.Errors.{
  Error, Result, ok, err, identity_error, audience_unconfigured, auth_unavailable, http_error,
  bind_ok, ◌>>=◌,
}
use human_review_console.Json.{Json, Fields, get_field}
use human_review_console.Strings.{strip}
use human_review_console.Config.{Setting, ProfileChoice, service_auth_configured, iap_edge_profiles}
use human_review_console.Config.Callers.{iap_service_callers, IsExact, iap_service_callers-IsExact}
use human_review_console.Identity.{Principal, Headers}
use human_review_console.Identity.Gcp.Reviewed.{IsVerified, verified_claims-IsVerified}
use human_review_console.Identity.Gcp.{
  Kit, selected, verified_claims, require_audience, verify_service_assertion,
}

-- The `except` clauses of `get_principal`. An AudienceUnconfiguredError is an IdentityError.
abbrev pub principal_error : Error → Error
principal_error (auth_unavailable http_status) = http_error http_status
principal_error identity_error = http_error 401
principal_error audience_unconfigured = http_error 401
principal_error e = e

-- `get_principal`, from what the adapter's construction and `resolve` give.
unfoldable pub get_principal : Result Principal → Result Principal
get_principal (ok principal) = ok principal
get_principal (err e) = err (principal_error e)

-- `personas`, from the adapter's construction and what its `personas` lists, if it has one. Each
-- error here is an IdentityError.
abbrev pub picker_error : Error → Error
picker_error (auth_unavailable http_status) = http_error 503
picker_error identity_error = http_error 503
picker_error audience_unconfigured = http_error 503
picker_error e = e

unfoldable pub personas :
    {Persona : Type 0} → Result (Option (List Persona)) → Result (List Persona)
personas (err e) = err (picker_error e)
personas (ok none) = ok []
personas (ok (some listed)) = ok listed

-- The errors of the adapter's construction, and those of its `verify_service_assertion`.
abbrev pub construction_error : Error → Error
construction_error (auth_unavailable http_status) = http_error http_status
construction_error identity_error = http_error 503
construction_error audience_unconfigured = http_error 503
construction_error e = e

abbrev pub assertion_error : Error → Error
assertion_error audience_unconfigured = http_error 503
assertion_error identity_error = http_error 401
assertion_error (auth_unavailable http_status) = http_error 401
assertion_error e = e

-- A bound adapter: its `verify_service_assertion`, if it has one.
abbrev pub Adapter : Type 0
Adapter = Option (Headers → Result String)

-- `verify(ctx)`, with its errors.
abbrev pub verified_caller : Result String → Result String
verified_caller (ok caller) = ok caller
verified_caller (err e) = err (assertion_error e)

abbrev pub admitted_caller : List String → String → Result String
admitted_caller allowed caller = if elem caller allowed then ok caller else err (http_error 403)

-- `_require_iap_machine_caller`
unfoldable pub require_iap_machine_caller : Result Adapter → List String → Headers → Result String
require_iap_machine_caller (err e) allowed headers = err (construction_error e)
require_iap_machine_caller (ok none) allowed headers = err (http_error 503)
require_iap_machine_caller (ok (some verify)) allowed headers =
    verified_caller (verify headers) >>= admitted_caller allowed

-- `require_service_caller`
unfoldable pub require_service_caller :
    (Headers → Result (Unit {0}))
    → ProfileChoice
    → Result Adapter
    → List String
    → Headers
    → Result (Unit {0})
require_service_caller authenticate choice identity allowed headers =
    if not (service_auth_configured choice)
    then err (http_error 401)
    else if elem choice.profile iap_edge_profiles
    then (require_iap_machine_caller identity allowed headers >>= λ _. ok tt)
    else authenticate headers

verified_caller_lem :
    (r : Result String) (caller : String) → verified_caller r ≡ ok caller → r ≡ ok caller
verified_caller_lem (ok c) caller h = h
verified_caller_lem (err e) caller h = cc h

admitted_caller_lem :
    (allowed : List String) (c caller : String)
    → admitted_caller allowed c ≡ ok caller
    → (c ≡ caller) × (elem c allowed ≡ true)
admitted_caller_lem allowed c caller h = elim (Bool-cases (elem c allowed)) [
  | inl named ↦ (cc (rw named at h), named)
  | inr unnamed ↦ cc (rw unnamed at h)
]

machine_caller_lem :
    (identity : Result Adapter) (allowed : List String) (headers : Headers) (caller : String)
    → require_iap_machine_caller identity allowed headers ≡ ok caller
    → (verify : Headers → Result String) × (identity ≡ ok (some verify))
      × (verify headers ≡ ok caller)
      × (elem caller allowed ≡ true)
unfolding require_iap_machine_caller
machine_caller_lem (err e) allowed headers caller h = cc h
machine_caller_lem (ok none) allowed headers caller h = cc h
machine_caller_lem (ok (some verify)) allowed headers caller h =
    let (c, proved, admitted) =
      bind_ok (verified_caller (verify headers)) (admitted_caller allowed) h in
    let (same, named) = admitted_caller_lem allowed c caller admitted in
    (
      verify,
      refl,
      verified_caller_lem (verify headers) c proved ∙ ap (λ (x : String). ok x) same,
      subst (λ (x : String). elem x allowed ≡ true) same named,
    )

IsExact-of_elem :
    {Float : Type 0} (loads : String → Result (Json Float)) (lower : String → String) (k : String)
    (callers : List String)
    → All (IsExact loads lower) callers
    → elem k callers ≡ true
    → IsExact loads lower k
IsExact-of_elem loads lower k [] all h = cc h
IsExact-of_elem loads lower k (c ∷ callers) all h = elim (Bool-cases (k == c)) [
  | inl same ↦ subst (IsExact loads lower) (sym ((eq_iff k c).0 same)) all.0
  | inr other ↦ IsExact-of_elem loads lower k callers all.1 (rw other at h)
]

module _ {Float : Type 0} (kit : Kit Float) (audience : String) where
  -- The caller that a verified assertion in the headers names.
  abbrev pub IsNamed : Headers → String → Type 0
  IsNamed headers caller =
      (assertion : String) × (claims : Fields Float) × (selected kit audience headers
        ≡ ok assertion)
      × IsVerified kit audience assertion claims
      × (caller ≡ kit.lower (strip (kit.to_str (get_field claims "email"))))

  verify_service_assertion-IsNamed :
      (headers : Headers) (caller : String)
      → verify_service_assertion kit audience headers ≡ ok caller
      → IsNamed headers caller
  unfolding verify_service_assertion
  verify_service_assertion-IsNamed headers caller h =
      let (u, set, h1) = bind_ok (require_audience kit audience) _ h in
      let (assertion, chosen, h2) = bind_ok (selected kit audience headers) _ h1 in
      let (claims, verified, made) = bind_ok (verified_claims kit audience assertion) _ h2 in
      let named : kit.lower (strip (kit.to_str (get_field claims "email"))) ≡ caller = cc made in
      (
        assertion,
        claims,
        chosen,
        verified_claims-IsVerified kit audience assertion claims verified,
        sym named,
      )

  -- A service caller is admitted only if a profile was chosen. Behind the proxy edge, with the IAP
  -- adapter and an allowlist that was read, the caller is the one named by an assertion whose
  -- algorithm is the pinned one, whose token was verified and whose claims passed the check of the
  -- issuer, the audience and the required claims; it is in the allowlist, and is spelled out as the address of a service account; elsewhere the
  -- shared-secret check admitted it.
  pub require_service_caller_lem :
      (authenticate : Headers → Result (Unit {0})) (choice : ProfileChoice) (setting : Setting)
      (allowed : List String) (headers : Headers) (u : Unit {0})
      → iap_service_callers kit.loads kit.lower setting ≡ ok allowed
      → require_service_caller authenticate choice
          (ok (some (verify_service_assertion kit audience)))
          allowed
          headers
        ≡ ok u
      → (choice.explicit ≡ true)
        × (elem choice.profile iap_edge_profiles ≡ true
            → (caller : String) × IsNamed headers caller
              × (elem caller allowed ≡ true)
              × IsExact kit.loads kit.lower caller)
        × (elem choice.profile iap_edge_profiles ≡ false → authenticate headers ≡ ok u)
  unfolding require_service_caller
  require_service_caller_lem authenticate choice setting allowed headers u read h =
      elim (Bool-cases (choice.explicit)) [
        | inr inherited ↦ cc (rw inherited at h)
        | inl chosen ↦
            let passed = rw chosen at h in
            (
              chosen,
              (λ edge.
                  let (caller, admitted, rest) =
                    bind_ok
                      (require_iap_machine_caller
                        (ok (some (verify_service_assertion kit audience))) allowed headers)
                      (λ _. ok tt) (rw edge at passed) in
                  let (verify, bound, proved, named) =
                    machine_caller_lem (ok (some (verify_service_assertion kit audience))) allowed
                      headers caller admitted in
                  let same : verify_service_assertion kit audience ≡ verify = cc bound in
                  (
                    caller,
                    verify_service_assertion-IsNamed headers caller
                        (ap (λ (f : Headers → Result String). f headers) same ∙ proved),
                    named,
                    IsExact-of_elem kit.loads kit.lower caller allowed
                        (iap_service_callers-IsExact kit.loads kit.lower setting allowed read).0
                        named,
                  )),
              (λ open_net. rw open_net at passed),
            )
      ]
