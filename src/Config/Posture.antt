-- ===== src/Config/Posture.antt =====
-- What a resolved profile grants, and what loaded settings can be.
use human_review_console.Prelude.{
  String, Bool, true, false, ◌≡◌, refl, sym, ◌∙◌, ap, subst, Option, none, some, List, [], ◌∷◌,
  eq_iff, elem, arith, Bool-cases, inl, inr,
}
use human_review_console.Errors.{ok, bind_ok}
use human_review_console.Config.{
  Setting, unset, emptied, given, runtime_profiles, residency_allowlist, validate_profile,
  validate_region, ProfileChoice, exposure_profile, bind_profile, resolve_profile, Settings,
  checked_settings, load_settings, setting, binding, identity_binding,
}

validate_profile_lem : (p q : String) → validate_profile p ≡ ok q → elem p runtime_profiles ≡ true
unfolding validate_profile
validate_profile_lem p q h = elim (Bool-cases (elem p runtime_profiles)) [
  | inl known ↦ known
  | inr other ↦ cc (rw other at h)
]

-- A resolved profile is one that is bound. It relaxes the exposure as `local` only if the operator
-- named `local`; if no profile was named, the exposure is that of no profile and the bind guard is
-- that of `local`.
pub resolve_profile_lem :
    (s : Setting) (choice : ProfileChoice)
    → resolve_profile s ≡ ok choice
    → (elem choice.profile runtime_profiles ≡ true)
      × (exposure_profile choice ≡ "local" → s ≡ given "local")
      × (s ≡ unset
          → (elem (exposure_profile choice) runtime_profiles ≡ false)
            × (bind_profile choice ≡ "local"))
unfolding resolve_profile
resolve_profile_lem emptied choice h = cc h
resolve_profile_lem unset choice h =
    let profile : "local" ≡ choice.profile = cc h in
    let explicit : false ≡ choice.explicit = cc h in
    (
      subst (λ (p : String). elem p runtime_profiles ≡ true) profile refl,
      (λ e. cc ((eq_iff "unconfigured" "local").1 (rw (sym explicit) at e))),
      (λ u. (rw (sym explicit) refl, rw (sym explicit) refl)),
    )
resolve_profile_lem (given value) choice h =
    let (p, valid, made) = bind_ok (validate_profile value) _ h in
    let profile : value ≡ choice.profile = cc made in
    let explicit : true ≡ choice.explicit = cc made in
    (
      subst (λ (p : String). elem p runtime_profiles ≡ true) profile
          (validate_profile_lem value p valid),
      (λ e. ap (λ (v : String). given v) (profile ∙ rw (sym explicit) at e)),
      (λ u. cc u),
    )

pub explicit_lem :
    (s : Setting) (choice : ProfileChoice)
    → resolve_profile s ≡ ok choice
    → choice.explicit ≡ true
    → s ≡ given choice.profile
unfolding resolve_profile
explicit_lem emptied choice h e = cc h
explicit_lem unset choice h e = let implicit : false ≡ choice.explicit = cc h in cc (implicit ∙ e)
explicit_lem (given value) choice h e =
    let (p, valid, made) = bind_ok (validate_profile value) _ h in
    let profile : value ≡ choice.profile = cc made in ap (λ (v : String). given v) profile

-- The runtime and data ports of the container.
abbrev pub bound_ports : List String
bound_ports = "review_store" ∷ "case_store" ∷ "timers" ∷ "events" ∷ "audit" ∷ []

abbrev pub is_bound : Option String → Bool
is_bound (some target) = true
is_bound none = false

binding_total :
    (port profile : String)
    → elem port bound_ports ≡ true
    → elem profile runtime_profiles ≡ true
    → is_bound (binding port profile) ≡ true
unfolding binding
binding_total port profile p q = ground arith

identity_total :
    (profile : String)
    → elem profile runtime_profiles ≡ true
    → is_bound (identity_binding profile) ≡ true
unfolding identity_binding
identity_total profile q = ground arith

checked_settings_lem :
    (s r : Settings)
    → checked_settings s ≡ ok r
    → (s ≡ r)
      × (elem s.profile runtime_profiles ≡ true)
      × (elem s.region residency_allowlist ≡ true)
unfolding checked_settings validate_profile validate_region
checked_settings_lem s r h = elim (Bool-cases (elem s.profile runtime_profiles)) [
  | inr other ↦ cc (rw other at h)
  | inl known ↦ elim (Bool-cases (elem s.region residency_allowlist)) [
    | inr abroad ↦ cc (rw (known, abroad) at h)
    | inl resident ↦ (cc (rw (known, resident) at h), known, resident)
  ]
]

-- What loading makes of the environment's profile and region.
pub loaded_profile :
    (read : String → Setting) (s : Settings)
    → load_settings read ≡ ok s
    → (choice : ProfileChoice) × (resolve_profile (read "REVIEW_PROFILE") ≡ ok choice)
      × (choice.profile ≡ s.profile)
      × (choice.explicit ≡ s.profile_explicit)
      × (elem s.profile runtime_profiles ≡ true)
      × (elem s.region residency_allowlist ≡ true)
unfolding load_settings
loaded_profile read s h =
    let (choice, chosen, h1) = bind_ok (resolve_profile (read "REVIEW_PROFILE")) _ h in
    let (region, b1, h2) = bind_ok (setting read "REVIEW_REGION" _) _ h1 in
    let (review_db_path, b2, h3) = bind_ok (setting read "REVIEW_DB_PATH" _) _ h2 in
    let (audit_path, b3, h4) = bind_ok (setting read "REVIEW_AUDIT_PATH" _) _ h3 in
    let (audit_anchor_path, b4, h5) = bind_ok (setting read "REVIEW_AUDIT_ANCHOR_PATH" _) _ h4 in
    let (policy_path, b5, h6) = bind_ok (setting read "REVIEW_POLICY_PATH" _) _ h5 in
    let (iap_audience, b6, h7) = bind_ok (setting read "REVIEW_IAP_AUDIENCE" _) _ h6 in
    let (entitlements, b7, h8) = bind_ok (setting read "REVIEW_IAP_ENTITLEMENTS_JSON" _) _ h7 in
    let raw : Settings = record {
      profile = choice.profile;
      region = region;
      audit_path = audit_path;
      audit_anchor_path = audit_anchor_path;
      policy_path = policy_path;
      iap_audience = iap_audience;
      iap_entitlements_json = entitlements;
      review_db_path = review_db_path;
      profile_explicit = choice.explicit;
    } in
    let (same, known, resident) = checked_settings_lem raw s h8 in
    let profile : choice.profile ≡ s.profile = cc same in
    let explicit : choice.explicit ≡ s.profile_explicit = cc same in
    (
      choice,
      chosen,
      profile,
      explicit,
      subst (λ (p : String). elem p runtime_profiles ≡ true) profile known,
      subst (λ (x : Settings). elem x.region residency_allowlist ≡ true) same resident,
    )

-- Settings that load have a profile and a region that the service admits; every port of the
-- container, and the identity port, has a binding for the profile; and the profile counts as
-- explicit only if the operator named it.
pub load_settings_lem :
    (read : String → Setting) (s : Settings)
    → load_settings read ≡ ok s
    → (elem s.profile runtime_profiles ≡ true)
      × (elem s.region residency_allowlist ≡ true)
      × ((port : String) → elem port bound_ports ≡ true → is_bound (binding port s.profile) ≡ true)
      × (is_bound (identity_binding s.profile) ≡ true)
      × (s.profile_explicit ≡ true → read "REVIEW_PROFILE" ≡ given s.profile)
load_settings_lem read s h =
    let (choice, chosen, profile, explicit, named, resident) = loaded_profile read s h in
    (
      named,
      resident,
      (λ port p. binding_total port s.profile p named),
      identity_total s.profile named,
      (λ e.
          explicit_lem (read "REVIEW_PROFILE") choice chosen (explicit ∙ e)
          ∙ ap (λ (v : String). given v) profile),
    )
