-- ===== src/Api/Posture.antt =====
-- `identity_adapter_class` and `end_user_auth_kind` of config.py, and the exposure guard that
-- api/app.py registers.
use human_review_console.Prelude.{
  String, Bool, true, false, not, ◌&&◌, ◌||◌, ◌≡◌, ◌≢◌, ◌↔◌, ◌⊎◌, refl, sym, ◌∙◌, ap, Option, some,
  ◌==◌, arith, eq_iff, Bool-cases, inl, inr, if◌then◌else◌,
}
use human_review_console.Errors.{Result, ok, err, value_error, or_raise, bind_ok, ◌>>=◌}
use human_review_console.Config.{
  Setting, unset, emptied, given, ProfileChoice, bind_profile, resolve_profile, Settings,
  load_settings, identity_binding, iap_identity_target,
}
use human_review_console.Config.Posture.{explicit_lem, loaded_profile}
use human_review_console.Identity.{verified, client_asserted, unimplemented, declared_end_user_auth}

-- The class attribute `end_user_auth` of the adapters that are shipped, by their targets. Any other
-- target does not import.
abbrev pub shipped_declaration : String → Result (Option String)
shipped_declaration target =
    if target == "review_console.adapters.local.identity:LocalIdentityAdapter"
    then ok (some client_asserted)
    else if target == iap_identity_target
    then ok (some verified)
    else if target == "review_console.adapters.onprem.identity:OnPremIdentityAdapter"
    then ok (some unimplemented)
    else err value_error

-- What the class of `identity_adapter_class` declares.
unfoldable pub adapter_declaration : Settings → Result (Option String)
unfolding identity_binding
adapter_declaration s = or_raise (identity_binding s.profile) value_error >>= shipped_declaration

-- `end_user_auth_kind`: whatever raises is read as client-asserted.
unfoldable pub end_user_auth_kind : Result Settings → String
unfolding adapter_declaration declared_end_user_auth
end_user_auth_kind settings = elim (settings >>= adapter_declaration) [
  | ok declared ↦ declared_end_user_auth declared
  | err e ↦ client_asserted
]

-- `_END_USER_AUTHENTICATED`
abbrev pub end_user_authenticated : ProfileChoice → String → Bool
end_user_authenticated choice kind = choice.explicit && kind == verified

-- `_BIND_PROFILE`
abbrev pub guarded_bind_profile : ProfileChoice → String → String
guarded_bind_profile choice kind =
    if end_user_authenticated choice kind then bind_profile choice else "local"

-- `not _END_USER_AUTHENTICATED`, of an app that starts with an environment.
unfoldable pub unauthenticated : (String → Setting) → Result Bool
unauthenticated read = do
  choice ← resolve_profile (read "REVIEW_PROFILE")
  ok (not (end_user_authenticated choice (end_user_auth_kind (load_settings read))))

-- Whether the service kit's guard refuses a request: from `unauthenticated`, from the state of the
-- variable that `insecure_demo_env` names, and from whether the peer is on loopback.
abbrev pub Guard : Type 0
Guard = (unauthenticated : Bool) → (insecure_demo : Setting) → (on_loopback : Bool) → Bool

-- What the kit's guard is documented to do: it refuses the peers that are not on loopback of an app
-- that authenticates no end user, but for the one value of the variable that opts out.
pub record IsGuard (guard : Guard) : Type 0 where
  pub admits_authenticated : (o : Setting) (l : Bool) → guard false o l ≡ false
  pub admits_loopback : (u : Bool) (o : Setting) → guard u o true ≡ false
  pub admits_opt_out : (u l : Bool) → guard u (given "1") l ≡ false
  pub refuses_others : (o : Setting) → o ≢ given "1" → guard true o false ≡ true

-- Whether `add_loopback_exposure_guard` refuses a request to an app that started with an
-- environment.
unfoldable pub exposure_guarded : Guard → (String → Setting) → Setting → Bool → Result Bool
exposure_guarded guard read insecure_demo on_loopback = do
  bounded ← unauthenticated read
  ok (guard bounded insecure_demo on_loopback)

managed : String → Bool
managed profile = profile == "gcp" || profile == "platform"

-- A shipped adapter verifies the end user just under the managed profiles.
kind_managed : (s : Settings) → (end_user_auth_kind (ok s) == verified) ≡ managed s.profile
unfolding end_user_auth_kind managed
kind_managed s = elim (Bool-cases (s.profile == "local")) [
  | inl e ↦ rw ((eq_iff s.profile "local").0 e, end_user_auth_kind, adapter_declaration) refl
  | inr not_local ↦ elim (Bool-cases (s.profile == "gcp" || s.profile == "platform")) [
    | inl e ↦ rw (not_local, end_user_auth_kind, adapter_declaration, e) refl
    | inr not_managed ↦ elim (Bool-cases (s.profile == "onprem")) [
      | inl e ↦ rw (not_local, end_user_auth_kind, adapter_declaration, not_managed, e) refl
      | inr unknown ↦
          rw (not_local, end_user_auth_kind, adapter_declaration, not_managed, unknown) refl
    ]
  ]
]

-- The profile that the operator named is a managed one, and the settings load.
abbrev pub IsManaged : (String → Setting) → Type 0
IsManaged read =
    (s : Settings) × (load_settings read ≡ ok s)
    × ((read "REVIEW_PROFILE" ≡ given "gcp") ⊎ (read "REVIEW_PROFILE" ≡ given "platform"))

kind_settings :
    (r : Result Settings)
    → (end_user_auth_kind r == verified) ≡ true
    → (s : Settings) × (r ≡ ok s) × (managed s.profile ≡ true)
kind_settings (ok s) h = (s, refl, sym (kind_managed s) ∙ h)
kind_settings (err e) h = cc (sym raised ∙ h)
  where
    raised : (end_user_auth_kind (err e) == verified) ≡ false
    raised = unfold end_user_auth_kind in refl

named_cases :
    (x : Setting) (profile : String)
    → x ≡ given profile
    → managed profile ≡ true
    → (x ≡ given "gcp") ⊎ (x ≡ given "platform")
unfolding managed
named_cases x profile e h = elim (Bool-cases (profile == "gcp")) [
  | inl gcp ↦ inl (e ∙ ap (λ (p : String). given p) ((eq_iff profile "gcp").0 gcp))
  | inr other ↦
      inr (e ∙ ap (λ (p : String). given p) ((eq_iff profile "platform").0 (rw other at h)))
]

named_profile :
    (x : Setting) (choice : ProfileChoice) (p : String)
    → resolve_profile x ≡ ok choice
    → x ≡ given p
    → (choice.profile ≡ p) × (choice.explicit ≡ true)
unfolding resolve_profile
named_profile emptied choice p h e = cc h
named_profile unset choice p h e = cc e
named_profile (given v) choice p h e =
    let (q, valid, made) = bind_ok _ (λ _. ok (record { profile = v; explicit = true })) h in
    let same : v ≡ p = cc e in
    let profile : v ≡ choice.profile = cc made in
    let explicit : true ≡ choice.explicit = cc made in (sym profile ∙ same, sym explicit)

managed_named :
    (x : Setting) (profile : String)
    → (x ≡ given "gcp") ⊎ (x ≡ given "platform")
    → ((p : String) → x ≡ given p → profile ≡ p)
    → managed profile ≡ true
unfolding managed
managed_named x profile (inl e) h = rw (h "gcp" e) refl
managed_named x profile (inr e) h = rw (h "platform" e) refl

-- An app that starts authenticates its end users just if the operator named a managed profile.
unauthenticated_iff :
    (read : String → Setting) (guarded : Bool)
    → unauthenticated read ≡ ok guarded
    → (guarded ≡ false) ↔ IsManaged read
unfolding unauthenticated
unauthenticated_iff read guarded h =
    let (choice, resolved, made) = bind_ok (resolve_profile (read "REVIEW_PROFILE")) _ h in
    let kind = end_user_auth_kind (load_settings read) in
    let same : not (choice.explicit && kind == verified) ≡ guarded = cc made in
    (
      (λ off.
          let both : (choice.explicit && kind == verified) ≡ true = ground arith in
          let explicit : choice.explicit ≡ true = ground arith in
          let (s, loaded, runs) = kind_settings (load_settings read) (ground arith) in
          let (own, found, profile, flag, known, resident) = loaded_profile read s loaded in
          let one : own ≡ choice = cc (sym found ∙ resolved) in
          let named : read "REVIEW_PROFILE" ≡ given s.profile =
            explicit_lem (read "REVIEW_PROFILE") own found
              (ap (λ (c : ProfileChoice). c.explicit) one ∙ explicit)
            ∙ ap (λ (p : String). given p) profile in
          (s, loaded, named_cases (read "REVIEW_PROFILE") s.profile named runs)),
      (λ (s, loaded, named).
          let (own, found, profile, flag, known, resident) = loaded_profile read s loaded in
          let one : own ≡ choice = cc (sym found ∙ resolved) in
          let explicit : choice.explicit ≡ true = elim named [
            | inl e ↦ (named_profile (read "REVIEW_PROFILE") choice "gcp" resolved e).1
            | inr e ↦ (named_profile (read "REVIEW_PROFILE") choice "platform" resolved e).1
          ] in
          let runs : managed s.profile ≡ true =
            managed_named (read "REVIEW_PROFILE") s.profile named
              (λ p e. sym profile ∙ (named_profile (read "REVIEW_PROFILE") own p found e).0) in
          let verifies : (kind == verified) ≡ true =
            ap (λ (r : Result Settings). end_user_auth_kind r == verified) loaded
            ∙ kind_managed s
            ∙ runs in
          sym same ∙ rw (explicit, verifies) refl),
    )

opted_out : (o : Setting) → (o ≡ given "1") ⊎ (o ≢ given "1")
opted_out unset = inr (λ e. cc e)
opted_out emptied = inr (λ e. cc e)
opted_out (given v) = elim (Bool-cases (v == "1")) [
  | inl one ↦ inl (ap (λ (x : String). given x) ((eq_iff v "1").0 one))
  | inr other ↦ inr (λ e.
      let same : v ≡ "1" = cc e in
      let again : (v == "1") ≡ true = (eq_iff v "1").1 same in cc (sym other ∙ again))
]

-- A guard that does what the service kit documents admits a peer that is not on loopback to a
-- service that started, with the adapters that are shipped, just if its settings load and the
-- operator named a managed profile, or the variable opts out with 1.
pub exposure_guarded_iff :
    (guard : Guard) (read : String → Setting) (insecure_demo : Setting) (refused : Bool)
    → IsGuard guard
    → exposure_guarded guard read insecure_demo false ≡ ok refused
    → (refused ≡ false) ↔ (IsManaged read ⊎ (insecure_demo ≡ given "1"))
unfolding exposure_guarded
exposure_guarded_iff guard read insecure_demo refused laws h =
    let (bounded, started, made) = bind_ok (unauthenticated read) _ h in
    let same : guard bounded insecure_demo false ≡ refused = cc made in
    let (off, on) = unauthenticated_iff read bounded started in
    (
      (λ admitted. elim (opted_out insecure_demo) [
        | inl out ↦ inr out
        | inr bound ↦ elim (Bool-cases bounded) [
          | inr free ↦ inl (off free)
          | inl held ↦
              let refuses : guard bounded insecure_demo false ≡ true =
                ap (λ (b : Bool). guard b insecure_demo false) held
                ∙ laws.refuses_others insecure_demo bound in
              cc (sym refuses ∙ same ∙ admitted)
        ]
      ]),
      (λ reason. sym same ∙ elim reason [
        | inl runs ↦
            ap (λ (b : Bool). guard b insecure_demo false) (on runs)
            ∙ laws.admits_authenticated insecure_demo false
        | inr out ↦
            ap (λ (o : Setting). guard bounded o false) out ∙ laws.admits_opt_out bounded false
      ]),
    )
