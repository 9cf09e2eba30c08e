-- ===== src/Tests/Origins.antt =====
-- The origin policies and the exposure guard of deployments.
use human_review_console.Prelude.{
  not, ◌&&◌, ◌≢◌, ◌⊎◌, Bool, inl, inr, ap, eq_iff, arith, Bool-cases, true, false, String, ◌==◌,
  ◌≡◌, refl, ◌↔◌,
}
use human_review_console.Errors.{ok}
use human_review_console.Config.{
  Setting, unset, emptied, given, resolve_profile, load_settings, checked_settings,
  validate_profile, validate_region, identity_binding,
}
use human_review_console.Strings.{split}
use human_review_console.Identity.{declared_end_user_auth}
use human_review_console.Api.Origins.{
  IsExactPolicy, frame_ancestors, refuse_wildcard, frame_ancestors-IsExactPolicy,
}
use human_review_console.Api.Posture.{
  Guard, IsGuard, unauthenticated, exposure_guarded, end_user_auth_kind, adapter_declaration,
  IsManaged, exposure_guarded_iff,
}
use human_review_console.Tests.Configs.{environment}

abbrev opts_out : Setting → Bool
opts_out (given v) = v == "1"
opts_out _ = false

abbrev guard : Guard
guard bounded o on_loopback = bounded && (not (opts_out o) && not on_loopback)

guard-IsGuard : IsGuard guard
guard-IsGuard = record {
  admits_authenticated = λ o l. refl;
  admits_loopback = λ u o. ground arith;
  admits_opt_out = λ u l. ground arith;
  refuses_others = refuses;
}
  where
    refuses : (o : Setting) → o ≢ given "1" → guard true o false ≡ true
    refuses unset other = refl
    refuses emptied other = refl
    refuses (given v) other = elim (Bool-cases (v == "1")) [
      | inl one ↦ absurd (other (ap (λ (x : String). given x) ((eq_iff v "1").0 one)))
      | inr else_text ↦ rw else_text refl
    ]

exposed : exposure_guarded guard environment unset false ≡ ok false
unfolding exposure_guarded unauthenticated resolve_profile load_settings checked_settings
    validate_profile validate_region end_user_auth_kind adapter_declaration declared_end_user_auth
    identity_binding
exposed = refl

exposure_guarded_iff_example : (false ≡ false) ↔ (IsManaged environment ⊎ (unset ≡ given "1"))
exposure_guarded_iff_example =
    exposure_guarded_iff guard environment unset false guard-IsGuard exposed

embedded :
    frame_ancestors (given "https://a.example https://b.example")
    ≡ ok "https://a.example https://b.example"
unfolding frame_ancestors refuse_wildcard split
embedded = refl

frame_ancestors-IsExactPolicy_example :
    IsExactPolicy "https://a.example https://b.example"
    × (frame_ancestors (given "https://a.example https://b.example")
        ≡ ok "https://a.example https://b.example")
frame_ancestors-IsExactPolicy_example =
    frame_ancestors-IsExactPolicy (given "https://a.example https://b.example")
      "https://a.example https://b.example" embedded
