-- ===== src/Tests/Configs.antt =====
-- The settings of a managed deployment in the default region.
use human_review_console.Prelude.{String, true, false, ◌≡◌, refl, ◌==◌, elem, if◌then◌else◌}
use human_review_console.Errors.{ok}
use human_review_console.Config.{
  Setting, unset, given, runtime_profiles, residency_allowlist, ProfileChoice, exposure_profile,
  bind_profile, validate_profile, validate_region, resolve_profile, checked_settings, Settings,
  load_settings, binding, identity_binding,
}
use human_review_console.Config.Posture.{
  resolve_profile_lem, bound_ports, is_bound, load_settings_lem,
}

abbrev pub environment : String → Setting
environment name = if name == "REVIEW_PROFILE" then given "gcp" else unset

abbrev unchosen : ProfileChoice
unchosen = record { profile = "local"; explicit = false }

resolved_unset : resolve_profile unset ≡ ok unchosen
unfolding resolve_profile
resolved_unset = refl

resolve_profile_lem_example :
    (elem unchosen.profile runtime_profiles ≡ true)
    × (exposure_profile unchosen ≡ "local" → unset ≡ given "local")
    × (unset ≡ unset
        → (elem (exposure_profile unchosen) runtime_profiles ≡ false)
          × (bind_profile unchosen ≡ "local"))
resolve_profile_lem_example = resolve_profile_lem unset unchosen resolved_unset

abbrev managed : Settings
managed = record {
  profile = "gcp";
  region = "asia-southeast1";
  audit_path = ":memory:";
  audit_anchor_path = "";
  policy_path = "config/policy.json";
  iap_audience = "";
  iap_entitlements_json = "";
  review_db_path = "review-console.sqlite3";
  profile_explicit = true;
}

loaded : load_settings environment ≡ ok managed
unfolding load_settings resolve_profile checked_settings validate_profile validate_region
loaded = refl

load_settings_lem_example :
    (elem managed.profile runtime_profiles ≡ true)
    × (elem managed.region residency_allowlist ≡ true)
    × ((port : String)
        → elem port bound_ports ≡ true
        → is_bound (binding port managed.profile) ≡ true)
    × (is_bound (identity_binding managed.profile) ≡ true)
    × (managed.profile_explicit ≡ true → environment "REVIEW_PROFILE" ≡ given managed.profile)
load_settings_lem_example = load_settings_lem environment managed loaded
