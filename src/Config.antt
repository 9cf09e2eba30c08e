-- ===== src/Config.antt =====
-- config.py: the profile, the settings and the binding tables. What the commons' `read_env_setting`
-- tells of a variable is the model's `Setting`: it is unset, set to an empty value, or has a value.
-- The environment is the argument `read`.
pub mod Posture
pub mod Callers
pub mod Container
use Prim.Native.String.{◌++◌ as text_append}
use human_review_console.Prelude.{
  String, Bool, true, false, not, ◌&&◌, ◌||◌, Option, none, some, List, [], ◌∷◌, ◌==◌, elem, keep,
  if◌then◌else◌,
}
use human_review_console.Errors.{Result, ok, err, value_error, configured_empty, ◌>>=◌}

pub data Setting : Type 0 where
  unset emptied : Setting
  given : (value : String) → Setting

abbrev pub default_region : String
default_region = "asia-southeast1"

abbrev pub runtime_profiles : List String
runtime_profiles = "local" ∷ "gcp" ∷ "platform" ∷ "onprem" ∷ []

abbrev pub unconsented_profile : String
unconsented_profile = "unconfigured"

abbrev pub residency_allowlist : List String
residency_allowlist = "asia-southeast1" ∷ "asia-southeast2" ∷ []

-- `_validate_profile`
unfoldable pub validate_profile : String → Result String
validate_profile profile = if elem profile runtime_profiles then ok profile else err value_error

-- `_validate_region`
unfoldable pub validate_region : String → Result String
validate_region region = if elem region residency_allowlist then ok region else err value_error

pub record ProfileChoice : Type 0 where
  pub profile : String
  pub explicit : Bool

abbrev pub exposure_profile : ProfileChoice → String
exposure_profile choice = if choice.explicit then choice.profile else unconsented_profile

abbrev pub bind_profile : ProfileChoice → String
bind_profile choice = if choice.explicit then choice.profile else "local"

abbrev pub service_auth_configured : ProfileChoice → Bool
service_auth_configured choice = choice.explicit

-- `resolve_profile`, from the state of REVIEW_PROFILE
unfoldable pub resolve_profile : Setting → Result ProfileChoice
unfolding validate_profile
resolve_profile emptied = err (configured_empty "REVIEW_PROFILE")
resolve_profile unset = ok (record { profile = "local"; explicit = false })
resolve_profile (given value) = do
  _ ← validate_profile value
  ok (record { profile = value; explicit = true })

-- `_setting`
abbrev pub setting : (String → Setting) → String → String → Result String
setting read name default = elim (read name) [
  | emptied ↦ err (configured_empty name)
  | given value ↦ ok value
  | unset ↦ ok default
]

pub record Settings : Type 0 where
  pub profile : String
  pub region : String
  pub audit_path : String
  pub audit_anchor_path : String
  pub policy_path : String
  pub iap_audience : String
  pub iap_entitlements_json : String
  pub review_db_path : String
  pub profile_explicit : Bool

-- `Settings.__post_init__`: a construction that a check refuses raises.
unfoldable pub checked_settings : Settings → Result Settings
unfolding validate_profile validate_region
checked_settings s = do _ ← validate_profile s.profile; _ ← validate_region s.region; ok s

-- `Settings.runtime`
abbrev pub runtime : Settings → String
runtime s = if s.profile == "gcp" || s.profile == "platform" then "gcp" else "local"

-- `Settings.resolved_audit_anchor_path`
unfoldable pub resolved_audit_anchor_path : Settings → String
resolved_audit_anchor_path s =
    if not (s.audit_anchor_path == "")
    then s.audit_anchor_path
    else if s.audit_path == "" || s.audit_path == ":memory:"
    then ""
    else text_append s.audit_path ".anchor"

-- `Settings.load`
unfoldable pub load_settings : (String → Setting) → Result Settings
unfolding resolve_profile checked_settings
load_settings read = do
  choice ← resolve_profile (read "REVIEW_PROFILE")
  region ← setting read "REVIEW_REGION" default_region
  review_db_path ← setting read "REVIEW_DB_PATH" "review-console.sqlite3"
  audit_path ← setting read "REVIEW_AUDIT_PATH" ":memory:"
  audit_anchor_path ← setting read "REVIEW_AUDIT_ANCHOR_PATH" ""
  policy_path ← setting read "REVIEW_POLICY_PATH" "config/policy.json"
  iap_audience ← setting read "REVIEW_IAP_AUDIENCE" ""
  iap_entitlements_json ← setting read "REVIEW_IAP_ENTITLEMENTS_JSON" ""
  checked_settings (record {
    profile = choice.profile;
    region = region;
    audit_path = audit_path;
    audit_anchor_path = audit_anchor_path;
    policy_path = policy_path;
    iap_audience = iap_audience;
    iap_entitlements_json = iap_entitlements_json;
    review_db_path = review_db_path;
    profile_explicit = choice.explicit;
  })

-- One row of `_BINDINGS`: the targets of local, of gcp and platform, and of onprem.
abbrev pub binding_row : String → String → String → String → Option String
binding_row on_local on_gcp on_prem profile =
    if profile == "local"
    then some on_local
    else if profile == "gcp" || profile == "platform"
    then some on_gcp
    else if profile == "onprem"
    then some on_prem
    else none

-- `_BINDINGS[port][profile]`; a missing key is `none`.
unfoldable pub binding : String → String → Option String
binding port profile =
    if port == "review_store"
    then binding_row "review_console.adapters.local.review_store:LocalReviewStore"
        "review_console.adapters.gcp.review_store:FirestoreReviewStore"
        "review_console.adapters.onprem.review_store:OnPremReviewStore" profile
    else if port == "case_store"
    then binding_row "review_console.adapters.local.case_store:LocalCaseStore"
        "review_console.adapters.gcp.case_store:FirestoreCaseStore"
        "review_console.adapters.onprem.case_store:OnPremCaseStore" profile
    else if port == "timers"
    then binding_row "review_console.adapters.local.timers:LocalTimerAdapter"
        "review_console.adapters.gcp.timers:CloudTasksTimerAdapter"
        "review_console.adapters.onprem.timers:OnPremTimerAdapter" profile
    else if port == "events"
    then binding_row "review_console.adapters.local.events:LocalEventPublisher"
        "review_console.adapters.gcp.events:PubSubEventPublisher"
        "review_console.adapters.onprem.events:OnPremEventPublisher" profile
    else if port == "audit"
    then binding_row "review_console.adapters.local.audit:LocalAuditAdapter"
        "review_console.adapters.gcp.audit:CloudAuditAdapter"
        "review_console.adapters.onprem.audit:OnPremAuditAdapter" profile
    else none

abbrev pub iap_identity_target : String
iap_identity_target = "review_console.adapters.gcp.identity:IapIdentityAdapter"

-- `_IDENTITY_BINDINGS[profile]`
unfoldable pub identity_binding : String → Option String
identity_binding profile =
    binding_row "review_console.adapters.local.identity:LocalIdentityAdapter" iap_identity_target
      "review_console.adapters.onprem.identity:OnPremIdentityAdapter" profile

abbrev is_iap : Option String → Bool
is_iap (some target) = target == iap_identity_target
is_iap none = false

-- `IAP_EDGE_PROFILES`
unfoldable pub iap_edge_profiles : List String
unfolding identity_binding
iap_edge_profiles = keep (λ profile. is_iap (identity_binding profile)) runtime_profiles
