-- ===== src/Tests/Identities.antt =====
-- An approver behind the proxy edge, resolved from an assertion, and a producer that is admitted.
use human_review_console.Prelude.{
  String, true, false, not, ◌≡◌, refl, some, [], ◌∷◌, ◌==◌, elem, if◌then◌else◌,
}
use human_review_console.Errors.{Result, ok, err, identity_error}
use human_review_console.Json.{Json, str, arr, obj, nil, cons, Fields, end, field, get_field}
use human_review_console.Strings.{strip}
use human_review_console.Config.{given, ProfileChoice, iap_edge_profiles}
use human_review_console.Config.Callers.{IsExact, iap_service_callers}
use human_review_console.Identity.{Principal, Headers}
use human_review_console.Identity.Gcp.{
  Kit, entitlement_of, selected, verified_claims, principal_of, resolve, verify_service_assertion,
}
use human_review_console.Identity.Gcp.Reviewed.{IsVerified, IsGranted, resolve-IsGranted}
use human_review_console.Api.Callers.{
  require_iap_machine_caller, require_service_caller, IsNamed, require_service_caller_lem,
}

abbrev text : Json (Unit {0}) → String
text (str s) = s
text _ = ""

abbrev header : Headers → Result String
header [] = err identity_error
header ((name, value) ∷ rest) = if name == "assertion" then ok value else header rest

abbrev producer : String
producer = "svc@demo.iam.gserviceaccount.com"

-- A token is the email that it was signed for.
abbrev kit : Kit (Unit {0})
kit = record {
  loads = λ s. ok (arr (cons (str producer) nil));
  to_str = text;
  to_bool = λ j. not (text j == "");
  lower = λ s. s;
  select_assertion = header;
  require_pinned_algorithm = λ token. ok tt;
  verify_token =
      λ token audience. ok (field "email" (str token) (field "hd" (str "bank.example") end));
  require_claims = λ claims issuer audience names. ok tt;
  iap_issuer = "issuer";
}

abbrev grant : Fields (Unit {0})
grant = field "tenant" (str "demo-bank") (
    field "hosted_domain" (str "bank.example")
      (field "principals" (arr (cons (str "group:approver") nil)) end))

abbrev entitlements : Fields (Unit {0})
entitlements = field "ann" (obj grant) end

abbrev ann : Principal
ann = record {
  subject = "ann";
  principals = "user:ann" ∷ "group:approver" ∷ [];
  tenant = "demo-bank";
  assurance = "iap";
  source = "gcp-iap";
}

abbrev headers : Headers
headers = ("assertion", "ann") ∷ []

resolved : resolve kit "console" entitlements headers ≡ ok ann
unfolding resolve verified_claims principal_of strip
resolved = refl

resolve-IsGranted_example :
    (assertion : String) × (claims : Fields (Unit {0})) × (entitlement : Fields (Unit {0}))
    × (selected kit "console" headers ≡ ok assertion)
    × (("console" == "") ≡ false)
    × IsVerified kit "console" assertion claims
    × (ann.subject ≡ strip (text (get_field claims "email")))
    × (entitlement_of entitlements ann.subject ≡ some entitlement)
    × IsGranted kit "console" entitlement (get_field claims "hd") ann
resolve-IsGranted_example = resolve-IsGranted kit "console" entitlements headers ann resolved

abbrev machine : Headers
machine = ("assertion", producer) ∷ []

abbrev managed : ProfileChoice
managed = record { profile = "gcp"; explicit = true }

callers_read : iap_service_callers kit.loads kit.lower (given "[caller]") ≡ ok (producer ∷ [])
unfolding iap_service_callers strip
callers_read = refl

abbrev no_secret : Headers → Result (Unit {0})
no_secret h = err identity_error

admitted :
    require_service_caller no_secret managed
      (ok (some (verify_service_assertion kit "console")))
      (producer ∷ [])
      machine
    ≡ ok tt
unfolding require_service_caller require_iap_machine_caller verify_service_assertion verified_claims
    strip iap_edge_profiles
admitted = refl

require_service_caller_lem_example :
    (managed.explicit ≡ true)
    × (elem managed.profile iap_edge_profiles ≡ true
        → (caller : String) × IsNamed kit "console" machine caller
          × (elem caller (producer ∷ []) ≡ true)
          × IsExact kit.loads kit.lower caller)
    × (elem managed.profile iap_edge_profiles ≡ false → no_secret machine ≡ ok tt)
require_service_caller_lem_example =
    require_service_caller_lem kit "console" no_secret managed (given "[caller]") (producer ∷ [])
      machine tt callers_read admitted
