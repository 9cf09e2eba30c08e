-- ===== src/Identity/Personas.antt =====
-- adapters/local/identity.py: the seeded personas, served under a chosen local profile alone. The
-- choice of a persona by a header is the service kit's.
use human_review_console.Prelude.{String, not, List, [], ◌∷◌, ◌==◌, if◌then◌else◌}
use human_review_console.Errors.{Result, ok, err, auth_unavailable}
use human_review_console.Config.{Settings}
use human_review_console.Identity.{Principal}

abbrev persona : String → String → List String → String → Principal
persona subject tenant principals name = record {
  subject = subject;
  principals = principals;
  tenant = tenant;
  assurance = "local-demo";
  source = name;
}

abbrev pub seeded_personas : List Principal
seeded_personas =
    persona "demo.analyst@bank.example" "demo-bank" ("group:analyst" ∷ "group:risk" ∷ [])
      "local-persona:analyst"
    ∷ persona "demo.approver@bank.example" "demo-bank"
        ("group:analyst" ∷ "group:risk" ∷ "group:approver" ∷ []) "local-persona:approver"
    ∷ persona "second.approver@bank.example" "demo-bank" ("group:risk" ∷ "group:approver" ∷ [])
        "local-persona:second-approver"
    ∷ persona "demo.auditor@bank.example" "demo-bank" ("group:audit" ∷ []) "local-persona:auditor"
    ∷ persona "user@other-tenant.example" "other-bank" ("group:analyst" ∷ [])
        "local-persona:other-tenant"
    ∷ []

-- `LocalIdentityAdapter.__init__`: LocalPersonaProfileError keeps the status 401.
unfoldable pub local_identity : Settings → Result (List Principal)
local_identity settings =
    if not (settings.profile == "local")
    then err (auth_unavailable 401)
    else if not settings.profile_explicit
    then err (auth_unavailable 401)
    else ok seeded_personas
