-- ===== src/Identity.antt =====
-- ports/identity.py: what an identity adapter declares, and the verified principal. `Principal` and
-- the request's context are the service kit's: their fields are those that the code sets or reads.
pub mod Personas
pub mod Gcp
use human_review_console.Prelude.{
  String, Bool, Option, none, some, List, [], ◌∷◌, elem, if◌then◌else◌,
}
use human_review_console.Errors.{Error, Result, err, auth_unavailable, not_implemented}

abbrev pub verified : String
verified = "verified"

abbrev pub client_asserted : String
client_asserted = "client-asserted"

abbrev pub unimplemented : String
unimplemented = "unimplemented"

abbrev pub end_user_auth_kinds : List String
end_user_auth_kinds = verified ∷ client_asserted ∷ unimplemented ∷ []

-- `declared_end_user_auth`, from the class attribute; `none` is no attribute, or no text.
unfoldable pub declared_end_user_auth : Option String → String
declared_end_user_auth none = client_asserted
declared_end_user_auth (some declared) =
    if elem declared end_user_auth_kinds then declared else client_asserted

pub record Principal : Type 0 where
  pub subject : String
  pub principals : List String
  pub tenant : String
  pub assurance : String
  pub source : String

-- `RequestContext.headers`
abbrev pub Headers : Type 0
Headers = List (String × String)

-- `OnPremIdentityAdapter.resolve`: OnPremIdentityUnimplementedError, whose status is 501.
unfoldable pub onprem_resolve : Headers → Result Principal
onprem_resolve headers = err (auth_unavailable 501)
