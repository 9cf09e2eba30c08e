-- ===== src/Config/Container.antt =====
-- `Settings.generator_model` and `Container.routing_policy` of config.py. The file is the text that
-- reading it gives, or none where there is none; `json.loads` is an argument.
use human_review_console.Prelude.{
  String, Bool, ◌≡◌, sym, ◌∙◌, ap, Option, none, some, ◌==◌, arith, if◌then◌else◌,
}
use human_review_console.Prelude.Int.{ℤ, pos, ◌≤ℤ◌}
use human_review_console.Kernel.{Severity, low, medium, high, critical}
use human_review_console.Errors.{Result, ok, err, attribute_error, bind_ok, ◌>>=◌}
use human_review_console.Json.{Json, obj, Fields, end, field}
use human_review_console.MakerChecker.{RoutingPolicy, default_routing}
use human_review_console.MakerChecker.Policy.{from_mapping, from_mapping_floors}

abbrev pub generator_model : String
generator_model = "no-model"

module _ {Float : Type 0} where
  -- `document.get(key, {})`: only a missing key reads as an empty mapping.
  abbrev pub get_or_empty : Fields Float → String → Json Float
  get_or_empty end key = obj end
  get_or_empty (field k v rest) key = if k == key then v else get_or_empty rest key

  -- A call of `get` on what is no mapping raises.
  abbrev pub as_mapping : Json Float → Result (Fields Float)
  as_mapping (obj fields) = ok fields
  as_mapping _ = err attribute_error

module _ {Float : Type 0} (to_severity : String → Result Severity) (to_int : Json Float → Result ℤ)
    (to_str : Json Float → String) (to_bool : Json Float → Bool)
    (loads : String → Result (Json Float)) where
  -- `document.get("policy", {}).get("routing", {})`
  abbrev pub routing_section : Json Float → Result (Fields Float)
  routing_section document = do
    root ← as_mapping document
    policy ← as_mapping (get_or_empty root "policy")
    as_mapping (get_or_empty policy "routing")

  unfoldable pub routing_policy : Option (Result String) → Result RoutingPolicy
  routing_policy none = ok default_routing
  routing_policy (some contents) = do
    text ← contents
    document ← loads text
    section ← routing_section document
    from_mapping to_severity to_int to_str to_bool section

  default_floors :
      (s : Severity) (n : ℤ) → default_routing.min_approvals_by_severity s ≡ some n → pos 1 ≤ℤ n
  default_floors low n e = ground arith
  default_floors medium n e = ground arith
  default_floors high n e = ground arith
  default_floors critical n e = ground arith

  -- Every floor of the policy that the service runs with is at least 1. Without a policy file it is
  -- the default policy; with one it is what the file's routing section parses to, never a default
  -- in the place of a file that does not parse.
  pub routing_policy_floors :
      (file : Option (Result String)) (policy : RoutingPolicy)
      → routing_policy file ≡ ok policy
      → ((s : Severity) (n : ℤ) → policy.min_approvals_by_severity s ≡ some n → pos 1 ≤ℤ n)
        × (file ≡ none → policy ≡ default_routing)
        × ((contents : Result String)
            → file ≡ some contents
            → (text : String) × (document : Json Float) × (section : Fields Float) × (contents
                ≡ ok text)
              × (loads text ≡ ok document)
              × (routing_section document ≡ ok section)
              × (from_mapping to_severity to_int to_str to_bool section ≡ ok policy))
  unfolding routing_policy
  routing_policy_floors none policy h =
      let same : default_routing ≡ policy = cc h in
      (
        (λ s n e.
            default_floors s n
              (ap (λ (p : RoutingPolicy). p.min_approvals_by_severity s) same ∙ e)),
        (λ e. sym same),
        (λ contents e. cc e),
      )
  routing_policy_floors (some contents) policy h =
      let (text, read, h1) = bind_ok contents _ h in
      let (document, parsed, h2) = bind_ok (loads text) _ h1 in
      let (section, found, made) = bind_ok (routing_section document) _ h2 in
      (
        (λ s n e. from_mapping_floors to_severity to_int to_str to_bool section policy s n made e),
        (λ e. cc e),
        (λ own e.
            let same : contents ≡ own = cc e in
            (text, document, section, sym same ∙ read, parsed, found, made)),
      )
