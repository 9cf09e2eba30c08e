-- ===== src/Identity/Gcp/Reviewed.antt =====
-- What holds of a principal that the IAP adapter resolves.
use Prim.Native.String.{◌++◌ as text_append}
use human_review_console.Prelude.{
  String, true, false, not, ◌&&◌, ◌||◌, ◌≡◌, refl, sym, ◌∙◌, ap, subst, some, List, [], ◌∷◌, ◌==◌,
  elem, keep, Distinct, arith, eq_iff, Bool-cases, Option-cases, inl, inr,
}
use human_review_console.Errors.{Result, ok, bind_ok}
use human_review_console.Json.{Json, Fields, get_field}
use human_review_console.Strings.{strip}
use human_review_console.Identity.{Principal, Headers}
use human_review_console.Identity.Gcp.{
  Kit, required_claims, first_of_each, entitlement_of, groups_of, selected, require_audience,
  verified_claims, text_of, require_entitlements, principal_of, resolve,
}

elem-keep_other :
    (k x : String) (l : List String)
    → elem k (keep (λ j. not (j == x)) l) ≡ (elem k l && not (k == x))
elem-keep_other k x [] = refl
elem-keep_other k x (y ∷ l) =
    ground (arith, elem-keep_other k x l, eq_iff k y, eq_iff k x, eq_iff y x)

keep_other-Distinct :
    (x : String) (l : List String) → Distinct l → Distinct (keep (λ j. not (j == x)) l)
keep_other-Distinct x [] d = tt
keep_other-Distinct x (y ∷ l) d = elim (Bool-cases (y == x)) [
  | inl own ↦ rw own (keep_other-Distinct x l d.1)
  | inr other ↦ rw other (elem-keep_other y x l ∙ rw d.0 refl, keep_other-Distinct x l d.1)
]

first_of_each-Distinct : (l : List String) → Distinct (first_of_each l)
first_of_each-Distinct [] = tt
first_of_each-Distinct (k ∷ l) = (
  elem-keep_other k k (first_of_each l) ∙ ground (arith, eq_iff k k),
  keep_other-Distinct k (first_of_each l) (first_of_each-Distinct l),
)

elem-first_of_each : (k : String) (l : List String) → elem k (first_of_each l) ≡ elem k l
elem-first_of_each k [] = refl
elem-first_of_each k (x ∷ l) =
    ground (arith, elem-keep_other k x (first_of_each l), elem-first_of_each k l, eq_iff k x)

module _ {Float : Type 0} (kit : Kit Float) (audience : String) where
  -- An assertion that was verified for the audience: its algorithm is pinned, its signature holds
  -- for the audience, and its claims are the issuer's, for the audience, with the four names.
  pub record IsVerified (assertion : String) (claims : Fields Float) : Type 0 where
    pub pinned : kit.require_pinned_algorithm assertion ≡ ok tt
    pub signed : kit.verify_token assertion audience ≡ ok claims
    pub complete :
        kit.require_claims claims kit.iap_issuer audience ("iss" ∷ "sub" ∷ "email" ∷ "exp" ∷ [])
        ≡ ok tt

  pub verified_claims-IsVerified :
      (assertion : String) (claims : Fields Float)
      → verified_claims kit audience assertion ≡ ok claims
      → IsVerified assertion claims
  unfolding verified_claims
  verified_claims-IsVerified assertion claims h =
      let (u, pinned, h1) = bind_ok (kit.require_pinned_algorithm assertion) _ h in
      let (found, signed, h2) = bind_ok (kit.verify_token assertion audience) _ h1 in
      let (v, complete, made) =
        bind_ok (kit.require_claims found kit.iap_issuer audience required_claims) (λ _. ok found)
          h2 in
      let same : found ≡ claims = cc made in
      record {
        pinned = pinned;
        signed = signed ∙ ap (λ (x : Fields Float). ok x) same;
        complete =
            ap (λ (x : Fields Float). kit.require_claims x kit.iap_issuer audience required_claims)
              (sym same)
            ∙ complete;
      }

  -- A principal that a reviewed entitlement of the subject grants, under a hosted domain.
  pub record IsGranted (entitlement : Fields Float) (hd : Json Float) (p : Principal) : Type 0 where
    pub own_tenant : p.tenant ≡ text_of kit audience (get_field entitlement "tenant")
    pub has_tenant : (p.tenant == "") ≡ false
    pub in_domain :
        (text_of kit audience (get_field entitlement "hosted_domain") == "") ≡ false
        → (text_of kit audience hd == text_of kit audience (get_field entitlement "hosted_domain"))
          ≡ true
    pub distinct_principals : Distinct p.principals
    pub own_principals :
        (groups : List String) × (groups_of (get_field entitlement "principals") ≡ some groups)
        × ((k : String)
            → elem k p.principals ≡ (k == text_append "user:" p.subject || elem k groups))

  principal_of-IsGranted :
      (subject : String) (entitlement : Fields Float) (hd : Json Float) (p : Principal)
      → principal_of kit audience subject entitlement hd ≡ ok p
      → (p.subject ≡ subject) × IsGranted entitlement hd p
  unfolding principal_of
  principal_of-IsGranted subject entitlement hd p h =
      elim (Option-cases (groups_of (get_field entitlement "principals"))) [
        | inl unlisted ↦ cc (rw (unlisted, principal_of) at h)
        | inr (groups, listed) ↦
            let tenant = text_of kit audience (get_field entitlement "tenant") in
            let domain = text_of kit audience (get_field entitlement "hosted_domain") in
            let names = text_append "user:" subject ∷ groups in
            elim (Bool-cases (tenant == "")) [
              | inl homeless ↦ cc (rw (listed, principal_of, homeless) at h)
              | inr home ↦
                  elim (Bool-cases
                    (not (domain == "") && not (text_of kit audience hd == domain))) [
                      | inl foreign ↦ cc (rw (listed, principal_of, home, foreign) at h)
                      | inr domestic ↦
                          let made : ◌≡◌ {A = Result Principal}
                              (ok (record {
                                subject = subject;
                                principals = first_of_each names;
                                tenant = tenant;
                                assurance = "iap";
                                source = "gcp-iap";
                              }))
                              (ok p) =
                            rw (listed, principal_of, home, domestic) at h in
                          let own : subject ≡ p.subject = cc made in
                          let held : first_of_each names ≡ p.principals = cc made in
                          let at_home : tenant ≡ p.tenant = cc made in
                          (
                            sym own,
                            record {
                              own_tenant = sym at_home;
                              has_tenant = subst (λ (t : String). (t == "") ≡ false) at_home home;
                              in_domain = λ e. ground arith;
                              distinct_principals =
                                  subst Distinct held (first_of_each-Distinct names);
                              own_principals = (
                                groups,
                                listed,
                                λ k.
                                    ap (elem k) (sym held)
                                    ∙ elem-first_of_each k names
                                    ∙ ap
                                        (λ (s : String).
                                          k == text_append "user:" s || elem k groups)
                                        own,
                              );
                            },
                          )
                    ]
            ]
      ]

  -- A principal resolves only from an assertion in the headers whose algorithm is the pinned one,
  -- whose token was verified for the deployment's audience and whose claims passed the check of the
  -- issuer, the audience and the required claims; its email is the subject. It does so only if the reviewed mapping has an
  -- entitlement for that subject. The tenant is that of the entitlement and is not empty, a hosted
  -- domain that it names is that of the claims, and the principals are the subject and the
  -- entitlement's groups, each once.
  pub resolve-IsGranted :
      (entitlements : Fields Float) (headers : Headers) (p : Principal)
      → resolve kit audience entitlements headers ≡ ok p
      → (assertion : String) × (claims : Fields Float) × (entitlement : Fields Float) × (selected
            kit audience headers
          ≡ ok assertion)
        × ((audience == "") ≡ false)
        × IsVerified assertion claims
        × (p.subject ≡ strip (kit.to_str (get_field claims "email")))
        × (entitlement_of entitlements p.subject ≡ some entitlement)
        × IsGranted entitlement (get_field claims "hd") p
  unfolding resolve
  resolve-IsGranted entitlements headers p h =
      let (assertion, chosen, h1) = bind_ok (selected kit audience headers) _ h in
      let (u, set, h2) = bind_ok (require_audience kit audience) _ h1 in
      let (v, mapped, h3) = bind_ok (require_entitlements kit audience entitlements) _ h2 in
      let (claims, verified, h4) = bind_ok (verified_claims kit audience assertion) _ h3 in
      let subject = strip (kit.to_str (get_field claims "email")) in
      elim (Option-cases (entitlement_of entitlements subject)) [
        | inl unknown ↦ cc (rw unknown at h4)
        | inr (entitlement, known) ↦
            let (own, granted) =
              principal_of-IsGranted subject entitlement (get_field claims "hd") p
                (rw known at h4) in
            (
              assertion,
              claims,
              entitlement,
              chosen,
              audience_set u set,
              verified_claims-IsVerified assertion claims verified,
              own,
              ap (entitlement_of entitlements) own ∙ known,
              granted,
            )
      ]
    where
      audience_set :
          (u : Unit {0}) → require_audience kit audience ≡ ok u → (audience == "") ≡ false
      audience_set u set = elim (Bool-cases (audience == "")) [
        | inl missing ↦ cc (rw missing at set)
        | inr present ↦ present
      ]
