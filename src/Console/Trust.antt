-- ===== src/Console/Trust.antt =====
-- What the stored items and the sign-off trail of a console satisfy, and that each operation
-- keeps it.
use mathlib.Core.List.{Memᴰ}
use mathlib.Core.List.Memᴰ
use human_review_console.Prelude.{
  String, ◌≡◌, refl, sym, ◌∙◌, ap, subst, List, [], ◌∷◌, ◌++◌, All, All-append, inl, inr,
}
use human_review_console.Time.{Datetime}
use human_review_console.Kernel.{SignOffEvent, approve, allowed}
use human_review_console.Models.{ReviewItem, ReviewRequest, Approval}
use human_review_console.Errors.{ok}
use human_review_console.MakerChecker.{
  RoutingPolicy, DispositionOutcome, dispose, apply_disposition, stamp_of, required_approvals,
}
use human_review_console.MakerChecker.Soundness.{
  IsSound, fresh-IsSound, apply-IsSound, outcome_cases,
}
use human_review_console.MakerChecker.Quorum.{apply-approvals, apply-request}
use human_review_console.Stores.ReviewPort.{ReviewStorePort}
use human_review_console.Console.{
  Submission, DisposeRequest, with_effective_routing, new_item, sign_off, decision_of,
}
use human_review_console.Console.Outcomes.{disposition_event}
use human_review_console.Console.Routing.{with_effective_routing_lem, routed-IsSound, with_required}

-- The event is of an allowed approval of the item by the checker of the approval, with the
-- approval's reason in redacted form.
pub record Signs (redact : String → String) (item : ReviewItem) (a : Approval) (e : SignOffEvent)
    : Type 0 where
  pub of_disposal : e.action ≡ "dispose"
  pub in_tenant : e.tenant ≡ item.request.tenant
  pub of_review : e.review_id ≡ item.request.review_id
  pub by_checker : e.checker ≡ a.checker
  pub approving : e.disposition ≡ approve
  pub granted : e.decision ≡ allowed
  pub with_reason : e.redacted_reason ≡ redact a.reason

abbrev pub IsSignedOff : (String → String) → List SignOffEvent → ReviewItem → Approval → Type 0
IsSignedOff redact audit item a = (e : SignOffEvent) × Memᴰ e audit × Signs redact item a e

-- An item whose approvals are sound under the policy and are all in the trail.
abbrev pub IsTrusted : (String → String) → RoutingPolicy → List SignOffEvent → ReviewItem → Type 0
IsTrusted redact policy audit item =
    IsSound policy item × All (IsSignedOff redact audit item) item.approvals

module _ (port : ReviewStorePort) (redact : String → String) (policy : RoutingPolicy) where
  signed_later :
      (audit more : List SignOffEvent) (item : ReviewItem) (l : List Approval)
      → All (IsSignedOff redact audit item) l
      → All (IsSignedOff redact (audit ++ more) item) l
  signed_later audit more item [] h = tt
  signed_later audit more item (a ∷ l) ((e, m, sign), h) =
      ((e, Memᴰ.append_left more m, sign), signed_later audit more item l h)

  signed_same :
      (audit : List SignOffEvent) (item other : ReviewItem) (l : List Approval)
      → item.request.tenant ≡ other.request.tenant
      → item.request.review_id ≡ other.request.review_id
      → All (IsSignedOff redact audit item) l
      → All (IsSignedOff redact audit other) l
  signed_same audit item other [] t r h = tt
  signed_same audit item other (a ∷ l) t r ((e, m, sign), h) = (
    (
      e,
      m,
      record {
        of_disposal = sign.of_disposal;
        in_tenant = sign.in_tenant ∙ t;
        of_review = sign.of_review ∙ r;
        by_checker = sign.by_checker;
        approving = sign.approving;
        granted = sign.granted;
        with_reason = sign.with_reason;
      },
    ),
    signed_same audit item other l t r h,
  )

  pub IsTrusted-append :
      (audit more : List SignOffEvent) (item : ReviewItem)
      → IsTrusted redact policy audit item
      → IsTrusted redact policy (audit ++ more) item
  IsTrusted-append audit more item (s, h) = (s, signed_later audit more item item.approvals h)

  pub IsTrusted-routed :
      (audit : List SignOffEvent) (item : ReviewItem)
      → IsTrusted redact policy audit item
      → IsTrusted redact policy audit (with_effective_routing policy item)
  IsTrusted-routed audit item (s, h) =
      let routed = with_effective_routing_lem policy item in
      (
        routed-IsSound policy item s,
        rw routed (
            signed_same audit item (with_required item (required_approvals policy item))
              item.approvals refl refl h),
      )

  pub IsTrusted-new :
      (audit : List SignOffEvent) (s : Submission) (submitted_at : Datetime)
      → IsTrusted redact policy audit (new_item policy s submitted_at)
  unfolding new_item
  IsTrusted-new audit s submitted_at = IsTrusted-routed audit _ (fresh-IsSound policy _, tt)

  sign_off-Signs :
      (q : DisposeRequest) (o : DispositionOutcome) (stamp recorded_at : Datetime)
      → q.disposition ≡ approve
      → o.decision ≡ allowed
      → Signs redact o.item
          (record { checker = q.checker; reason = q.reason; at = stamp })
          (disposition_event port redact policy q o recorded_at)
  unfolding sign_off
  sign_off-Signs q o stamp recorded_at approving granted = record {
    of_disposal = refl;
    in_tenant = refl;
    of_review = refl;
    by_checker = refl;
    approving = approving;
    granted = granted;
    with_reason = refl;
  }

  -- A disposition of a trusted item leaves a trusted item, once its event is written.
  pub IsTrusted-disposed :
      (audit : List SignOffEvent) (item : ReviewItem) (q : DisposeRequest)
      (now recorded_at : Datetime) (o : DispositionOutcome)
      → dispose policy item (decision_of q now) q.as_of ≡ ok o
      → IsTrusted redact policy audit item
      → IsTrusted redact policy
          (audit ++ disposition_event port redact policy q o recorded_at ∷ [])
          o.item
  IsTrusted-disposed audit item q now recorded_at o settled (s, h) =
      let d = decision_of q now in
      let stamp = stamp_of d q.as_of in
      let event = disposition_event port redact policy q o recorded_at in
      let longer = audit ++ event ∷ [] in
      let (was_pending, cases) = outcome_cases policy item d q.as_of o settled in
      elim cases [
        | inl (refused, same, found, some_found) ↦
            subst (IsTrusted redact policy longer) (sym same)
              (IsTrusted-append audit (event ∷ []) item (s, h))
        | inr (granted, no_findings, eligible, applied) ↦
            let same : o.item.request ≡ item.request =
              ap (λ (i : ReviewItem). i.request) applied
              ∙ apply-request policy item d stamp d.disposition in
            let earlier : All (IsSignedOff redact longer o.item) item.approvals =
              signed_same longer item o.item item.approvals
                (sym (ap (λ (r : ReviewRequest). r.tenant) same))
                (sym (ap (λ (r : ReviewRequest). r.review_id) same))
                (signed_later audit (event ∷ []) item item.approvals h) in
            let approvals : o.item.approvals
                ≡ (apply_disposition policy item d stamp d.disposition).approvals =
              ap (λ (i : ReviewItem). i.approvals) applied in
            (
              subst (IsSound policy) (sym applied)
                  (apply-IsSound policy item d stamp d.disposition eligible s),
              elim (apply-approvals policy item d stamp eligible) [
                | inl unchanged ↦
                    subst (All (IsSignedOff redact longer o.item)) (sym (approvals ∙ unchanged))
                      earlier
                | inr (grown, qualified) ↦
                    subst (All (IsSignedOff redact longer o.item)) (sym (approvals ∙ grown)) (
                      All-append (IsSignedOff redact longer o.item) item.approvals _ earlier (
                        (
                          event,
                          Memᴰ.append_right audit (Memᴰ.head refl),
                          sign_off-Signs q o stamp recorded_at qualified.approves granted,
                        ),
                        tt,
                      ))
              ],
            )
      ]
