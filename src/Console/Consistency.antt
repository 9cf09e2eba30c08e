-- ===== src/Console/Consistency.antt =====
-- What holds of the store and the trail of a console between its calls.
use human_review_console.Prelude.{
  String, Bool, true, false, ◌≡◌, sym, ◌∙◌, ap, subst, some, List, [], ◌∷◌, ◌++◌, Option-cases,
  Bool-cases, inl, inr, if◌then◌else◌, ◌==◌, eq_iff, ne_eq,
}
use human_review_console.Time.{Datetime}
use human_review_console.Kernel.{SignOffEvent}
use human_review_console.Models.{ReviewItem}
use mathlib.Core.List.{append-nil}
use human_review_console.Errors.{Result, ok, err, bind_ok}
use human_review_console.MakerChecker.{RoutingPolicy, DispositionOutcome, is_allowed}
use human_review_console.Stores.ReviewPort.{ReviewStorePort, IsLawful, is_key}
use human_review_console.Console.{
  Submission, DisposeRequest, World, with_effective_routing, new_item, submission_event,
}
use human_review_console.Console.Outcomes.{Disposed, Submitted, SubmittedOnce, disposition_event}
use human_review_console.Console.Trust.{
  IsTrusted, IsTrusted-append, IsTrusted-routed, IsTrusted-new, IsTrusted-disposed,
}

module _ (port : ReviewStorePort) (lawful : IsLawful port) (redact : String → String)
    (policy : RoutingPolicy) where
  pub record IsConsistent (w : World port) : Type 0 where
    pub valid : lawful.IsValid w.store
    pub trusted :
        (tenant review_id : String) (item : ReviewItem)
        → port.get tenant review_id w.store ≡ some item
        → IsTrusted redact policy w.audit item

  -- A write of a trusted item, after the trail has grown.
  written-IsTrusted :
      (w v : World port) (item : ReviewItem) (more : List SignOffEvent)
      → IsConsistent w
      → v.audit ≡ w.audit ++ more
      → ((tenant review_id : String)
          → port.get tenant review_id v.store ≡ (
              if is_key item tenant review_id
              then some item
              else port.get tenant review_id w.store))
      → IsTrusted redact policy (w.audit ++ more) item
      → (tenant review_id : String) (found : ReviewItem)
      → port.get tenant review_id v.store ≡ some found
      → IsTrusted redact policy v.audit found
  written-IsTrusted w v item more c grown look t tenant review_id found h =
      subst (λ (l : List SignOffEvent). IsTrusted redact policy l found) (sym grown)
        (elim (Bool-cases (is_key item tenant review_id)) [
          | inl own ↦
              let same : item ≡ found = cc (rw own at (sym (look tenant review_id) ∙ h)) in
              subst (IsTrusted redact policy (w.audit ++ more)) same t
          | inr other ↦
              let old : port.get tenant review_id w.store ≡ some found =
                rw other at (sym (look tenant review_id) ∙ h) in
              IsTrusted-append port redact policy w.audit more found
                (c.trusted tenant review_id found old)
        ])

  -- The trail grows and the store stays.
  kept-IsConsistent :
      (w v : World port) (more : List SignOffEvent)
      → IsConsistent w
      → v.store ≡ w.store
      → v.audit ≡ w.audit ++ more
      → IsConsistent v
  kept-IsConsistent w v more c same grown = record {
    valid = subst lawful.IsValid (sym same) c.valid;
    trusted = λ tenant review_id item h.
        subst (λ (l : List SignOffEvent). IsTrusted redact policy l item) (sym grown)
          (IsTrusted-append port redact policy w.audit more item
            (c.trusted tenant review_id item (ap (port.get tenant review_id) (sym same) ∙ h)));
  }

  pub Submitted-IsConsistent :
      (s : Submission) (a b : Datetime) (w : World port) (r : Result ReviewItem) (v : World port)
      → IsConsistent w
      → Submitted port redact policy s a b w (r, v)
      → IsConsistent v
  Submitted-IsConsistent s a b w (err e) v c h = subst IsConsistent (sym h) c
  Submitted-IsConsistent s a b w (ok item) v c (new, put, grown) = record {
    valid = lawful.put-IsValid item w.store v.store c.valid put;
    trusted =
        written-IsTrusted w v item (submission_event redact item b ∷ []) c grown
          (λ tenant review_id. lawful.get-put item w.store v.store tenant review_id put)
          (subst (IsTrusted redact policy (w.audit ++ submission_event redact item b ∷ []))
            (sym new) (IsTrusted-new port redact policy _ s a));
  }

  -- A producer's item that was created.
  created-IsConsistent :
      (item : ReviewItem) (created : Bool) (b : Datetime) (w v : World port)
      → IsConsistent w
      → lawful.IsValid v.store
      → ((tenant review_id : String)
          → port.get tenant review_id v.store ≡ (
              if is_key item tenant review_id
              then some item
              else port.get tenant review_id w.store))
      → ((audit : List SignOffEvent) → IsTrusted redact policy audit item)
      → created ≡ true
      → v.audit ≡ (
          if created
          then w.audit ++ submission_event redact (with_effective_routing policy item) b ∷ []
          else w.audit)
      → IsConsistent v
  created-IsConsistent item created b w v c valid look trusted made grown = record {
    valid = valid;
    trusted =
        written-IsTrusted w v item
          (submission_event redact (with_effective_routing policy item) b ∷ []) c (rw made at grown)
          look (trusted _);
  }

  pub SubmittedOnce-IsConsistent :
      (s : Submission) (a b : Datetime) (w : World port) (r : Result ReviewItem) (v : World port)
      → IsConsistent w
      → SubmittedOnce port redact policy s a b w (r, v)
      → IsConsistent v
  SubmittedOnce-IsConsistent s a b w (err e) v c h = subst IsConsistent (sym h) c
  SubmittedOnce-IsConsistent s a b w (ok item) v c (stored, created, put, routed, grown) =
      let new = new_item policy s a in
      let key = new.request.source_key in
      let event : v.audit ≡ (
          if created
          then w.audit ++ submission_event redact (with_effective_routing policy stored) b ∷ []
          else w.audit) =
        subst
          (λ (i : ReviewItem).
            v.audit ≡ (if created then w.audit ++ submission_event redact i b ∷ [] else w.audit))
          routed grown in
      elim (Bool-cases (key == "")) [
        | inl unkeyed ↦
            let (t, written, same) =
              bind_ok (port.put new w.store) (λ t. ok (new, true, t))
                (sym (lawful.absent-unkeyed new w.store ((eq_iff key "").0 unkeyed)) ∙ put) in
            let is_new : new ≡ stored = cc same in
            let is_created : created ≡ true = cc same in
            let is_store : t ≡ v.store = cc same in
            created-IsConsistent stored created b w v c
              (subst lawful.IsValid is_store (lawful.put-IsValid new w.store t c.valid written))
              (λ tenant review_id.
                subst
                  (λ (i : ReviewItem). port.get tenant review_id v.store ≡ (
                    if is_key i tenant review_id
                    then some i
                    else port.get tenant review_id w.store))
                  is_new
                  (lawful.get-put new w.store v.store tenant review_id
                    (written ∙ ap (λ (x : port.Store). ok x) is_store)))
              (λ audit.
                subst (IsTrusted redact policy audit) is_new
                  (IsTrusted-new port redact policy audit s a))
              is_created event
        | inr keyed ↦ elim (Option-cases (port.find_by_source_key new.tenant key w.store)) [
          | inr (old, found) ↦
              let same =
                sym (lawful.absent-found new old w.store (ne_eq key "" keyed) found) ∙ put in
              let not_created : false ≡ created = cc same in
              let same_store : w.store ≡ v.store = cc same in
              kept-IsConsistent w v [] c (sym same_store)
                (rw append-nil (rw (sym not_created) at event))
          | inl free ↦
              let (is_new, is_created, valid, kept, look) =
                lawful.absent-new new stored created w.store v.store c.valid (ne_eq key "" keyed)
                  free put in
              created-IsConsistent stored created b w v c valid
                (λ tenant review_id.
                  subst
                    (λ (i : ReviewItem). port.get tenant review_id v.store ≡ (
                      if is_key i tenant review_id
                      then some i
                      else port.get tenant review_id w.store))
                    (sym is_new) (look tenant review_id))
                (λ audit.
                  subst (IsTrusted redact policy audit) (sym is_new)
                    (IsTrusted-new port redact policy audit s a))
                is_created event
        ]
      ]

  pub Disposed-IsConsistent :
      (q : DisposeRequest) (a b : Datetime) (w : World port) (r : Result DispositionOutcome)
      (v : World port)
      → IsConsistent w
      → Disposed port redact policy q a b w (r, v)
      → IsConsistent v
  Disposed-IsConsistent q a b w (err e) v c h = subst IsConsistent (sym h) c
  Disposed-IsConsistent q a b w (ok o) v c (item, found, settled, grown, on_allowed, on_denied) =
      let event = disposition_event port redact policy q o b in
      let before = c.trusted q.checker_tenant q.review_id item found in
      let after =
        IsTrusted-disposed port redact policy w.audit (with_effective_routing policy item) q a b o
          settled (IsTrusted-routed port redact policy w.audit item before) in
      elim (Bool-cases (is_allowed o)) [
        | inl granted ↦ record {
          valid = lawful.put-IsValid o.item w.store v.store c.valid (on_allowed granted);
          trusted =
              written-IsTrusted w v o.item (event ∷ []) c grown
                (λ tenant review_id.
                  lawful.get-put o.item w.store v.store tenant review_id (on_allowed granted))
                after;
        }
        | inr refused ↦ kept-IsConsistent w v (event ∷ []) c (on_denied refused) grown
      ]
