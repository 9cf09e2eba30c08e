-- ===== src/Tests/Consoles.antt =====
-- A console over the SQLite store: a review that is submitted and approved by two checkers, a
-- producer's retry, and a disposition of another tenant's or of a resolved review.
use mathlib.Core.List.{Memᴰ}
use human_review_console.Prelude.{
  true, false, ◌≡◌, refl, Option, none, some, eq_iff, elem, Distinct, All,
}
use human_review_console.Prelude.Int.{pos, ◌≤ℤ◌}
use human_review_console.Kernel.{approved, pending}
use human_review_console.Models.{ReviewItem, approvers, approvals_count, is_terminal}
use human_review_console.Errors.{ok, err, runtime_error, review_not_found, already_resolved}
use human_review_console.MakerChecker.{
  default_routing, required_approvals, dispose, check_eligibility,
}
use human_review_console.Stores.ReviewPort.{ReviewStorePort, IsLawful}
use human_review_console.Stores.Reviews.{
  find_by_source_key, put, upsert, get, insert_or_skip, created_or_found,
  put_if_absent_by_source_key,
}
use human_review_console.Stores.Reviews.Lawful.{local_reviews, local_reviews-IsLawful}
use human_review_console.Console.{
  Sink, accepting, submit_idempotent_recording, dispose_recording, World, submit, submit_idempotent,
  dispose_review, list_queue, new_item, with_effective_routing, store_put, store_put_if_absent,
}
use human_review_console.Console.Recording.{Settled, dispose_recording-Settled}
use human_review_console.Console.Trust.{IsSignedOff}
use human_review_console.Console.Reach.{
  submits, disposes, Reach, here, next, start, Reach-IsConsistent, approved_item-IsSignedOff,
}
use human_review_console.Console.Frame.{dispose_touches_one, dispose_refuses}
use human_review_console.Console.Retries.{retry_returns_first, unrecorded_submission}
use human_review_console.Console.Queue.{list_queue_iff}
use human_review_console.Tests.Samples.{noon, later, identity_codec, mask, submission, approval_by}

abbrev pub store : ReviewStorePort
store = local_reviews identity_codec

abbrev pub lawful : IsLawful store
lawful = local_reviews-IsLawful identity_codec

abbrev pub empty_console : World store
empty_console = start store lawful mask default_routing

abbrev pub submitted : World store
submitted = (submit store mask default_routing (submission "r1" "") noon later empty_console).1

abbrev once_approved : World store
once_approved =
    (dispose_review store mask default_routing (approval_by "first") later later submitted).1

abbrev twice_approved : World store
twice_approved =
    (dispose_review store mask default_routing (approval_by "second") later later once_approved).1

abbrev reached : Reach store lawful mask default_routing empty_console twice_approved
reached =
    next
      (next (next here (submits (submission "r1" "") noon later empty_console))
        (disposes (approval_by "first") later later submitted))
      (disposes (approval_by "second") later later once_approved)

abbrev item_of : Option ReviewItem → ReviewItem
item_of (some item) = item
item_of none = new_item default_routing (submission "" "") noon

abbrev approved_item : ReviewItem
approved_item = item_of (store.get "demo-bank" "r1" twice_approved.store)

found_approved : store.get "demo-bank" "r1" twice_approved.store ≡ some approved_item
unfolding submit dispose_review new_item with_effective_routing required_approvals dispose
    check_eligibility put upsert get store_put
found_approved = refl

is_approved : approved_item.state ≡ approved
unfolding submit dispose_review new_item with_effective_routing required_approvals dispose
    check_eligibility put upsert get store_put
is_approved = refl

approved_item-IsSignedOff_example :
    (required_approvals default_routing approved_item ≤ℤ pos (approvals_count approved_item))
    × Distinct (approvers approved_item)
    × (elem approved_item.request.maker (approvers approved_item) ≡ false)
    × All (IsSignedOff mask twice_approved.audit approved_item) approved_item.approvals
approved_item-IsSignedOff_example =
    approved_item-IsSignedOff store lawful mask default_routing "demo-bank" "r1" approved_item
      reached found_approved is_approved

-- A log that is full: its `record` raises.
abbrev full : Sink
full event events = err runtime_error

-- The item of the allowed outcome is stored, and the trail does not have its event.
dispose_recording-Settled_example :
    Settled store mask default_routing full (approval_by "second") later later once_approved (
      dispose_recording store mask default_routing full
        (approval_by "second")
        later
        later
        once_approved)
dispose_recording-Settled_example =
    dispose_recording-Settled store mask default_routing full (approval_by "second") later later
      once_approved

unrecorded_approval :
    (dispose_recording store mask default_routing full
      (approval_by "second")
      later
      later
      once_approved)
    ≡ (err runtime_error, record once_approved { store = twice_approved.store })
unfolding dispose_recording dispose_review new_item with_effective_routing required_approvals
    dispose check_eligibility put upsert get store_put submit
unrecorded_approval = refl

IsValid-before : lawful.IsValid once_approved.store
IsValid-before =
    (Reach-IsConsistent store lawful mask default_routing (
      next (next here (submits (submission "r1" "") noon later empty_console))
        (disposes (approval_by "first") later later submitted))).valid

IsValid-after : lawful.IsValid twice_approved.store
IsValid-after = (Reach-IsConsistent store lawful mask default_routing reached).valid

dispose_touches_one_example :
    store.get "other-bank" "r1"
      (dispose_review store mask default_routing
        (approval_by "second")
        later
        later
        once_approved).1.store
    ≡ store.get "other-bank" "r1" once_approved.store
dispose_touches_one_example =
    dispose_touches_one store lawful mask default_routing (approval_by "second") later later
      once_approved "other-bank" "r1" IsValid-before refl

dispose_refuses_example :
    (store.get "demo-bank" "r1" twice_approved.store ≡ none
      → dispose_review store mask default_routing (approval_by "third") later later twice_approved
        ≡ (err (review_not_found "r1"), twice_approved))
    × ((item : ReviewItem)
        → lawful.IsValid twice_approved.store
        → store.get "demo-bank" "r1" twice_approved.store ≡ some item
        → is_terminal item ≡ true
        → dispose_review store mask default_routing (approval_by "third") later later twice_approved
          ≡ (err (already_resolved "r1" item.state), twice_approved))
dispose_refuses_example =
    dispose_refuses store lawful mask default_routing (approval_by "third") later later
      twice_approved

is_resolved : is_terminal approved_item ≡ true
unfolding submit dispose_review new_item with_effective_routing required_approvals dispose
    check_eligibility put upsert get store_put
is_resolved = refl

third_refused :
    dispose_review store mask default_routing (approval_by "third") later later twice_approved
    ≡ (err (already_resolved "r1" approved_item.state), twice_approved)
third_refused =
    (dispose_refuses store lawful mask default_routing (approval_by "third") later later
        twice_approved).1
      approved_item IsValid-after found_approved is_resolved

abbrev produced : World store
produced =
    (submit_idempotent store mask default_routing (submission "r2" "k") noon later empty_console).1

abbrev produced_item : ReviewItem
produced_item = new_item default_routing (submission "r2" "k") noon

first_returns :
    submit_idempotent store mask default_routing (submission "r2" "k") noon later empty_console
    ≡ (ok produced_item, produced)
unfolding submit_idempotent store_put_if_absent put_if_absent_by_source_key insert_or_skip
    created_or_found new_item with_effective_routing required_approvals
first_returns = refl

retry_returns_first_example :
    submit_idempotent store mask default_routing (submission "r3" "k") later later produced
    ≡ (ok produced_item, produced)
retry_returns_first_example =
    retry_returns_first store lawful mask default_routing (submission "r2" "k")
      (submission "r3" "k") noon later later later empty_console produced produced_item
      lawful.empty-IsValid (λ e. cc ((eq_iff "k" "").1 e)) refl refl first_returns

none_taken : store.find_by_source_key "demo-bank" "k" empty_console.store ≡ none
unfolding find_by_source_key
none_taken = refl

first_stored :
    store.put_if_absent_by_source_key produced_item empty_console.store
    ≡ ok (produced_item, true, produced.store)
unfolding submit_idempotent store_put_if_absent put_if_absent_by_source_key insert_or_skip
    created_or_found new_item with_effective_routing required_approvals
first_stored = refl

unrecorded_submission_example :
    (submit_idempotent_recording store mask default_routing full
        (submission "r2" "k")
        noon
        later
        empty_console
      ≡ (err runtime_error, record empty_console { store = produced.store }))
    × (store.find_by_source_key "demo-bank" "k" produced.store ≡ some produced_item)
    × (submit_idempotent_recording store mask default_routing accepting
          (submission "r3" "k")
          later
          later
          (record empty_console { store = produced.store })
        ≡ (
          ok (with_effective_routing default_routing produced_item),
          record empty_console { store = produced.store },
        ))
unrecorded_submission_example =
    unrecorded_submission store lawful mask default_routing full accepting (submission "r2" "k")
      (submission "r3" "k") noon later later later empty_console produced_item true produced.store
      runtime_error lawful.empty-IsValid (λ e. cc ((eq_iff "k" "").1 e)) refl refl none_taken
      first_stored refl

list_queue_iff_example :
    (Memᴰ approved_item (list_queue store mask default_routing "demo-bank" twice_approved)
      → (stored : ReviewItem) × (store.get "demo-bank" stored.review_id twice_approved.store
          ≡ some stored)
        × (stored.tenant ≡ "demo-bank")
        × (stored.state ≡ pending)
        × (approved_item ≡ with_effective_routing default_routing stored))
    × (store.get "demo-bank" approved_item.review_id twice_approved.store ≡ some approved_item
        → approved_item.state ≡ pending
        → Memᴰ
            (with_effective_routing default_routing approved_item)
            (list_queue store mask default_routing "demo-bank" twice_approved))
list_queue_iff_example =
    list_queue_iff store lawful mask default_routing "demo-bank" twice_approved approved_item
      IsValid-after
