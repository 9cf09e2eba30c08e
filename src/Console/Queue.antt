-- ===== src/Console/Queue.antt =====
-- What the queue of a tenant shows.
use mathlib.Core.List.{Memᴰ}
use human_review_console.Prelude.{
  String, Bool, not, ◌≡◌, sym, subst, some, arith, mem-keep_of, of_mem-keep, of_mem-map, mem-map_of,
  eq_iff,
}
use human_review_console.Kernel.{pending}
use human_review_console.Models.{ReviewItem, is_terminal}
use human_review_console.MakerChecker.{RoutingPolicy}
use human_review_console.Stores.ReviewPort.{ReviewStorePort, IsLawful}
use human_review_console.Console.{World, with_effective_routing, list_queue}

module _ (port : ReviewStorePort) (lawful : IsLawful port) (redact : String → String)
    (policy : RoutingPolicy) where
  -- Over a store in its invariant, the queue of a tenant shows exactly the pending items that the
  -- tenant has stored, each with the number of approvals that the policy requires of it.
  pub list_queue_iff :
      (tenant : String) (w : World port) (item : ReviewItem)
      → lawful.IsValid w.store
      → (Memᴰ item (list_queue port redact policy tenant w)
          → (stored : ReviewItem) × (port.get tenant stored.review_id w.store ≡ some stored)
            × (stored.tenant ≡ tenant)
            × (stored.state ≡ pending)
            × (item ≡ with_effective_routing policy stored))
        × (port.get tenant item.review_id w.store ≡ some item
            → item.state ≡ pending
            → Memᴰ (with_effective_routing policy item) (list_queue port redact policy tenant w))
  unfolding list_queue
  list_queue_iff tenant w item valid = (shown, listed)
    where
      open_items : ReviewItem → Bool
      open_items i = not (is_terminal i)

      shown :
          Memᴰ item (list_queue port redact policy tenant w)
          → (stored : ReviewItem) × (port.get tenant stored.review_id w.store ≡ some stored)
            × (stored.tenant ≡ tenant)
            × (stored.state ≡ pending)
            × (item ≡ with_effective_routing policy stored)
      shown m =
          let (stored, in_pending, routed) =
            of_mem-map (with_effective_routing policy) item (port.list_pending tenant w.store) m in
          let (in_all, still_open) =
            of_mem-keep (λ (i : ReviewItem). not (is_terminal i)) stored
              (port.list_all tenant w.store)
              (subst (Memᴰ stored) (lawful.list_pending_lem w.store tenant) in_pending) in
          let found = (lawful.mem-list_all stored w.store tenant valid).0 in_all in
          let key = lawful.get-scoped stored w.store tenant stored.review_id valid found in
          (stored, found, ground (arith, eq_iff stored.tenant tenant), ground arith, sym routed)

      listed :
          port.get tenant item.review_id w.store ≡ some item
          → item.state ≡ pending
          → Memᴰ (with_effective_routing policy item) (list_queue port redact policy tenant w)
      listed found p =
          mem-map_of (with_effective_routing policy) item (port.list_pending tenant w.store) (
            subst (Memᴰ item) (sym (lawful.list_pending_lem w.store tenant)) (
              mem-keep_of (λ (i : ReviewItem). not (is_terminal i)) item
                (port.list_all tenant w.store)
                ((lawful.mem-list_all item w.store tenant valid).1 found) (ground arith)))
