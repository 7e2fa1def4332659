-- ===== src/Service/Queue.antt =====
-- services/network-observation/service/BoundedObservationQueue.h and ObservationItem.h. The storage,
-- `thread_safe::bounded_queue`, is not part of the repository: it is a parameter, with what its use
-- here relies on. A call of the queue is one step, since the storage locks.
pub mod Losses
pub mod Room
pub mod Contents
use rmc_fabric.Base.{
  ℕ, suc, ◌+◌, ◌/◌, ◌%◌, ◌<◌, ◌==◌, ◌≡◌, ◌≤◌, Bool, true, false, List, [], ◌∷◌, ◌++◌, Option, none,
  some, if◌then◌else◌, is_some, not,
}
use rmc_fabric.Model.Types.{
  LinkObservation, AddressObservation, NeighborObservation, FdbObservation, LldpObservation,
}
use rmc_fabric.Transports.Codec.Checks.{length}

pub data ObservationSource : Type 0 where
  netlink lldp : ObservationSource

-- `1u << source`
unfoldable pub source_bit : ObservationSource → ℕ
source_bit netlink = 1
source_bit lldp = 2

pub data ObservationPayload : Type 0 where
  link : LinkObservation → ObservationPayload
  address : AddressObservation → ObservationPayload
  neighbor : NeighborObservation → ObservationPayload
  fdb : FdbObservation → ObservationPayload
  lldp : LldpObservation → ObservationPayload

pub record ObservationItem : Type 0 where
  pub source : ObservationSource
  pub payload : ObservationPayload

-- `mask & bit`, and `fetch_or` of one bit.
unfoldable pub has_bit : ℕ → ObservationSource → Bool
has_bit mask source = (mask / source_bit source) % 2 == 1

unfoldable pub fetch_or : ℕ → ObservationSource → ℕ
fetch_or mask source = if has_bit mask source then mask else mask + source_bit source

-- `push` also hands the item that it discards to the drop hook.
pub record BoundedQueue (Q : Type 0) : Type 0 where
  pub items : Q → List ObservationItem
  pub capacity : Q → ℕ
  pub closed : Q → Bool
  pub push : ObservationItem → Q → Q × Option ObservationItem
  pub try_pop : Q → Q × Option ObservationItem
  pub discard_all : Q → Q
  pub close : Q → Q
  pub reopen : Q → Q

-- First in, first out; a push into a full queue discards the oldest item; a closed queue ignores a
-- push.
pub record IsBoundedQueue {Q : Type 0} (s : BoundedQueue Q) : Type 0 where
  pub push-closed : (a : ObservationItem) (q : Q) → s.closed q ≡ true → s.push a q ≡ (q, none)
  pub push_room :
      (a : ObservationItem) (q : Q)
      → s.closed q ≡ false
      → length (s.items q) < s.capacity q
      → (s.items (s.push a q).0 ≡ s.items q ++ (a ∷ [])) × ((s.push a q).1 ≡ none)
  pub push_full :
      (a x : ObservationItem) (xs : List ObservationItem) (q : Q)
      → s.closed q ≡ false
      → s.items q ≡ x ∷ xs
      → s.capacity q ≤ length (s.items q)
      → (s.items (s.push a q).0 ≡ xs ++ (a ∷ [])) × ((s.push a q).1 ≡ some x)
  pub closed-push : (a : ObservationItem) (q : Q) → s.closed (s.push a q).0 ≡ s.closed q
  pub capacity-push : (a : ObservationItem) (q : Q) → s.capacity (s.push a q).0 ≡ s.capacity q
  pub try_pop_empty : (q : Q) → s.items q ≡ [] → s.try_pop q ≡ (q, none)
  pub try_pop_some :
      (x : ObservationItem) (xs : List ObservationItem) (q : Q)
      → s.items q ≡ x ∷ xs
      → (s.items (s.try_pop q).0 ≡ xs) × ((s.try_pop q).1 ≡ some x)
  pub closed-try_pop : (q : Q) → s.closed (s.try_pop q).0 ≡ s.closed q
  pub capacity-try_pop : (q : Q) → s.capacity (s.try_pop q).0 ≡ s.capacity q
  pub items-discard_all : (q : Q) → s.items (s.discard_all q) ≡ []
  pub capacity-discard_all : (q : Q) → s.capacity (s.discard_all q) ≡ s.capacity q
  pub closed-discard_all : (q : Q) → s.closed (s.discard_all q) ≡ s.closed q
  pub closed-close : (q : Q) → s.closed (s.close q) ≡ true
  pub items-close : (q : Q) → s.items (s.close q) ≡ s.items q
  pub closed-reopen : (q : Q) → s.closed (s.reopen q) ≡ false
  pub items-reopen : (q : Q) → s.items (s.reopen q) ≡ []

pub record BoundedObservationQueue (Q : Type 0) : Type 0 where
  pub queue : Q
  pub resync_mask : ℕ

-- The drop hook.
unfoldable pub note_dropped : ℕ → Option ObservationItem → ℕ
note_dropped mask none = mask
note_dropped mask (some discarded) = fetch_or mask discarded.source

module _ {Q : Type 0} ⦃s : BoundedQueue Q⦄ where
  -- The result is false exactly when an item was discarded.
  unfoldable pub push :
      BoundedObservationQueue Q → ObservationItem → BoundedObservationQueue Q × Bool
  push b item =
      let (queue, discarded) = s.push item b.queue in
      (
        record { queue = queue; resync_mask = note_dropped b.resync_mask discarded },
        not (is_some discarded),
      )

  -- One push after the other.
  abbrev pub push_all : List ObservationItem → BoundedObservationQueue Q → BoundedObservationQueue Q
  push_all [] b = b
  push_all (item ∷ items) b = push_all items (push b item).0

  unfoldable pub try_pop :
      BoundedObservationQueue Q → BoundedObservationQueue Q × Option ObservationItem
  try_pop b = let (queue, item) = s.try_pop b.queue in (record b { queue = queue }, item)

  unfoldable pub discard_all : BoundedObservationQueue Q → BoundedObservationQueue Q
  discard_all b = record b { queue = s.discard_all b.queue }

  -- `exchange(0)`
  unfoldable pub take_resync_mask : BoundedObservationQueue Q → BoundedObservationQueue Q × ℕ
  take_resync_mask b = (record b { resync_mask = 0 }, b.resync_mask)

  unfoldable pub raise_resync :
      BoundedObservationQueue Q → ObservationSource → BoundedObservationQueue Q
  raise_resync b source = record b { resync_mask = fetch_or b.resync_mask source }

  unfoldable pub reopen : BoundedObservationQueue Q → BoundedObservationQueue Q
  reopen b = record { queue = s.reopen b.queue; resync_mask = 0 }

  unfoldable pub close : BoundedObservationQueue Q → BoundedObservationQueue Q
  close b = record b { queue = s.close b.queue }
