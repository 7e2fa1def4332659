-- ===== src/Service/Runtime/Resync.antt =====
-- What a resync leaves of the resync bits, and in the queue.
use mathlib.Core.Path.{subst}
use rmc_fabric.Base.{
  ℕ, ◌≤◌, ◌≡◌, refl, false, not, ◌&&◌, List, [], ◌++◌, Option, if◌then◌else◌, arith,
}
use rmc_fabric.Transports.Codec.Checks.{length}
use rmc_fabric.Service.Queue.{
  ObservationSource, ObservationItem, netlink, lldp, has_bit, source_bit, BoundedQueue,
  IsBoundedQueue, take_resync_mask,
}
use rmc_fabric.Service.Queue.Room.{length-append}
use rmc_fabric.Service.Supervision.{LldpObserver}
use rmc_fabric.Service.Callbacks.{Monitor, Runtime}
use rmc_fabric.Service.Callbacks.Items.{items_of_all, observer_after}
use rmc_fabric.Service.Runtime.{resync_netlink, perform_resync}
use rmc_fabric.Service.Queue.Contents.{Holds}
use rmc_fabric.Service.Runtime.Repairs.{
  unrepaired, refreshed, redumped, replayed, netlink_part, lldp_part,
}

no_bit : (source : ObservationSource) → has_bit 0 source ≡ false
unfolding has_bit source_bit
no_bit netlink = refl
no_bit lldp = refl

-- What is there after the netlink part: the backlog, or what the redump replays in its place.
module _ {Q O M : Type 0} ⦃q : BoundedQueue Q⦄ ⦃l : LldpObserver O⦄ ⦃m : Monitor M⦄ where
  abbrev pub restored : ℕ → Runtime Q O M → List ObservationItem
  restored now r =
      if has_bit r.observations.resync_mask netlink
      then items_of_all (replayed now r.monitor) r.supervision.observer
      else q.items r.observations.queue

  -- The observer then.
  abbrev pub observer_then : ℕ → Runtime Q O M → Option O
  observer_then now r =
      if has_bit r.observations.resync_mask netlink
      then observer_after (replayed now r.monitor) r.supervision.observer
      else r.supervision.observer

  -- What the LLDP part adds.
  abbrev pub reconciled : ℕ → Runtime Q O M → List ObservationItem
  reconciled now r =
      if has_bit r.observations.resync_mask lldp
      then refreshed now r.supervision (observer_then now r)
      else []

module _ {Q O M : Type 0} ⦃q : BoundedQueue Q⦄ ⦃l : LldpObserver O⦄ ⦃m : Monitor M⦄
    (laws : IsBoundedQueue q) where
  -- If the queue is open, and has room for what the repairs put in it, then after a resync, which no
  -- other use of the queue interrupts, the netlink bit is set exactly when it was set and the redump
  -- failed, or there is no monitor; the LLDP bit is set exactly when it was set and there is an
  -- observer, as the redump left it, whose last reconnect is less than 30 seconds ago or whose
  -- refresh failed. The queue holds its backlog, or, where the netlink bit was set, in place of that
  -- what the redump replayed, with what the observer delivered for the links; and after it, where
  -- the LLDP bit was set and it was not too early, what the refresh delivered.
  pub has_bit-perform_resync :
      (r : Runtime Q O M) (now : ℕ)
      → q.closed r.observations.queue ≡ false
      → length (restored now r ++ reconciled now r) ≤ q.capacity r.observations.queue
      → (has_bit (perform_resync now r).observations.resync_mask netlink
          ≡ (has_bit r.observations.resync_mask netlink && not (redumped now r.monitor)))
        × (has_bit (perform_resync now r).observations.resync_mask lldp ≡ (
            has_bit r.observations.resync_mask lldp
            && unrepaired now r.supervision (observer_then now r)))
        × (q.items (perform_resync now r).observations.queue ≡ restored now r ++ reconciled now r)
  unfolding perform_resync take_resync_mask
  has_bit-perform_resync r now ready room =
      let size = q.capacity r.observations.queue in
      let n = has_bit r.observations.resync_mask netlink in
      let s = has_bit r.observations.resync_mask lldp in
      let taken = record r { observations = record r.observations { resync_mask = 0 } } in
      let fresh : Holds taken.observations size (q.items r.observations.queue) false false =
        record {
          ready = ready;
          capacity = refl;
          queued = refl;
          netlink_bit = no_bit netlink;
          lldp_bit = no_bit lldp;
        } in
      let (held, watched) =
        netlink_part laws now taken size (q.items r.observations.queue) n fresh
          (omega (arith, room, length-append (restored now r) (reconciled now r))) in
      let r' = if n then resync_netlink now taken else taken in
      let all =
        lldp_part laws now r' size (restored now r) (n && not (redumped now r.monitor)) s held
          (rw watched room) in
      let b = (perform_resync now r).observations in
      (
        all.netlink_bit,
        subst (λ v. has_bit b.resync_mask lldp ≡ (s && unrepaired now v v.observer)) watched
            all.lldp_bit,
        subst
            (λ v.
              q.items b.queue ≡ restored now r ++ (if s then refreshed now v v.observer else []))
            watched all.queued,
      )
