-- ===== src/Service/Queue/Contents.antt =====
-- A queue by its capacity, its items and its resync bits.
use rmc_fabric.Base.{
  ℕ, ◌+◌, ◌≤◌, ◌≡◌, ap, ◌∙◌, Bool, true, false, not, List, ◌++◌, if◌then◌else◌, arith,
}
use rmc_fabric.Transports.Codec.Checks.{length}
use rmc_fabric.Service.Queue.{
  ObservationItem, netlink, lldp, has_bit, BoundedQueue, IsBoundedQueue, BoundedObservationQueue,
  push_all, raise_resync,
}
use rmc_fabric.Service.Queue.Losses.{has_bit-fetch_or}
use rmc_fabric.Service.Queue.Room.{push_all_room}

module _ {Q : Type 0} ⦃q : BoundedQueue Q⦄ where
  -- An open queue of that capacity with those items and resync bits.
  pub record Holds (b : BoundedObservationQueue Q) (size : ℕ) (items : List ObservationItem)
      (netlink_set lldp_set : Bool) : Type 0 where
    pub ready : q.closed b.queue ≡ false
    pub capacity : q.capacity b.queue ≡ size
    pub queued : q.items b.queue ≡ items
    pub netlink_bit : has_bit b.resync_mask netlink ≡ netlink_set
    pub lldp_bit : has_bit b.resync_mask lldp ≡ lldp_set

module _ {Q : Type 0} ⦃q : BoundedQueue Q⦄ (laws : IsBoundedQueue q) where
  -- Items for which there is room come at the end, and leave the bits.
  pub push_all-Holds :
      (xs items : List ObservationItem) (b : BoundedObservationQueue Q) (size : ℕ) (n s : Bool)
      → Holds b size items n s
      → length items + length xs ≤ size
      → Holds (push_all xs b) size (items ++ xs) n s
  push_all-Holds xs items b size n s h room =
      let old : length (q.items b.queue) ≡ length items = ap length h.queued in
      let (all, bits, taking, same) =
        push_all_room laws xs b h.ready (omega (arith, old, h.capacity)) in
      record {
        ready = taking;
        capacity = same ∙ h.capacity;
        queued = all ∙ ap (λ l. l ++ xs) h.queued;
        netlink_bit = ap (λ mask. has_bit mask netlink) bits ∙ h.netlink_bit;
        lldp_bit = ap (λ mask. has_bit mask lldp) bits ∙ h.lldp_bit;
      }

module _ {Q : Type 0} ⦃q : BoundedQueue Q⦄ where
  -- The bit of a source is raised unless its repair is done.
  pub raise_netlink-Holds :
      (b : BoundedObservationQueue Q) (size : ℕ) (items : List ObservationItem) (s done : Bool)
      → Holds b size items false s
      → Holds (if done then b else raise_resync b netlink) size items (not done) s
  unfolding raise_resync
  raise_netlink-Holds b size items s true h = h
  raise_netlink-Holds b size items s false h = record {
    ready = h.ready;
    capacity = h.capacity;
    queued = h.queued;
    netlink_bit = has_bit-fetch_or b.resync_mask netlink netlink;
    lldp_bit = has_bit-fetch_or b.resync_mask netlink lldp ∙ h.lldp_bit;
  }

  -- So with the other source.
  pub raise_lldp-Holds :
      (b : BoundedObservationQueue Q) (size : ℕ) (items : List ObservationItem) (n done : Bool)
      → Holds b size items n false
      → Holds (if done then b else raise_resync b lldp) size items n (not done)
  unfolding raise_resync
  raise_lldp-Holds b size items n true h = h
  raise_lldp-Holds b size items n false h = record {
    ready = h.ready;
    capacity = h.capacity;
    queued = h.queued;
    netlink_bit = has_bit-fetch_or b.resync_mask lldp netlink ∙ h.netlink_bit;
    lldp_bit = has_bit-fetch_or b.resync_mask lldp lldp;
  }

  pub relabelled :
      {b : BoundedObservationQueue Q} {size : ℕ} {items items' : List ObservationItem}
      {n n' s s' : Bool}
      → Holds b size items n s
      → items ≡ items'
      → n ≡ n'
      → s ≡ s'
      → Holds b size items' n' s'
  relabelled h e en es = record {
    ready = h.ready;
    capacity = h.capacity;
    queued = h.queued ∙ e;
    netlink_bit = h.netlink_bit ∙ en;
    lldp_bit = h.lldp_bit ∙ es;
  }
