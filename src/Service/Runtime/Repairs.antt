-- ===== src/Service/Runtime/Repairs.antt =====
-- What the two repairs of a resync leave of the resync bits, and in the queue.
use rmc_fabric.Base.{
  ℕ, ◌-◌, ◌≤◌, ◌≡◌, refl, sym, ap, ◌∙◌, Bool, true, false, not, ◌&&◌, ◌||◌, ltb, List, [], ◌++◌,
  Option, none, some, if◌then◌else◌, arith, Bool-cases, inl, inr,
}
use rmc_fabric.Transports.Codec.Checks.{length}
use rmc_fabric.Service.Queue.{
  ObservationItem, netlink, BoundedQueue, IsBoundedQueue, discard_all, push_all, raise_resync,
}
use rmc_fabric.Service.Queue.Losses.{append_nothing}
use rmc_fabric.Service.Queue.Room.{length-append}
use rmc_fabric.Service.Queue.Contents.{
  Holds, push_all-Holds, raise_netlink-Holds, raise_lldp-Holds, relabelled,
}
use rmc_fabric.Service.Supervision.{LldpObserver, Supervision, reconnect_lldp}
use rmc_fabric.Service.Callbacks.{
  MonitorEvent, Monitor, Runtime, lldp_items, deliver_lldp, notify_all,
}
use rmc_fabric.Service.Callbacks.Items.{items_of_all, observer_after, notify_all_lem}
use rmc_fabric.Service.Runtime.{redump, resync_netlink, resync_lldp, resync_observer}

module _ {O : Type 0} ⦃l : LldpObserver O⦄ where
  -- An observer is there, and its last reconnect is less than 30 seconds ago, or its refresh fails.
  abbrev pub unrepaired : ℕ → Supervision O → Option O → Bool
  unrepaired now s none = false
  unrepaired now s (some o) =
      ltb (now - s.last_reconnect) 30000000000 || not (l.refresh_all now o).1

  -- What the observer's refresh delivers, if it is not too early for one.
  abbrev pub refreshed : ℕ → Supervision O → Option O → List ObservationItem
  refreshed now s none = []
  refreshed now s (some o) =
      if ltb (now - s.last_reconnect) 30000000000 then [] else lldp_items (l.refresh_all now o).2

module _ {M : Type 0} ⦃m : Monitor M⦄ where
  -- There is a monitor, and its redump is completed.
  abbrev pub redumped : ℕ → Option M → Bool
  redumped now none = false
  redumped now (some monitor) = (m.request_redump now monitor).1

  -- The events of the redump.
  abbrev pub replayed : ℕ → Option M → List (MonitorEvent × ℕ)
  replayed now none = []
  replayed now (some monitor) = (m.request_redump now monitor).2

module _ {O : Type 0} ⦃l : LldpObserver O⦄ where
  reconnect_answer :
      (now : ℕ) (s : Supervision O) (o : O)
      → (not (reconnect_lldp s o now).1 ≡ unrepaired now s (some o))
        × (lldp_items (reconnect_lldp s o now).2 ≡ refreshed now s (some o))
  unfolding reconnect_lldp
  reconnect_answer now s o = elim (Bool-cases (ltb (now - s.last_reconnect) 30000000000)) [
    | inl early ↦ rw early (refl, refl)
    | inr late ↦ rw late (refl, refl)
  ]

module _ {M : Type 0} ⦃m : Monitor M⦄ where
  redump_answer :
      (now : ℕ) (monitor : Option M)
      → ((redump now monitor).1 ≡ redumped now monitor)
        × ((redump now monitor).2 ≡ replayed now monitor)
  redump_answer now none = (refl, refl)
  redump_answer now (some monitor) = (refl, refl)

module _ {Q O M : Type 0} ⦃q : BoundedQueue Q⦄ ⦃l : LldpObserver O⦄ (laws : IsBoundedQueue q) where
  replay-Holds :
      (events : List (MonitorEvent × ℕ)) (done : Bool) (r : Runtime Q O M) (size : ℕ)
      → Holds r.observations size [] false false
      → length (items_of_all events r.supervision.observer) ≤ size
      → let x = notify_all events r in
        Holds
          (if done then x.observations else raise_resync x.observations netlink)
          size
          (items_of_all events r.supervision.observer)
          (not done)
          false
        × (x.supervision
            ≡ record r.supervision { observer = observer_after events r.supervision.observer })
  replay-Holds events done r size h room =
      let xs = items_of_all events r.supervision.observer in
      rw (notify_all_lem events r) (
        raise_netlink-Holds (push_all xs r.observations) size xs false done
            (push_all-Holds laws xs [] r.observations size false false h (omega arith)),
        refl,
      )

module _ {Q O M : Type 0} ⦃q : BoundedQueue Q⦄ ⦃l : LldpObserver O⦄ ⦃m : Monitor M⦄
    (laws : IsBoundedQueue q) where
  observer-Holds :
      (now : ℕ) (r : Runtime Q O M) (o : Option O) (size : ℕ) (items : List ObservationItem)
      (n : Bool)
      → Holds r.observations size items n false
      → length (items ++ refreshed now r.supervision o) ≤ size
      → Holds
          (resync_observer now r o).observations
          size
          (items ++ refreshed now r.supervision o)
          n
          (unrepaired now r.supervision o)
  unfolding deliver_lldp
  observer-Holds now r none size items n h room =
      relabelled h (sym (append_nothing items)) refl refl
  observer-Holds now r (some o) size items n h room =
      let (repair, heard) = reconnect_answer now r.supervision o in
      let xs = lldp_items (reconnect_lldp r.supervision o now).2 in
      let all : items ++ xs ≡ items ++ refreshed now r.supervision (some o) =
        ap (λ l. items ++ l) heard in
      relabelled
        (raise_lldp-Holds (push_all xs r.observations) size (items ++ xs) n
          (reconnect_lldp r.supervision o now).1
          (push_all-Holds laws xs items r.observations size n false h
            (omega (arith, ap length all, length-append items xs))))
        all refl repair

  netlink-Holds :
      (now : ℕ) (r : Runtime Q O M) (size : ℕ) (items : List ObservationItem)
      → Holds r.observations size items false false
      → length (items_of_all (replayed now r.monitor) r.supervision.observer) ≤ size
      → Holds
          (resync_netlink now r).observations
          size
          (items_of_all (replayed now r.monitor) r.supervision.observer)
          (not (redumped now r.monitor))
          false
        × ((resync_netlink now r).supervision ≡ record r.supervision {
          observer = observer_after (replayed now r.monitor) r.supervision.observer;
        })
  unfolding resync_netlink discard_all
  netlink-Holds now r size items h room =
      let (done, events) = redump_answer now r.monitor in
      let cleared = record r {
        monitor = (redump now r.monitor).0;
        observations = discard_all r.observations;
      } in
      let empty : Holds cleared.observations size [] false false = record {
        ready = laws.closed-discard_all r.observations.queue ∙ h.ready;
        capacity = laws.capacity-discard_all r.observations.queue ∙ h.capacity;
        queued = laws.items-discard_all r.observations.queue;
        netlink_bit = h.netlink_bit;
        lldp_bit = h.lldp_bit;
      } in
      rw (← done, ← events)
        (replay-Holds laws (redump now r.monitor).2 (redump now r.monitor).1 cleared size empty
          (rw events room))

  pub netlink_part :
      (now : ℕ) (r : Runtime Q O M) (size : ℕ) (items : List ObservationItem) (set : Bool)
      → Holds r.observations size items false false
      → length (if set then items_of_all (replayed now r.monitor) r.supervision.observer else items)
        ≤ size
      → let r' = if set then resync_netlink now r else r in
        Holds r'.observations size
          (if set then items_of_all (replayed now r.monitor) r.supervision.observer else items)
          (set && not (redumped now r.monitor))
          false
        × (r'.supervision ≡ record r.supervision {
          observer =
              if set
              then observer_after (replayed now r.monitor) r.supervision.observer
              else r.supervision.observer;
        })
  netlink_part now r size items true h room = netlink-Holds now r size items h room
  netlink_part now r size items false h room = (h, refl)

  pub lldp_part :
      (now : ℕ) (r : Runtime Q O M) (size : ℕ) (items : List ObservationItem) (n set : Bool)
      → Holds r.observations size items n false
      → length (items ++ (if set then refreshed now r.supervision r.supervision.observer else []))
        ≤ size
      → Holds
          (if set then resync_lldp now r else r).observations
          size
          (items ++ (if set then refreshed now r.supervision r.supervision.observer else []))
          n
          (set && unrepaired now r.supervision r.supervision.observer)
  unfolding resync_lldp
  lldp_part now r size items n true h room =
      observer-Holds now r r.supervision.observer size items n h room
  lldp_part now r size items n false h room = relabelled h (sym (append_nothing items)) refl refl
