-- ===== src/Service/Callbacks/Items.antt =====
-- The items that the callbacks of the monitor push.
use rmc_fabric.Base.{
  ℕ, suc, ◌==◌, codes, ◌≡◌, refl, sym, ◌∙◌, ap, ◌&&◌, Bool, true, false, Bool-cases, inl, inr, List,
  [], ◌∷◌, ◌++◌, Option, none, some, if◌then◌else◌, arith,
}
use rmc_fabric.Model.Types.{LldpObservation, ObservationEvent, FdbEntryKind, NeighborReachability}
use rmc_fabric.Netlink.Types.{FdbEvent, digits}
use rmc_fabric.Service.Mapper.{
  make_callbacks, to_link_observation, to_address_observation, to_neighbor_observation,
  to_fdb_observation, to_obs_event, fdb_to_entry_kind, make_cidr, nud_to_reachability,
}
use rmc_fabric.Service.Queue.{
  netlink, ObservationPayload, link, address, neighbor, fdb, ObservationItem, BoundedQueue,
  BoundedObservationQueue, push, push_all,
}
use rmc_fabric.Service.Supervision.{LldpObserver}
use rmc_fabric.Service.Callbacks.{
  MonitorEvent, link_changed, ip_changed, fdb_changed, neighbor_changed, Runtime, lldp_items,
  deliver_lldp, runtime_sinks, notify, notify_all,
}

abbrev pub present_or_removed : Bool → ObservationEvent
present_or_removed true = ObservationEvent.present
present_or_removed false = ObservationEvent.removed

abbrev pub entry_kind_of : Bool → Bool → FdbEntryKind
entry_kind_of true permanent = FdbEntryKind.local
entry_kind_of false true = FdbEntryKind.static
entry_kind_of false false = FdbEntryKind.dynamic

-- The NUD states of the kernel by their values.
abbrev pub nud_states : List (ℕ × NeighborReachability)
nud_states =
    (1, NeighborReachability.incomplete)
    ∷ (2, NeighborReachability.reachable)
    ∷ (4, NeighborReachability.stale)
    ∷ (8, NeighborReachability.delay)
    ∷ (16, NeighborReachability.probe)
    ∷ (32, NeighborReachability.failed)
    ∷ (64, NeighborReachability.no_arp)
    ∷ (128, NeighborReachability.permanent)
    ∷ []

abbrev pub named_in : List (ℕ × NeighborReachability) → ℕ → NeighborReachability
named_in [] state = NeighborReachability.unknown
named_in ((value, name) ∷ states) state = if state == value then name else named_in states state

-- The observation of an event at a time, with each of its fields.
abbrev pub observation : MonitorEvent → ℕ → ObservationPayload
observation (link_changed e) now = link (record {
  observed_at = now;
  ifindex = e.ifindex;
  ifname = e.ifname;
  mac = e.mac;
  admin_up = e.admin_up;
  running = e.running;
  operstate = digits (suc e.oper_state) e.oper_state [];
  master_ifname = e.master_ifname;
  event = present_or_removed e.present;
})
observation (ip_changed e) now = address (record {
  observed_at = now;
  ifname = e.ifname;
  event = present_or_removed e.present;
  family = e.family;
  cidr = e.address ++ (codes "/" ++ digits (suc e.prefix_len) e.prefix_len []);
})
observation (fdb_changed e) now = fdb (record {
  observed_at = now;
  port_ifname = e.ifname;
  event = present_or_removed e.present;
  mac = e.mac;
  entry_kind = entry_kind_of e.local e.permanent;
})
observation (neighbor_changed e) now = neighbor (record {
  observed_at = now;
  ifname = e.ifname;
  event = present_or_removed e.present;
  family = e.family;
  mac = e.mac;
  ip = e.ip;
  reachability = named_in nud_states e.nud_state;
})

event_lem : (present : Bool) → to_obs_event present ≡ present_or_removed present
unfolding to_obs_event
event_lem true = refl
event_lem false = refl

kind_lem : (e : FdbEvent) → fdb_to_entry_kind e ≡ entry_kind_of e.local e.permanent
unfolding fdb_to_entry_kind
kind_lem e = ground arith

nud_lem : (state : ℕ) → nud_to_reachability state ≡ named_in nud_states state
unfolding nud_to_reachability
nud_lem state = ground arith

module _ {O : Type 0} ⦃l : LldpObserver O⦄ where
  -- A link that is there and running comes up for the observer, and any other goes down.
  abbrev pub told : MonitorEvent → O → O × List LldpObservation
  told (link_changed e) o =
      if e.present && e.running
      then l.on_interface_up e.ifname o
      else l.on_interface_down e.ifname o
  told _ o = (o, [])

  -- The observer after an event, and what it has delivered.
  abbrev pub observer_told : MonitorEvent → Option O → Option O × List LldpObservation
  observer_told event none = (none, [])
  observer_told event (some o) = let (o', heard) = told event o in (some o', heard)

  -- The items of an event: its own, and then what the observer delivers for it.
  abbrev pub items_of : MonitorEvent → ℕ → Option O → List ObservationItem
  items_of event seen observer =
      record { source = netlink; payload = observation event seen }
      ∷ lldp_items (observer_told event observer).1

  abbrev pub items_of_all : List (MonitorEvent × ℕ) → Option O → List ObservationItem
  items_of_all [] observer = []
  items_of_all ((event, seen) ∷ events) observer =
      items_of event seen observer ++ items_of_all events (observer_told event observer).0

  abbrev pub observer_after : List (MonitorEvent × ℕ) → Option O → Option O
  observer_after [] observer = observer
  observer_after ((event, seen) ∷ events) observer =
      observer_after events (observer_told event observer).0

module _ {Q : Type 0} ⦃q : BoundedQueue Q⦄ where
  pub push_all-append :
      (xs ys : List ObservationItem) (b : BoundedObservationQueue Q)
      → push_all (xs ++ ys) b ≡ push_all ys (push_all xs b)
  push_all-append [] ys b = refl
  push_all-append (x ∷ xs) ys b = push_all-append xs ys (push b x).0

module _ {Q O M : Type 0} ⦃q : BoundedQueue Q⦄ ⦃l : LldpObserver O⦄ where
  -- The runtime after pushes, with that observer.
  abbrev pub after : List ObservationItem → Option O → Runtime Q O M → Runtime Q O M
  after items observer r = record r {
    observations = push_all items r.observations;
    supervision = record r.supervision { observer = observer };
  }

  notify_at :
      (event : MonitorEvent) (seen : ℕ) (o : Option O) (r : Runtime Q O M)
      → notify (make_callbacks runtime_sinks) event seen (after [] o r)
        ≡ after (items_of event seen o) (observer_told event o).0 r
  unfolding make_callbacks runtime_sinks deliver_lldp to_link_observation to_address_observation
      to_fdb_observation to_neighbor_observation make_cidr
  notify_at (link_changed e) seen none r = rw (event_lem e.present) refl
  notify_at (link_changed e) seen (some o) r = elim (Bool-cases (e.present && e.running)) [
    | inl up ↦ rw (up, event_lem e.present) refl
    | inr down ↦ rw (down, event_lem e.present) refl
  ]
  notify_at (ip_changed e) seen none r = rw (event_lem e.present) refl
  notify_at (ip_changed e) seen (some o) r = rw (event_lem e.present) refl
  notify_at (fdb_changed e) seen none r = rw (event_lem e.present, kind_lem e) refl
  notify_at (fdb_changed e) seen (some o) r = rw (event_lem e.present, kind_lem e) refl
  notify_at (neighbor_changed e) seen none r = rw (event_lem e.present, nud_lem e.nud_state) refl
  notify_at (neighbor_changed e) seen (some o) r =
      rw (event_lem e.present, nud_lem e.nud_state) refl

  -- An event pushes its items, and the observer is told.
  pub notify_lem :
      (event : MonitorEvent) (seen : ℕ) (r : Runtime Q O M)
      → notify (make_callbacks runtime_sinks) event seen r
        ≡ after
            (items_of event seen r.supervision.observer)
            (observer_told event r.supervision.observer).0
            r
  notify_lem event seen r = notify_at event seen r.supervision.observer r

  -- So do any events, in order.
  pub notify_all_lem :
      (events : List (MonitorEvent × ℕ)) (r : Runtime Q O M)
      → notify_all events r
        ≡ after
            (items_of_all events r.supervision.observer)
            (observer_after events r.supervision.observer)
            r
  unfolding notify_all
  notify_all_lem [] r = refl
  notify_all_lem ((event, seen) ∷ events) r =
      let o = r.supervision.observer in
      let o' = (observer_told event o).0 in
      let go : Runtime Q O M → Runtime Q O M = λ x.
        after (items_of_all events x.supervision.observer)
          (observer_after events x.supervision.observer) x in
      let put : BoundedObservationQueue Q → Runtime Q O M =
        λ b. record (after [] (observer_after events o') r) { observations = b } in
      notify_all_lem events (notify (make_callbacks runtime_sinks) event seen r)
      ∙ ap go (notify_lem event seen r)
      ∙ ap put
          (sym (push_all-append (items_of event seen o) (items_of_all events o') r.observations))
