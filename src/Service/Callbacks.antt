-- ===== src/Service/Callbacks.antt =====
-- The state of services/network-observation/service/NetlinkLldpObservationRuntime.cpp, and what its
-- callbacks make of it. `M` stands for NetlinkNetworkMonitor, whose calls are a parameter. A callback
-- of the monitor goes through the mapper to a sink; what the observer delivers goes to the queue.
pub mod Items
use rmc_fabric.Base.{ℕ, Text, Bool, List, [], ◌∷◌, Option, none, some, if◌then◌else◌}
use rmc_fabric.Model.Types.{LldpObservation}
use rmc_fabric.Model.Engine.{Engine}
use rmc_fabric.Netlink.Types.{LinkEvent, InterfaceIpEvent, FdbEvent, NeighborEvent}
use rmc_fabric.Service.Mapper.{ObservationSinks, MonitorCallbacks, make_callbacks}
use rmc_fabric.Service.Queue.{
  netlink, lldp, ObservationPayload, link, address, neighbor, fdb, ObservationItem, BoundedQueue,
  BoundedObservationQueue, push, push_all,
}
use rmc_fabric.Service.Supervision.{LldpObserver, Supervision}

pub data MonitorEvent : Type 0 where
  link_changed : LinkEvent → MonitorEvent
  ip_changed : InterfaceIpEvent → MonitorEvent
  fdb_changed : FdbEvent → MonitorEvent
  neighbor_changed : NeighborEvent → MonitorEvent

-- A redump calls the callbacks before it returns: the events, each with the reading of the clock,
-- are in the result, also where it fails.
pub record Monitor (M : Type 0) : Type 0 where
  pub monitor_running : M → Bool
  pub request_redump : ℕ → M → M × Bool × List (MonitorEvent × ℕ)

pub record Runtime (Q O M : Type 0) : Type 0 where
  pub model : Engine
  pub observations : BoundedObservationQueue Q
  pub monitor : Option M
  pub supervision : Supervision O
  pub worker_failed : Bool
  pub reassert_interval : ℕ

-- The items that the observer's observations make.
abbrev pub lldp_items : List LldpObservation → List ObservationItem
lldp_items [] = []
lldp_items (o ∷ observations) =
    record { source = lldp; payload = ObservationPayload.lldp o } ∷ lldp_items observations

module _ {O : Type 0} ⦃l : LldpObserver O⦄ where
  abbrev pub tell_observer : Text → Bool → Option O → Option O × List LldpObservation
  tell_observer ifname up none = (none, [])
  tell_observer ifname up (some o) =
      let (raised, renewed) = l.on_interface_up ifname o in
      let (lowered, flushed) = l.on_interface_down ifname o in
      if up then (some raised, renewed) else (some lowered, flushed)

module _ {Q O M : Type 0} ⦃q : BoundedQueue Q⦄ ⦃l : LldpObserver O⦄ where
  -- An observation goes to the queue.
  abbrev pub enqueue : ObservationPayload → Runtime Q O M → Runtime Q O M
  enqueue payload r = record r {
    observations = (push r.observations (record { source = netlink; payload = payload })).0;
  }

  -- What the observer delivers, in order.
  unfoldable pub deliver_lldp : List LldpObservation → Runtime Q O M → Runtime Q O M
  deliver_lldp heard r = record r { observations = push_all (lldp_items heard) r.observations }

  -- The state of a link goes straight to the observer, which may deliver observations for it.
  unfoldable pub runtime_sinks : ObservationSinks (Runtime Q O M)
  runtime_sinks = record {
    on_link = some (λ o r. enqueue (link o) r);
    on_address = some (λ o r. enqueue (address o) r);
    on_neighbor = some (λ o r. enqueue (neighbor o) r);
    on_fdb = some (λ o r. enqueue (fdb o) r);
    on_link_state_for_lldp = some (λ ifname up r.
        let (observer, heard) = tell_observer ifname up r.supervision.observer in
        deliver_lldp heard
          (record r { supervision = record r.supervision { observer = observer } }));
  }

  -- The callback that the monitor calls for the event.
  abbrev pub notify :
      MonitorCallbacks (Runtime Q O M) → MonitorEvent → ℕ → Runtime Q O M → Runtime Q O M
  notify callbacks (link_changed e) seen r = callbacks.on_link_changed e seen r
  notify callbacks (ip_changed e) seen r = callbacks.on_interface_ip_changed e seen r
  notify callbacks (fdb_changed e) seen r = callbacks.on_fdb_changed e seen r
  notify callbacks (neighbor_changed e) seen r = callbacks.on_neighbor_changed e seen r

  -- The events of a dump, in order.
  unfoldable pub notify_all : List (MonitorEvent × ℕ) → Runtime Q O M → Runtime Q O M
  notify_all [] r = r
  notify_all ((event, seen) ∷ events) r =
      notify_all events (notify (make_callbacks runtime_sinks) event seen r)
