-- ===== src/Service/Runtime.antt =====
-- services/network-observation/service/NetlinkLldpObservationRuntime.cpp over the engine, the queue,
-- the supervision and the callbacks. The consumer takes one item at a step; a thread that does not
-- start is an argument of `start`. A redump or a reconnect runs its callbacks between two steps of
-- the consumer.
pub mod Consumer
pub mod Repairs
pub mod Resync
pub mod Lifecycle
pub mod Delivery
use rmc_fabric.Base.{
  ℕ, Bool, true, false, not, List, [], ◌∷◌, ◌++◌, Option, none, some, if◌then◌else◌, is_some,
}
use rmc_fabric.Model.Types.{ModelEvent}
use rmc_fabric.Model.Engine.{
  Engine, set_event_sink, on_neighbor_observation, on_fdb_observation, on_lldp_observation,
}
use rmc_fabric.Model.Upkeep.{
  on_link_observation, on_address_observation, prepare_for_restart, mark_live,
}
use rmc_fabric.Service.Issues.{ObservationRuntimeHealth}
use rmc_fabric.Service.Queue.{
  netlink, lldp, ObservationPayload, link, address, neighbor, fdb, ObservationItem, BoundedQueue,
  BoundedObservationQueue, has_bit, push, try_pop, discard_all, take_resync_mask, raise_resync,
  reopen, close,
}
use rmc_fabric.Service.Supervision.{
  LldpObserver, Supervision, reconnect_lldp, supervise_lldp, reassert_lldp_neighbors,
  running_observer,
}
use rmc_fabric.Service.Callbacks.{MonitorEvent, Monitor, Runtime, deliver_lldp, notify_all}

-- The call that the visitor makes for a payload, with the two readings of the clock that it may make.
unfoldable pub apply_payload : Engine → ObservationPayload → ℕ → ℕ → Engine × List ModelEvent
apply_payload model (link o) created now = on_link_observation model o now
apply_payload model (address o) created now = on_address_observation model o now
apply_payload model (neighbor o) created now = on_neighbor_observation model o created now
apply_payload model (fdb o) created now = on_fdb_observation model o created now
apply_payload model (ObservationPayload.lldp o) created now =
    on_lldp_observation model o created now

unfoldable pub apply_observation : Engine → ObservationItem → ℕ → ℕ → Engine × List ModelEvent
apply_observation model item created now = apply_payload model item.payload created now

abbrev pub applied : Engine → Option ObservationItem → ℕ → ℕ → Engine × List ModelEvent
applied model none created now = (model, [])
applied model (some item) created now = apply_observation model item created now

-- What the threads do while the monitor starts: a producer pushes, or the consumer takes its turn.
pub data Turn : Type 0 where
  produced : ObservationItem → Turn
  consumed : ℕ → ℕ → Turn

module _ {Q : Type 0} ⦃q : BoundedQueue Q⦄ where
  -- The loop, with the readings of the clock at each turn; it is left when nothing is queued.
  unfoldable pub observation_loop :
      List (ℕ × ℕ)
      → Engine
      → BoundedObservationQueue Q
      → Engine × List ModelEvent × BoundedObservationQueue Q
  observation_loop [] model b = (model, [], b)
  observation_loop ((created, now) ∷ turns) model b =
      let (b', item) = try_pop b in
      let (model', events) = applied model item created now in
      let (model'', rest, b'') = observation_loop turns model' b' in (model'', events ++ rest, b'')

  unfoldable pub interleave :
      List Turn
      → Engine
      → BoundedObservationQueue Q
      → Engine × List ModelEvent × BoundedObservationQueue Q
  interleave [] model b = (model, [], b)
  interleave (produced item ∷ turns) model b = interleave turns model (push b item).0
  interleave (consumed created now ∷ turns) model b =
      let (b', item) = try_pop b in
      let (model', events) = applied model item created now in
      let (model'', rest, b'') = interleave turns model' b' in (model'', events ++ rest, b'')

module _ {M : Type 0} ⦃m : Monitor M⦄ where
  abbrev pub monitor_runs : Option M → Bool
  monitor_runs none = false
  monitor_runs (some monitor) = m.monitor_running monitor

  abbrev pub redump : ℕ → Option M → Option M × Bool × List (MonitorEvent × ℕ)
  redump now none = (none, false, [])
  redump now (some monitor) =
      let (monitor', done, events) = m.request_redump now monitor in (some monitor', done, events)

-- Whether the worker and the monitor start, the observer, if it does, as the monitor's callbacks leave
-- it, and what the threads do before the model goes live.
pub record Startup (O M : Type 0) : Type 0 where
  pub worker_starts : Bool
  pub observer : Option O
  pub monitor : M
  pub monitor_starts : Bool
  pub meanwhile : List Turn

abbrev pub observed : {O : Type 0} → Supervision O → Option O → Supervision O
observed s none = s
observed s (some o) = record s { observer = some o; reconnect_failures = 0; last_reconnect = 0 }

module _ {Q O M : Type 0} ⦃q : BoundedQueue Q⦄ ⦃l : LldpObserver O⦄ ⦃m : Monitor M⦄ where
  unfoldable pub is_running : Runtime Q O M → Bool
  is_running r = if r.worker_failed then false else monitor_runs r.monitor

  unfoldable pub health : Runtime Q O M → ℕ → ObservationRuntimeHealth
  health r now = record {
    running = is_running r;
    lldp_available = is_some (running_observer now r.supervision.observer);
  }

  -- The backlog is dropped first; then the redump replays the kernel's state through the callbacks.
  unfoldable pub resync_netlink : ℕ → Runtime Q O M → Runtime Q O M
  resync_netlink now r =
      let (monitor, done, events) = redump now r.monitor in
      let replayed =
        notify_all events
          (record r { monitor = monitor; observations = discard_all r.observations }) in
      record replayed {
        observations =
            if done then replayed.observations else raise_resync replayed.observations netlink;
      }

  abbrev pub resync_observer : ℕ → Runtime Q O M → Option O → Runtime Q O M
  resync_observer now r none = r
  resync_observer now r (some o) =
      let (s, done, heard) = reconnect_lldp r.supervision o now in
      let reconciled = deliver_lldp heard (record r { supervision = s }) in
      record reconciled {
        observations =
            if done then reconciled.observations else raise_resync reconciled.observations lldp;
      }

  unfoldable pub resync_lldp : ℕ → Runtime Q O M → Runtime Q O M
  resync_lldp now r = resync_observer now r r.supervision.observer

  unfoldable pub perform_resync : ℕ → Runtime Q O M → Runtime Q O M
  perform_resync now r =
      let (b, mask) = take_resync_mask r.observations in
      let taken = record r { observations = b } in
      let repaired = if has_bit mask netlink then resync_netlink now taken else taken in
      if has_bit mask lldp then resync_lldp now repaired else repaired

  unfoldable pub tick : ℕ → Runtime Q O M → Runtime Q O M
  tick now r =
      let (s, heard) = supervise_lldp now r.supervision in
      let supervised = deliver_lldp heard (record r { supervision = s }) in
      let (s', again) = reassert_lldp_neighbors r.reassert_interval now supervised.supervision in
      perform_resync now (deliver_lldp again (record supervised { supervision = s' }))

  -- The monitor and the observer are stopped and dropped, the queue is closed, the worker joined.
  unfoldable pub clean_up_failed_start : Runtime Q O M → Runtime Q O M
  clean_up_failed_start r = record r {
    monitor = none;
    supervision = record r.supervision { observer = none };
    observations = close r.observations;
  }

  unfoldable pub start : Runtime Q O M → Startup O M → ℕ → Runtime Q O M × List ModelEvent × Bool
  start r startup now =
      let (hidden, gone) = prepare_for_restart r.model now in
      let fresh = record r {
        model = hidden;
        observations = reopen r.observations;
        worker_failed = false;
      } in
      let (filled, heard, b) = interleave startup.meanwhile hidden fresh.observations in
      let ready = record fresh {
        model = filled;
        observations = b;
        supervision = observed fresh.supervision startup.observer;
        monitor = some startup.monitor;
      } in
      let (live, shown) = mark_live filled now in
      if is_some r.monitor
      then (r, [], false)
      else (if not startup.worker_starts
          then (clean_up_failed_start fresh, gone, false)
          else (if not startup.monitor_starts
              then (clean_up_failed_start ready, gone ++ heard, false)
              else (record ready { model = live }, gone ++ (heard ++ shown), true)))

  unfoldable pub stop : Runtime Q O M → Runtime Q O M
  stop r =
      let down = clean_up_failed_start r in record down { model = set_event_sink r.model false }
