-- ===== src/Examples/Runtime.antt =====
-- The queues, the issues and the supervision at concrete inputs.
use rmc_fabric.Base.{
  ◌≡◌, refl, ◌<◌, ◌≤◌, ◌*◌, ℕ, codes, text_discrete, Bool, true, false, List, [], ◌∷◌, ◌++◌, Option,
  none, some, arith, ltb, if◌then◌else◌,
}
use rmc_fabric.Containers.Map
use rmc_fabric.Model.Types.{ModelEvent, candidate_added, candidate_removed, default_config}
use rmc_fabric.Model.Engine.{new_engine}
use rmc_fabric.Model.Engine.Run.{run}
use rmc_fabric.Transports.Codec.Checks.{length}
use rmc_fabric.Service.Queue
use rmc_fabric.Service.Queue.{
  ObservationItem, ObservationSource, netlink, BoundedQueue, IsBoundedQueue,
  BoundedObservationQueue,
}
use rmc_fabric.Service.Queue.Losses
use rmc_fabric.Service.Publication.{
  PublicationKey, PublicationIntent, PendingPublication, PublicationKey-discrete, candidate,
  DirtySet, IsDirtySet,
}
use rmc_fabric.Service.Publication.Marks.{hear, last_said, lookup-hear}
use rmc_fabric.Service.Issues.{
  Diagnostics, ObservationRuntimeHealth, issue_fields, lldp_report, refresh_runtime_issues,
}
use rmc_fabric.Service.Issues.Fields
use rmc_fabric.Service.Issues.Health.{lookup-refresh_runtime_issues}
use rmc_fabric.Service.Supervision.{
  LldpObserver, Supervision, derive_reassert_interval, reconnect_lldp,
}
use rmc_fabric.Service.Supervision.Escalation.{supervise_all, supervise_all-acquire}
use rmc_fabric.Service.Supervision.Reassertion.{
  derive_reassert_interval-bounds, reconnect_lldp-reconnect_lldp,
}
use rmc_fabric.Service.Callbacks.{
  MonitorEvent, neighbor_changed, link_changed, Monitor, Runtime, runtime_sinks, notify,
}
use rmc_fabric.Service.Callbacks.Items.{observation, items_of}
use rmc_fabric.Service.Runtime.{
  Startup, produced, consumed, observation_loop, perform_resync, start, stop,
}
use rmc_fabric.Service.Runtime.Consumer.{operations, observation_loop-run}
use rmc_fabric.Service.Runtime.Resync.{has_bit-perform_resync}
use rmc_fabric.Service.Runtime.Lifecycle
use rmc_fabric.Service.Runtime.Delivery
use rmc_fabric.Service.Mapper.{make_callbacks}
use rmc_fabric.Model.Types.{removed}
use rmc_fabric.Model.Engine.Run.{Operation}
use rmc_fabric.Examples.{router, router_neighbor, router_fdb, router_lldp}

pub record Ring : Type 0 where
  pub stored : List ObservationItem
  pub room : ℕ
  pub shut : Bool

abbrev dropped_first : List ObservationItem → List ObservationItem
dropped_first [] = []
dropped_first (x ∷ xs) = xs

abbrev first_of : List ObservationItem → Option ObservationItem
first_of [] = none
first_of (x ∷ xs) = some x

abbrev ring_push : ObservationItem → Ring → Ring × Option ObservationItem
ring_push a q =
    if q.shut
    then (q, none)
    else (if ltb (length q.stored) q.room
        then (record q { stored = q.stored ++ (a ∷ []) }, none)
        else (record q { stored = dropped_first q.stored ++ (a ∷ []) }, first_of q.stored))

abbrev ring_pop : Ring → Ring × Option ObservationItem
ring_pop q = (record q { stored = dropped_first q.stored }, first_of q.stored)

instance abbrev ring : BoundedQueue Ring
ring = record {
  items = λ q. q.stored;
  capacity = λ q. q.room;
  closed = λ q. q.shut;
  push = ring_push;
  try_pop = ring_pop;
  discard_all = λ q. record q { stored = [] };
  close = λ q. record q { shut = true };
  reopen = λ q. record q { stored = []; shut = false };
}

ring-IsBoundedQueue : IsBoundedQueue ring
ring-IsBoundedQueue = record {
  push-closed = λ a q e. ground arith;
  push_room = λ a q e small. ground arith;
  push_full = λ a x xs q e items full. ground arith;
  closed-push = λ a q. ground arith;
  capacity-push = λ a q. ground arith;
  try_pop_empty = λ q e. ground arith;
  try_pop_some = λ x xs q e. ground arith;
  closed-try_pop = λ q. refl;
  capacity-try_pop = λ q. refl;
  items-discard_all = λ q. refl;
  capacity-discard_all = λ q. refl;
  closed-discard_all = λ q. refl;
  closed-close = λ q. refl;
  items-close = λ q. refl;
  closed-reopen = λ q. refl;
  items-reopen = λ q. refl;
}

-- A set of keys as a list of entries.
pub record Marked : Type 0 where
  pub entries : PendingPublication
  pub shut : Bool

abbrev put_mark : PublicationKey → PublicationIntent → Marked → Marked × Bool
put_mark k i q =
    if q.shut
    then (q, false)
    else (record q { entries = Map.insert PublicationKey-discrete k i q.entries }, true)

instance abbrev marked : DirtySet Marked
marked = record {
  pending = λ q. q.entries;
  closed = λ q. q.shut;
  mark = put_mark;
  try_take = λ q. (record q { entries = [] }, some q.entries);
  reopen = λ q. record { entries = []; shut = false };
}

marked-IsDirtySet : IsDirtySet marked
marked-IsDirtySet = record {
  lookup-mark =
      λ j k i q e. ground (arith, Map.lookup-insert PublicationKey-discrete j k i q.entries);
  closed-mark = λ k i q. ground arith;
  mark-closed = λ k i q e. ground arith;
  closed-reopen = λ q. refl;
  pending-reopen = λ q. refl;
}

abbrev neighbor_item : ObservationItem
neighbor_item = record {
  source = netlink;
  payload = Queue.ObservationPayload.neighbor router_neighbor;
}

abbrev fdb_item : ObservationItem
fdb_item = record { source = netlink; payload = Queue.ObservationPayload.fdb router_fdb }

abbrev lldp_item : ObservationItem
lldp_item = record {
  source = ObservationSource.lldp;
  payload = Queue.ObservationPayload.lldp router_lldp;
}

abbrev nearly_full : BoundedObservationQueue Ring
nearly_full = record {
  queue = record { stored = neighbor_item ∷ []; room = 2; shut = false };
  resync_mask = 0;
}

-- The third item drops the first: the netlink bit is set, the LLDP bit is not.
abbrev burst : List Losses.Use
burst = Losses.pushed lldp_item ∷ Losses.pushed fdb_item ∷ Losses.popped ∷ []

of_source-run_example :
    Losses.of_source ObservationSource.lldp
      ((Losses.run nearly_full burst).1 ++ (Losses.run nearly_full burst).0.queue.stored)
    ≡ lldp_item ∷ []
unfolding Losses.run Queue.push Queue.try_pop Queue.note_dropped Queue.fetch_or Queue.has_bit
    Queue.source_bit
of_source-run_example =
    Losses.of_source-run ring-IsBoundedQueue burst nearly_full ObservationSource.lldp refl
      (omega arith) refl

abbrev heard : List ModelEvent
heard =
    record { kind = candidate_added; timestamp = 1; ifname = none; mac = some router }
    ∷ record { kind = candidate_removed; timestamp = 2; ifname = none; mac = some router }
    ∷ []

lookup-hear_example :
    Map.lookup PublicationKey-discrete
      (candidate router)
      (hear {Q = Marked} heard (record { entries = []; shut = false })).entries
    ≡ last_said (candidate router) heard none
unfolding Map.lookup
lookup-hear_example =
    lookup-hear marked-IsDirtySet heard (record { entries = []; shut = false }) (candidate router)
      refl

abbrev plain : Diagnostics
plain = record { sanitize_field = λ s. s; sanitize_message = λ s. s }

abbrev unhealthy : ObservationRuntimeHealth
unhealthy = record { running = true; lldp_available = false }

lookup-refresh_runtime_issues_example :
    Map.lookup text_discrete
      (codes "observation.input.lldp.unavailable")
      (refresh_runtime_issues plain unhealthy [])
    ≡ some (issue_fields plain lldp_report)
unfolding text_discrete
lookup-refresh_runtime_issues_example =
    lookup-refresh_runtime_issues plain unhealthy [] (codes "observation.input.lldp.unavailable")

abbrev troubles : List Fields.Call
troubles =
    Fields.polled unhealthy
    ∷ Fields.published_to (codes "publish_candidate_changed") ((codes "dbus", some none) ∷ [])
    ∷ []

run-AreReports_example : Fields.AreReports (Fields.run plain troubles [])
run-AreReports_example = Fields.run-AreReports plain troubles [] tt

-- An observer whose watch is dead: 0 is refused every reconnect, any other is not.
instance abbrev watcher : LldpObserver ℕ
watcher = record {
  is_running = λ now o. true;
  is_watch_alive = λ now o. false;
  is_backend_alive = λ now o. true;
  refresh_all = λ now o. (o, ltb 0 o, router_lldp ∷ []);
  reassert_all = λ now o. (o, router_lldp ∷ []);
  on_interface_up = λ ifname o. (o, []);
  on_interface_down = λ ifname o. (o, record router_lldp { event = removed } ∷ []);
  acquire = λ now. (some 1, []);
}

abbrev wedged : Supervision ℕ
wedged = record {
  observer = some 0;
  last_probe = 0;
  last_attempt = 0;
  last_reconnect = 0;
  last_reassert = 0;
  reconnect_failures = 2;
  retry_count = 0;
}

supervise_all-acquire_example :
    (supervise_all (40000000000 ∷ 80000000000 ∷ 120000000000 ∷ []) wedged).observer ≡ some 1
supervise_all-acquire_example =
    supervise_all-acquire (80000000000 ∷ 120000000000 ∷ []) 40000000000 wedged 0 refl
      (record {
        running = λ now. refl;
        dead = λ now. refl;
        kept = λ now. refl;
        refused = λ now. refl;
      })
      (omega arith, (omega arith, (omega arith, tt))) refl

derive_reassert_interval-bounds_example :
    (10 * 1000000000 ≤ derive_reassert_interval 60)
    × (derive_reassert_interval 60 ≤ 300 * 1000000000)
    × (derive_reassert_interval 60 < 60 * 1000000000)
derive_reassert_interval-bounds_example = derive_reassert_interval-bounds 60 (omega arith)

reconnect_lldp-reconnect_lldp_example :
    reconnect_lldp (reconnect_lldp wedged 0 40000000000).0 1 50000000000
    ≡ ((reconnect_lldp wedged 0 40000000000).0, false, [])
reconnect_lldp-reconnect_lldp_example =
    reconnect_lldp-reconnect_lldp wedged 0 1 40000000000 50000000000 (omega arith) (omega arith)

-- One turn more than there are items.
abbrev two_turns : List (ℕ × ℕ)
two_turns = (1, 2) ∷ (3, 4) ∷ []

observation_loop-run_example :
    ((observation_loop two_turns (new_engine default_config) nearly_full).0
      ≡ (run (new_engine default_config) (operations (neighbor_item ∷ []) two_turns)).0)
    × ((observation_loop two_turns (new_engine default_config) nearly_full).1
        ≡ (run (new_engine default_config) (operations (neighbor_item ∷ []) two_turns)).1)
    × ((observation_loop two_turns (new_engine default_config) nearly_full).2.queue.stored ≡ [])
    × ((observation_loop two_turns (new_engine default_config) nearly_full).2.resync_mask ≡ 0)
observation_loop-run_example =
    observation_loop-run ring-IsBoundedQueue two_turns (neighbor_item ∷ [])
      (new_engine default_config) nearly_full refl (omega arith)

abbrev router_seen : MonitorEvent
router_seen = neighbor_changed (record {
  ifname = codes "eth0";
  mac = router;
  family = 2;
  ip = codes "10.0.0.2";
  nud_state = 2;
  present = true;
})

-- A monitor whose redump fails after one event.
instance abbrev broken_monitor : Monitor Bool
broken_monitor = record {
  monitor_running = λ m. m;
  request_redump = λ now m. (m, false, (router_seen, 9) ∷ []);
}

abbrev diverged : Runtime Ring ℕ Bool
diverged = record {
  model = new_engine default_config;
  observations = record nearly_full { resync_mask = 3 };
  monitor = some true;
  supervision = record wedged { observer = some 1 };
  worker_failed = false;
  reassert_interval = derive_reassert_interval 60;
}

abbrev replayed_item : ObservationItem
replayed_item = record { source = netlink; payload = observation router_seen 9 }

has_bit-perform_resync_example :
    (Queue.has_bit (perform_resync 40000000000 diverged).observations.resync_mask netlink ≡ true)
    × (Queue.has_bit
          (perform_resync 40000000000 diverged).observations.resync_mask
          ObservationSource.lldp
        ≡ false)
    × ((perform_resync 40000000000 diverged).observations.queue.stored
        ≡ replayed_item ∷ lldp_item ∷ [])
unfolding Queue.has_bit Queue.source_bit
has_bit-perform_resync_example =
    has_bit-perform_resync ring-IsBoundedQueue diverged 40000000000 refl (omega arith)

abbrev boot : Startup ℕ Bool
boot = record {
  worker_starts = true;
  observer = some 1;
  monitor = true;
  monitor_starts = true;
  meanwhile = produced neighbor_item ∷ consumed 5 6 ∷ [];
}

abbrev idle : Runtime Ring ℕ Bool
idle = record diverged { monitor = none }

start-Started_example : Lifecycle.Started ((start idle boot 7).0, (start idle boot 7).2)
start-Started_example = Lifecycle.start-Started ring-IsBoundedQueue idle boot 7 refl

start-stop_example :
    Lifecycle.IsDown (stop diverged)
    × Lifecycle.Started ((start (stop diverged) boot 7).0, (start (stop diverged) boot 7).2)
start-stop_example = Lifecycle.start-stop ring-IsBoundedQueue diverged boot 7

abbrev quiet : Runtime Ring ℕ Bool
quiet = record diverged {
  observations = record { queue = record { stored = []; room = 2; shut = false }; resync_mask = 0 };
}

-- A link that is there and not running: the observer flushes its neighbours.
abbrev link_down : MonitorEvent
link_down = link_changed (record {
  ifname = codes "eth0";
  ifindex = 2;
  mac = router;
  admin_up = true;
  running = false;
  oper_state = 2;
  master_ifindex = none;
  master_ifname = none;
  present = true;
})

abbrev down_runtime : Runtime Ring ℕ Bool
down_runtime = notify (make_callbacks runtime_sinks) link_down 3 quiet

abbrev down_calls : List Operation
down_calls = operations (items_of link_down 3 quiet.supervision.observer) two_turns

observation_loop-notify_example :
    ((observation_loop two_turns quiet.model down_runtime.observations).0
      ≡ (run quiet.model down_calls).0)
    × ((observation_loop two_turns quiet.model down_runtime.observations).1
        ≡ (run quiet.model down_calls).1)
    × ((observation_loop two_turns quiet.model down_runtime.observations).2.queue.stored ≡ [])
    × ((observation_loop two_turns quiet.model down_runtime.observations).2.resync_mask ≡ 0)
    × (down_runtime.supervision.observer ≡ some 1)
observation_loop-notify_example =
    Delivery.observation_loop-notify ring-IsBoundedQueue quiet link_down 3 two_turns refl refl
      (omega arith) (omega arith)
