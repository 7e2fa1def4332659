-- ===== src/Examples.antt =====
-- The network-observation model at concrete inputs.
mod Inputs
mod Manager
mod Laws
mod Wire
mod Runtime
mod Sources
use native.Mathlib.Omega.{arith}
use rmc_fabric.Model.Upkeep.{remote_candidates}
use rmc_fabric.Base.{
  ◌≡◌, ◌↔◌, refl, codes, Text, true, false, not, ◌&&◌, ◌||◌, ◌==◌, ◌/◌, ◌^◌, ite, ltb, List, [],
  ◌∷◌, none, some, is_empty, text_discrete, starts_with, ◌%◌,
}
use rmc_fabric.Containers.Map
use rmc_fabric.Model.Types.{
  LinkObservation, AddressObservation, NeighborObservation, FdbObservation, LldpObservation,
  present, FdbEntryKind, NeighborReachability, af_inet, RemoteCandidate, empty_candidate, confirmed,
  remote_endpoint, topology_peer, default_config, default_weights, default_thresholds, text_ordered,
}
use rmc_fabric.Model.Policy.{default_policy, default_policy_agree}
use rmc_fabric.Model.HardFilter.{
  inet_pton, inet_pton_from, strtol_pair, is_null_mac, is_multicast_mac, is_ieee_reserved_mac,
  is_multicast_ipv4, is_multicast_ipv6, is_local_kind, passes_neighbor, passes_fdb,
}
use rmc_fabric.Model.HardFilter.Laws.{
  is_multicast_ipv4-high_bits, is_multicast_mac-digits, passes_neighbor-default, passes_fdb_sound,
}
use rmc_fabric.Model.LldpUtils.{is_mac_like, normalize_mac, resolve_lldp_identity}
use rmc_fabric.Model.LldpUtils.Laws.{
  is_mac_like-normalize, IsIdentity, resolve_lldp_identity-IsIdentity,
  resolve_lldp_identity-normalize,
}
use rmc_fabric.Model.Classifier.{create_classifier, rule_based_classify, scoring_classify}
use rmc_fabric.Model.Classifier.Laws.{
  create_classifier-lldp, rule_based_classify-worthy, scoring_classify-worthy,
}
use rmc_fabric.Model.Candidate.{live, is_confirmed_worthy}
use rmc_fabric.Model.LocalState
use rmc_fabric.Model.LocalState.Weights.{total}
use rmc_fabric.Model.LocalState.Owners.{Inv, has_mac, has_ip, empty_tracker-Inv}
use rmc_fabric.Model.LocalState.Invariant
use rmc_fabric.Model.Events.Client.{hear_all}
use rmc_fabric.Model.Engine.{
  Engine, new_engine, set_event_sink, on_neighbor_observation, on_fdb_observation,
  on_lldp_observation,
}
use rmc_fabric.Model.Upkeep.{
  on_link_observation, on_address_observation, age, prepare_for_restart, mark_live,
  find_candidate_by_mac,
}
use rmc_fabric.Model.Engine.Mirror
use rmc_fabric.Model.Engine.Mirror.{Mirrors, visible}
use rmc_fabric.Model.Engine.Passes
use rmc_fabric.Model.Engine.Local
use rmc_fabric.Model.Engine.Invariant.{EngineInv}
use rmc_fabric.Model.Engine.Run
use rmc_fabric.Model.Engine.Run.{Operation}
use rmc_fabric.Model.Engine.History
use rmc_fabric.Model.Engine.Lifecycle

abbrev pub router : Text
router = codes "aa:bb:cc:00:11:22"

abbrev own : Text
own = codes "02:00:00:00:00:01"

abbrev pub eth0 : Text
eth0 = codes "eth0"

abbrev link_up : LinkObservation
link_up = record {
  observed_at = 1;
  ifindex = 2;
  ifname = eth0;
  mac = own;
  admin_up = true;
  running = true;
  operstate = codes "up";
  master_ifname = none;
  event = present;
}

abbrev own_address : AddressObservation
own_address = record {
  observed_at = 2;
  ifname = eth0;
  event = present;
  family = af_inet;
  cidr = codes "10.0.0.1/24";
}

abbrev pub router_neighbor : NeighborObservation
router_neighbor = record {
  observed_at = 3;
  ifname = eth0;
  event = present;
  family = af_inet;
  mac = router;
  ip = codes "10.0.0.2";
  reachability = NeighborReachability.reachable;
}

abbrev pub router_fdb : FdbObservation
router_fdb = record {
  observed_at = 4;
  port_ifname = eth0;
  event = present;
  mac = router;
  entry_kind = FdbEntryKind.dynamic;
}

abbrev pub router_lldp : LldpObservation
router_lldp = record {
  observed_at = 5;
  local_ifname = eth0;
  event = present;
  remote_chassis_id = some (codes "AA:BB:CC:00:11:22");
  remote_port_id = some (codes "port 1");
  remote_system_name = none;
  keepalive = false;
}

abbrev history : List Operation
history =
    Operation.link link_up 1
    ∷ Operation.address own_address 2
    ∷ Operation.neighbor router_neighbor 3 3
    ∷ Operation.fdb router_fdb 4 4
    ∷ Operation.lldp router_lldp 5 5
    ∷ Operation.go_live 6
    ∷ Operation.aging 70 70
    ∷ []

-- A candidate that is seen on eth0.
abbrev pub known : RemoteCandidate
known = record empty_candidate {
  mac = router;
  ipv4 = codes "10.0.0.2" ∷ [];
  neighbor_evidence = record { ifname = eth0; family = af_inet; ip = codes "10.0.0.2" } ∷ [];
  seen_in_neigh = true;
  last_seen = 3;
  classification = remote_endpoint;
  status = confirmed;
}

abbrev engine : Engine
engine = record {
  config = default_config;
  sink = true;
  phase = live;
  interface_policy = default_policy;
  classifier = rule_based_classify;
  local_state = LocalState.empty_tracker;
  candidates = (router, known) ∷ [];
}

engine-IsDistinct : Map.IsDistinct text_discrete engine.candidates
unfolding Map.lookup
engine-IsDistinct = (refl, tt)

hear_all-run_example :
    hear_all router (Run.run (set_event_sink (new_engine default_config) true) history).1 false
    ≡ visible (Run.run (set_event_sink (new_engine default_config) true) history).0 router
hear_all-run_example =
    History.hear_all-run default_config history
      ((refl, refl, refl), (tt, (tt, (tt, (tt, (tt, (tt, tt))))))) router

abbrev early : List Operation
early = Operation.neighbor router_neighbor 3 3 ∷ Operation.go_live 4 ∷ Operation.restart 5 ∷ []

run-initializing_hidden_example :
    (find_candidate_by_mac (Run.run (new_engine default_config) early).0 router ≡ none)
    × (remote_candidates (Run.run (new_engine default_config) early).0 ≡ [])
unfolding Run.run Run.step prepare_for_restart
run-initializing_hidden_example = Run.run-initializing_hidden default_config early refl router

run-EngineInv_example : EngineInv (Run.run (new_engine default_config) history).0
run-EngineInv_example =
    Run.run-EngineInv history (new_engine default_config) (Run.new_engine-EngineInv default_config)

on_neighbor_observation-Mirrors_example :
    Mirrors engine (on_neighbor_observation engine router_neighbor 7 8)
on_neighbor_observation-Mirrors_example =
    Mirror.on_neighbor_observation-Mirrors engine refl 8 router_neighbor 7

on_fdb_observation-Mirrors_example : Mirrors engine (on_fdb_observation engine router_fdb 7 8)
on_fdb_observation-Mirrors_example = Mirror.on_fdb_observation-Mirrors engine refl 8 router_fdb 7

on_lldp_observation-Mirrors_example : Mirrors engine (on_lldp_observation engine router_lldp 7 8)
on_lldp_observation-Mirrors_example = Mirror.on_lldp_observation-Mirrors engine refl 8 router_lldp 7

age-Mirrors_example : Mirrors engine (age engine 90 91)
age-Mirrors_example = Passes.age-Mirrors engine refl engine-IsDistinct 90 91

prepare_for_restart-Mirrors_example : Mirrors engine (prepare_for_restart engine 91)
prepare_for_restart-Mirrors_example =
    Passes.prepare_for_restart-Mirrors engine refl engine-IsDistinct 91

mark_live-Mirrors_example : Mirrors engine (mark_live engine 91)
mark_live-Mirrors_example = Passes.mark_live-Mirrors engine refl engine-IsDistinct 91

on_address_observation-Mirrors_example :
    Mirrors engine (on_address_observation engine own_address 7)
on_address_observation-Mirrors_example =
    Local.on_address_observation-Mirrors engine refl engine-IsDistinct own_address 7

on_link_observation-Mirrors_example : Mirrors engine (on_link_observation engine link_up 7)
on_link_observation-Mirrors_example =
    Local.on_link_observation-Mirrors engine refl empty_tracker-Inv link_up 7 refl refl refl

age-age_example : (age (age engine 70 71).0 90 91).0 ≡ (age engine 90 91).0
age-age_example = Lifecycle.age-age engine 70 90 71 91 (omega arith)

mark_live-prepare_for_restart_example :
    (mark_live (prepare_for_restart engine 91).0 92).0.candidates ≡ []
mark_live-prepare_for_restart_example = Lifecycle.mark_live-prepare_for_restart engine 91 92 refl

abbrev calls : List Invariant.Call
calls = Invariant.link link_up ∷ Invariant.address own_address ∷ []

run-Inv_example : Inv (Invariant.run LocalState.empty_tracker calls)
run-Inv_example = Invariant.run-Inv calls (refl, tt) empty_tracker-Inv

is_local_mac-run_example :
    LocalState.is_local_mac (Invariant.run LocalState.empty_tracker calls) own
    ≡ ltb 0 (total (has_mac own) (Invariant.run LocalState.empty_tracker calls).interfaces)
is_local_mac-run_example = Invariant.is_local_mac-run calls (refl, tt) own refl

is_local_ip-run_example :
    LocalState.is_local_ip (Invariant.run LocalState.empty_tracker calls) (codes "10.0.0.1")
    ≡ ltb 0 (
        total (has_ip (codes "10.0.0.1")) (Invariant.run LocalState.empty_tracker calls).interfaces)
is_local_ip-run_example = Invariant.is_local_ip-run calls (refl, tt) (codes "10.0.0.1") refl
