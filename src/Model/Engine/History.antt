-- ===== src/Model/Engine/History.antt =====
-- A client that hears every event of a history from the start knows what the queries would answer.
use mathlib.Core.Path.{subst}
use rmc_fabric.Base.{
  ℕ, ◌≡◌, refl, sym, ◌∙◌, ap, Text, Bool, true, false, not, List, [], ◌∷◌, Option, none, some,
  is_empty, arith, Option-cases, inl, inr, if◌then◌else◌,
}
use rmc_fabric.Containers.Map
use rmc_fabric.Model.Types.{
  LinkObservation, AddressObservation, NeighborObservation, FdbObservation, LldpObservation,
  ObservationEvent, present, InterfacePolicy, ModelConfig, ModelEvent, RemoteCandidate,
}
use rmc_fabric.Model.LldpUtils.{resolve_lldp_identity}
use rmc_fabric.Model.LocalState
use rmc_fabric.Model.LocalState.{LocalStateTracker, extract_ip_from_cidr}
use rmc_fabric.Model.LocalState.Owners.{Inv, empty_tracker-Inv}
use rmc_fabric.Model.LocalState.Links.{on_link_observation-Inv}
use rmc_fabric.Model.LocalState.Addresses.{on_address_observation-Inv}
use rmc_fabric.Model.Events.Client.{hear_all, hear_all-append}
use rmc_fabric.Model.Engine.Local.{
  event_cases, on_address_observation-Mirrors, on_link_observation-Mirrors,
}
use rmc_fabric.Model.Engine.Mirror.{
  Mirrors, visible, nothing-Mirrors, on_neighbor_observation-Mirrors, on_fdb_observation-Mirrors,
  on_lldp_observation-Mirrors,
}
use rmc_fabric.Model.Engine.Passes.{age-Mirrors, prepare_for_restart-Mirrors, mark_live-Mirrors}
use rmc_fabric.Model.Engine.Invariant.{EngineInv}
use rmc_fabric.Model.Engine.Run.{
  Operation, link, address, neighbor, fdb, lldp, aging, restart, go_live, policy, reclassify, step,
  run, step-After,
}
use rmc_fabric.Model.Engine.{
  Engine, new_engine, set_event_sink, on_neighbor_observation, on_fdb_observation,
  on_lldp_observation, on_keepalive, settle, settle_keepalive, find, keepalive_target, delivered,
}
use rmc_fabric.Model.Upkeep.{
  on_link_observation, on_address_observation, age, prepare_for_restart, mark_live,
  set_interface_policy, reconcile_by_key, find_candidate_by_mac,
}

-- The sink is set, and the counts of the local state are right.
pub record IsSound (e : Engine) : Type 0 where
  pub sunk : e.sink ≡ true
  pub local : Inv e.local_state

pub record Sound (r : Engine × List ModelEvent) : Type 0 where
  pub sound : IsSound r.0

if-Sound :
    (b : Bool) {r s : Engine × List ModelEvent} → Sound r → Sound s → Sound (if b then r else s)
if-Sound true x y = x
if-Sound false x y = y

module _ {e : Engine} (v : IsSound e) where
  same-Sound :
      {e' : Engine} (events : List ModelEvent)
      → e'.sink ≡ e.sink
      → e'.local_state ≡ e.local_state
      → Sound (e', events)
  same-Sound events p q = record {
    sound = record { sunk = p ∙ v.sunk; local = subst Inv (sym q) v.local };
  }

  still : Sound (e, [])
  still = record { sound = v }

  settle-Sound :
      (mac : Text) (was : Bool) (c : RemoteCandidate) (event : ObservationEvent) (now : ℕ)
      → Sound (delivered now (settle e mac was c event))
  unfolding settle
  settle-Sound mac was c event now = same-Sound _ (ground arith) (ground arith)

  neighbor-Sound :
      (obs : NeighborObservation) (created now : ℕ)
      → Sound (on_neighbor_observation e obs created now)
  unfolding on_neighbor_observation
  neighbor-Sound obs created now =
      if-Sound _ still (if-Sound _ still (settle-Sound obs.mac _ _ obs.event now))

  fdb-Sound :
      (obs : FdbObservation) (created now : ℕ) → Sound (on_fdb_observation e obs created now)
  unfolding on_fdb_observation
  fdb-Sound obs created now =
      if-Sound _ still (if-Sound _ still (settle-Sound obs.mac _ _ obs.event now))

  keepalive-Sound :
      (obs : LldpObservation) (key : Text) (now : ℕ) → Sound (on_keepalive e obs key now)
  unfolding on_keepalive settle_keepalive
  keepalive-Sound obs key now = elim (Option-cases (keepalive_target obs.event (find e key))) [
    | inl dropped ↦ rw (on_keepalive, dropped) still
    | inr (c, target) ↦ rw (on_keepalive, target) (same-Sound _ (ground arith) (ground arith))
  ]

  lldp-Sound :
      (obs : LldpObservation) (created now : ℕ) → Sound (on_lldp_observation e obs created now)
  unfolding on_lldp_observation
  lldp-Sound obs created now =
      let key = resolve_lldp_identity obs.remote_chassis_id obs.remote_port_id in
      if-Sound (not (e.interface_policy.allow_lldp_evidence obs.local_ifname)) still (
        if-Sound (is_empty key) still (
          if-Sound obs.keepalive (keepalive-Sound obs key now)
            (settle-Sound key _ _ obs.event now)))

  local-Sound :
      (t : LocalStateTracker) {e' : Engine} (events : List ModelEvent)
      → Inv t
      → e'.sink ≡ e.sink
      → e'.local_state ≡ t
      → Sound (e', events)
  local-Sound t events w p q = record {
    sound = record { sunk = p ∙ v.sunk; local = subst Inv (sym q) w };
  }

  reconcile-fields :
      (t : LocalStateTracker) (mac : Text) (found : Option RemoteCandidate)
      → ((reconcile_by_key (record e { local_state = t }) mac found).sink ≡ e.sink)
        × ((reconcile_by_key (record e { local_state = t }) mac found).local_state ≡ t)
  reconcile-fields t mac none = (refl, refl)
  reconcile-fields t mac (some c) = ground arith

  link-Sound :
      (obs : LinkObservation) (now : ℕ)
      → is_empty obs.ifname ≡ false
      → Sound (on_link_observation e obs now)
  unfolding on_link_observation
  link-Sound obs now named =
      let t = (LocalState.on_link_observation e.local_state obs).0 in
      let w : Inv t = on_link_observation-Inv obs named v.local in
      let fields = reconcile-fields t obs.mac (find e obs.mac) in
      if-Sound (not (e.interface_policy.include_in_local_state obs.ifname)) still (
        if-Sound (LocalState.on_link_observation e.local_state obs).1
          (local-Sound t _ w fields.0 fields.1) (local-Sound t _ w refl refl))

  address-Sound : (obs : AddressObservation) (now : ℕ) → Sound (on_address_observation e obs now)
  unfolding on_address_observation
  address-Sound obs now =
      let t = (LocalState.on_address_observation e.local_state obs).0 in
      let w : Inv t = on_address_observation-Inv obs v.local in
      if-Sound (not (e.interface_policy.include_in_local_state obs.ifname)) still (
        if-Sound (is_empty (extract_ip_from_cidr obs.cidr)) (local-Sound t [] w refl refl)
          (event_cases Sound (local-Sound t _ w refl refl) (local-Sound t _ w refl refl) obs.event))

policy-Mirrors : (e : Engine) (p : InterfacePolicy) → Mirrors e (set_interface_policy e p, [])
unfolding set_interface_policy hear_all find_candidate_by_mac
policy-Mirrors e p = record { agrees = λ mac. refl }

-- The histories that the statement below covers: links are named, stay, and have a MAC address, and
-- the classifier stays.
abbrev pub IsTracked : Operation → Type 0
IsTracked (link obs now) =
    (obs.event ≡ present) × (is_empty obs.ifname ≡ false) × (is_empty obs.mac ≡ false)
IsTracked (reclassify classify) = ⊥
IsTracked _ = Unit

abbrev pub AllTracked : List Operation → Type 0
AllTracked [] = Unit
AllTracked (op ∷ ops) = IsTracked op × AllTracked ops

step-Sound : (e : Engine) (op : Operation) → IsTracked op → IsSound e → Sound (step e op)
unfolding step age prepare_for_restart mark_live set_interface_policy LocalState.clear
step-Sound e (link obs now) h v = link-Sound v obs now h.1
step-Sound e (address obs now) h v = address-Sound v obs now
step-Sound e (neighbor obs created now) h v = neighbor-Sound v obs created now
step-Sound e (fdb obs created now) h v = fdb-Sound v obs created now
step-Sound e (lldp obs created now) h v = lldp-Sound v obs created now
step-Sound e (aging time now) h v = same-Sound v _ refl refl
step-Sound e (restart now) h v =
    local-Sound v LocalState.empty_tracker _ empty_tracker-Inv refl refl
step-Sound e (go_live now) h v = same-Sound v _ refl refl
step-Sound e (policy p) h v = same-Sound v _ refl refl
step-Sound e (reclassify classify) h v = absurd h

step-Mirrors :
    (e : Engine) (op : Operation) → IsTracked op → IsSound e → EngineInv e → Mirrors e (step e op)
unfolding step
step-Mirrors e (link obs now) h v w =
    on_link_observation-Mirrors e v.sunk v.local obs now h.0 h.1 h.2
step-Mirrors e (address obs now) h v w = on_address_observation-Mirrors e v.sunk w.distinct obs now
step-Mirrors e (neighbor obs created now) h v w =
    on_neighbor_observation-Mirrors e v.sunk now obs created
step-Mirrors e (fdb obs created now) h v w = on_fdb_observation-Mirrors e v.sunk now obs created
step-Mirrors e (lldp obs created now) h v w = on_lldp_observation-Mirrors e v.sunk now obs created
step-Mirrors e (aging time now) h v w = age-Mirrors e v.sunk w.distinct time now
step-Mirrors e (restart now) h v w = prepare_for_restart-Mirrors e v.sunk w.distinct now
step-Mirrors e (go_live now) h v w = mark_live-Mirrors e v.sunk w.distinct now
step-Mirrors e (policy p) h v w = policy-Mirrors e p
step-Mirrors e (reclassify classify) h v w = absurd h

run-Mirrors :
    (ops : List Operation) (e : Engine)
    → AllTracked ops
    → IsSound e
    → EngineInv e
    → Mirrors e (run e ops)
unfolding run
run-Mirrors [] e h v w = nothing-Mirrors e
run-Mirrors (op ∷ ops) e h v w =
    let later =
      run-Mirrors ops (step e op).0 h.1 (step-Sound e op h.0 v).sound (step-After e op w).inv in
    record {
      agrees = λ mac.
          hear_all-append mac (step e op).1 (run (step e op).0 ops).1 (visible e mac)
          ∙ ap (hear_all mac (run (step e op).0 ops).1) ((step-Mirrors e op h.0 v w).agrees mac)
          ∙ later.agrees mac;
    }

-- From a new engine with a sink, after any history in which every link observation is a present one
-- with a name and a MAC address, and the classifier is not replaced: a client that starts out with no
-- candidates and hears every event holds exactly those MAC addresses for visible whose candidates
-- `findCandidateByMac` finds.
pub hear_all-run :
    (config : ModelConfig) (ops : List Operation)
    → AllTracked ops
    → (mac : Text)
    → hear_all mac (run (set_event_sink (new_engine config) true) ops).1 false
      ≡ visible (run (set_event_sink (new_engine config) true) ops).0 mac
unfolding new_engine set_event_sink find_candidate_by_mac Map.lookup
hear_all-run config ops h mac =
    (run-Mirrors ops (set_event_sink (new_engine config) true) h
        (record { sunk = refl; local = empty_tracker-Inv })
        (record { distinct = tt; kept = tt })).agrees
      mac
