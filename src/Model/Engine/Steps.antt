-- ===== src/Model/Engine/Steps.antt =====
-- Every handler keeps the engine's invariant.
use rmc_fabric.Base.{
  ℕ, ◌≡◌, refl, Text, text_discrete, Bool, true, false, not, if◌then◌else◌, List, [], some,
  Bool-cases, Option-cases, is_empty, inl, inr,
}
use rmc_fabric.Containers.Map
use rmc_fabric.Containers.Map.{map_values, keep_if}
use rmc_fabric.Containers.Map.All.{lookup-All, insert-All, erase-All}
use rmc_fabric.Model.Types.{
  RemoteCandidate, CandidateStatus, provisional, confirmed, aged, expired, ObservationEvent,
  present, NeighborObservation, FdbObservation, LldpObservation, ModelEvent,
}
use rmc_fabric.Model.LldpUtils.{resolve_lldp_identity}
use rmc_fabric.Model.Candidate.{
  ModelPhase, initializing, live, has_no_evidence, is_publishable, new_candidate, add_lldp,
  lldp_event, keep_alive, revive_keepalive, age_status,
}
use rmc_fabric.Model.Engine.Mirror.{target_found}
use rmc_fabric.Model.Engine.Invariant.{
  IsCandidate, IsKept, EngineInv, is_waiting, add_neighbor-IsCandidate, add_fdb-IsCandidate,
  add_lldp-IsCandidate, settled-IsKept,
}
use rmc_fabric.Model.Engine.{
  Engine, find, or_new, settle, settle_keepalive, on_keepalive, keepalive_target, store,
  drop_candidate, update_classification, delivered, on_neighbor_observation, on_fdb_observation,
  on_lldp_observation,
}

-- The invariant of the engine that a handler leaves.
pub record After (r : Engine × List ModelEvent) : Type 0 where
  pub inv : EngineInv r.0

-- A branch of a handler keeps what both branches keep.
pub if-After :
    (b : Bool) {r s : Engine × List ModelEvent} → After r → After s → After (if b then r else s)
if-After true x y = x
if-After false x y = y

fresh-IsCandidate : (mac : Text) (created : ℕ) → IsCandidate mac (new_candidate mac created)
unfolding new_candidate
fresh-IsCandidate mac created = record { key = refl; neigh = refl; fdb = refl }

lldp_event-status :
    (event : ObservationEvent) (obs : LldpObservation) (c : RemoteCandidate)
    → (lldp_event event obs c).status ≡ c.status
lldp_event-status present obs c = refl
lldp_event-status ObservationEvent.removed obs c = refl

add_lldp-status : (obs : LldpObservation) (c : RemoteCandidate) → (add_lldp obs c).status ≡ c.status
unfolding add_lldp
add_lldp-status obs c = lldp_event-status obs.event obs c

keep_alive-waiting :
    (phase : ModelPhase) (status : CandidateStatus)
    → is_waiting phase status ≡ true
    → is_waiting phase (revive_keepalive status) ≡ true
keep_alive-waiting live status h = refl
keep_alive-waiting initializing provisional h = refl
keep_alive-waiting initializing CandidateStatus.removed h = refl
keep_alive-waiting initializing confirmed h = cc
keep_alive-waiting initializing aged h = cc
keep_alive-waiting initializing expired h = cc

pub age_status-waiting :
    (phase : ModelPhase) (x a : Bool) (status : CandidateStatus)
    → is_waiting phase status ≡ true
    → is_waiting phase (age_status x a status) ≡ true
age_status-waiting live x a status h = refl
age_status-waiting initializing x a provisional h = refl
age_status-waiting initializing x a CandidateStatus.removed h = refl
age_status-waiting initializing x a confirmed h = cc
age_status-waiting initializing x a aged h = cc
age_status-waiting initializing x a expired h = cc

module _ {e : Engine} (v : EngineInv e) where
  pub store-Inv :
      (mac : Text) {c : RemoteCandidate} → IsKept e.phase mac c → EngineInv (store e mac c)
  store-Inv mac {c} k = record {
    distinct = Map.insert-IsDistinct text_discrete mac c e.candidates v.distinct;
    kept = insert-All (IsKept e.phase) text_discrete mac c e.candidates k v.kept;
  }

  drop-Inv : (mac : Text) → EngineInv (drop_candidate e mac)
  drop-Inv mac = record {
    distinct = Map.erase-IsDistinct text_discrete mac e.candidates v.distinct;
    kept = erase-All (IsKept e.phase) text_discrete mac e.candidates v.kept;
  }

  pub found-IsKept : (mac : Text) {c : RemoteCandidate} → find e mac ≡ some c → IsKept e.phase mac c
  found-IsKept mac h = lookup-All (IsKept e.phase) text_discrete mac e.candidates v.kept h

  or_new-IsCandidate :
      (mac : Text) (created : ℕ) → IsCandidate mac (or_new (find e mac) mac created)
  or_new-IsCandidate mac created = elim (Option-cases (find e mac)) [
    | inl h ↦ rw h (fresh-IsCandidate mac created)
    | inr (c, h) ↦ rw h (found-IsKept mac h).is_candidate
  ]

  settle-Inv :
      (mac : Text) (was : Bool) (c : RemoteCandidate) (event : ObservationEvent)
      → IsCandidate mac c
      → EngineInv (settle e mac was c event).0
  unfolding settle
  settle-Inv mac was c event k = elim (Bool-cases (has_no_evidence c)) [
    | inl gone ↦ rw gone (drop-Inv mac)
    | inr here ↦ rw here (store-Inv mac (settled-IsKept e.phase mac e.classifier c event k))
  ]

  pub unchanged-After : After (e, [])
  unchanged-After = record { inv = v }

  settled-After :
      (mac : Text) (was : Bool) (c : RemoteCandidate) (event : ObservationEvent) (now : ℕ)
      → IsCandidate mac c
      → After (delivered now (settle e mac was c event))
  settled-After mac was c event now k = record { inv = settle-Inv mac was c event k }

  pub on_neighbor_observation-After :
      (obs : NeighborObservation) (created now : ℕ)
      → After (on_neighbor_observation e obs created now)
  unfolding on_neighbor_observation
  on_neighbor_observation-After obs created now = if-After _ unchanged-After (
      if-After _ unchanged-After (
        settled-After obs.mac _ _ obs.event now
          (add_neighbor-IsCandidate obs (or_new-IsCandidate obs.mac created))))

  pub on_fdb_observation-After :
      (obs : FdbObservation) (created now : ℕ) → After (on_fdb_observation e obs created now)
  unfolding on_fdb_observation
  on_fdb_observation-After obs created now = if-After _ unchanged-After (
      if-After _ unchanged-After (
        settled-After obs.mac _ _ obs.event now
          (add_fdb-IsCandidate obs (or_new-IsCandidate obs.mac created))))

  keep_alive-IsKept :
      (key : Text) (obs : LldpObservation) {c : RemoteCandidate}
      → IsKept e.phase key c
      → IsKept e.phase key (keep_alive (update_classification e.classifier (add_lldp obs c)))
  unfolding keep_alive
  keep_alive-IsKept key obs {c} k =
      let w = add_lldp-IsCandidate obs k.is_candidate in
      record {
        is_candidate = record { key = w.key; neigh = w.neigh; fdb = w.fdb };
        waiting =
            keep_alive-waiting e.phase (add_lldp obs c).status
              (rw (add_lldp-status obs c) k.waiting);
      }

  settle_keepalive-Inv :
      (key : Text) (was : Bool) (obs : LldpObservation) (c : RemoteCandidate)
      → IsKept e.phase key c
      → EngineInv (settle_keepalive e key was (add_lldp obs c)).0
  unfolding settle_keepalive
  settle_keepalive-Inv key was obs c k = elim (Bool-cases (has_no_evidence (add_lldp obs c))) [
    | inl gone ↦ rw gone (drop-Inv key)
    | inr here ↦ rw here (store-Inv key (keep_alive-IsKept key obs k))
  ]

  on_keepalive-After :
      (obs : LldpObservation) (key : Text) (now : ℕ) → After (on_keepalive e obs key now)
  unfolding on_keepalive
  on_keepalive-After obs key now = elim (Option-cases (keepalive_target obs.event (find e key))) [
    | inl dropped ↦ rw (on_keepalive, dropped) unchanged-After
    | inr (c, target) ↦
        rw (on_keepalive, target)
          (record {
            inv =
                settle_keepalive-Inv key (is_publishable c) obs c
                  (found-IsKept key (target_found obs.event (find e key) c target));
          })
  ]

  pub on_lldp_observation-After :
      (obs : LldpObservation) (created now : ℕ) → After (on_lldp_observation e obs created now)
  unfolding on_lldp_observation
  on_lldp_observation-After obs created now =
      let key = resolve_lldp_identity obs.remote_chassis_id obs.remote_port_id in
      let c = or_new (find e key) key created in
      if-After (not (e.interface_policy.allow_lldp_evidence obs.local_ifname)) unchanged-After (
        if-After (is_empty key) unchanged-After (
          if-After obs.keepalive (on_keepalive-After obs key now) (
            settled-After key (is_publishable c) (add_lldp obs c) obs.event now
              (add_lldp-IsCandidate obs (or_new-IsCandidate key created)))))
