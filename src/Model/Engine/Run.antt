-- ===== src/Model/Engine/Run.antt =====
-- Whole histories of the engine: any sequence of the calls that its clients and its sources make.
use rmc_fabric.Base.{ℕ, ◌≡◌, Text, List, [], ◌∷◌, ◌++◌, none}
use rmc_fabric.Model.Types.{
  LinkObservation, AddressObservation, NeighborObservation, FdbObservation, LldpObservation,
  ModelConfig, ModelEvent, Classifier, InterfacePolicy,
}
use rmc_fabric.Model.Candidate.{initializing}
use rmc_fabric.Model.Engine.Invariant.{EngineInv}
use rmc_fabric.Model.Engine.Steps.{
  After, on_neighbor_observation-After, on_fdb_observation-After, on_lldp_observation-After,
}
use rmc_fabric.Model.Engine.Sweeps.{
  age-After, prepare_for_restart-After, mark_live-After, set_classifier-Inv,
  on_link_observation-After, on_address_observation-After, initializing_hidden,
  initializing_unlisted,
}
use rmc_fabric.Model.Engine.{
  Engine, new_engine, on_neighbor_observation, on_fdb_observation, on_lldp_observation,
}
use rmc_fabric.Model.Upkeep.{
  on_link_observation, on_address_observation, age, prepare_for_restart, mark_live,
  set_interface_policy, set_classifier, find_candidate_by_mac, remote_candidates,
}

-- A call with the readings of the clock that it makes.
pub data Operation : Type 0 where
  link : LinkObservation → ℕ → Operation
  address : AddressObservation → ℕ → Operation
  neighbor : NeighborObservation → ℕ → ℕ → Operation
  fdb : FdbObservation → ℕ → ℕ → Operation
  lldp : LldpObservation → ℕ → ℕ → Operation
  aging : ℕ → ℕ → Operation
  restart : ℕ → Operation
  go_live : ℕ → Operation
  policy : InterfacePolicy → Operation
  reclassify : Classifier → Operation

unfoldable pub step : Engine → Operation → Engine × List ModelEvent
step e (link obs now) = on_link_observation e obs now
step e (address obs now) = on_address_observation e obs now
step e (neighbor obs created now) = on_neighbor_observation e obs created now
step e (fdb obs created now) = on_fdb_observation e obs created now
step e (lldp obs created now) = on_lldp_observation e obs created now
step e (aging time now) = age e time now
step e (restart now) = prepare_for_restart e now
step e (go_live now) = mark_live e now
step e (policy p) = (set_interface_policy e p, [])
step e (reclassify classify) = (set_classifier e classify, [])

-- The engine and all events of a history.
unfoldable pub run : Engine → List Operation → Engine × List ModelEvent
run e [] = (e, [])
run e (op ∷ ops) =
    let (e', events) = step e op in let (e'', rest) = run e' ops in (e'', events ++ rest)

pub step-After : (e : Engine) (op : Operation) → EngineInv e → After (step e op)
unfolding step set_interface_policy
step-After e (link obs now) v = on_link_observation-After v obs now
step-After e (address obs now) v = on_address_observation-After v obs now
step-After e (neighbor obs created now) v = on_neighbor_observation-After v obs created now
step-After e (fdb obs created now) v = on_fdb_observation-After v obs created now
step-After e (lldp obs created now) v = on_lldp_observation-After v obs created now
step-After e (aging time now) v = age-After v time now
step-After e (restart now) v = prepare_for_restart-After v now
step-After e (go_live now) v = mark_live-After v now
step-After e (policy p) v = record { inv = record { distinct = v.distinct; kept = v.kept } }
step-After e (reclassify classify) v = record { inv = set_classifier-Inv v classify }

-- Any history keeps the engine's invariant: one candidate to a MAC address and under its own, the
-- flags of neighbour and FDB evidence true exactly when there is such evidence, and in the initial
-- phase every candidate provisional or removed.
pub run-EngineInv : (ops : List Operation) (e : Engine) → EngineInv e → EngineInv (run e ops).0
unfolding run
run-EngineInv [] e v = v
run-EngineInv (op ∷ ops) e v = run-EngineInv ops (step e op).0 (step-After e op v).inv

pub new_engine-EngineInv : (config : ModelConfig) → EngineInv (new_engine config)
unfolding new_engine
new_engine-EngineInv config = record { distinct = tt; kept = tt }

-- From a new engine, after any history, while the engine is in its initial phase, before the first
-- `markLive`, and between `prepareForRestart` and the next one, no MAC address finds a candidate and
-- the list of candidates is empty.
pub run-initializing_hidden :
    (config : ModelConfig) (ops : List Operation)
    → (run (new_engine config) ops).0.phase ≡ initializing
    → (mac : Text)
    → (find_candidate_by_mac (run (new_engine config) ops).0 mac ≡ none)
      × (remote_candidates (run (new_engine config) ops).0 ≡ [])
run-initializing_hidden config ops h mac =
    let e = (run (new_engine config) ops).0 in
    let v = run-EngineInv ops (new_engine config) (new_engine-EngineInv config) in
    (initializing_hidden e v h mac, initializing_unlisted e v h)
