-- ===== src/Service/Runtime/Consumer.antt =====
-- The consumer hands the whole queue to the model.
use rmc_fabric.Base.{ℕ, ◌≡◌, ◌≤◌, refl, ap, List, [], ◌∷◌, ◌++◌, arith}
use rmc_fabric.Model.Engine.{Engine}
use rmc_fabric.Model.Engine.Run.{Operation, step, run}
use rmc_fabric.Transports.Codec.Checks.{length}
use rmc_fabric.Service.Queue.{
  ObservationPayload, link, address, neighbor, fdb, ObservationItem, BoundedQueue, IsBoundedQueue,
  BoundedObservationQueue, try_pop,
}
use rmc_fabric.Service.Runtime.{apply_payload, apply_observation, observation_loop}

-- The call of the model that a payload stands for, at the readings of the clock.
abbrev pub call_for : ObservationPayload → ℕ → ℕ → Operation
call_for (link o) created now = Operation.link o now
call_for (address o) created now = Operation.address o now
call_for (neighbor o) created now = Operation.neighbor o created now
call_for (fdb o) created now = Operation.fdb o created now
call_for (ObservationPayload.lldp o) created now = Operation.lldp o created now

-- The calls of the model for the items, in order.
abbrev pub operations : List ObservationItem → List (ℕ × ℕ) → List Operation
operations [] turns = []
operations (item ∷ items) [] = []
operations (item ∷ items) ((created, now) ∷ turns) =
    call_for item.payload created now ∷ operations items turns

apply_payload-step :
    (model : Engine) (payload : ObservationPayload) (created now : ℕ)
    → apply_payload model payload created now ≡ step model (call_for payload created now)
unfolding apply_payload step
apply_payload-step model (link o) created now = refl
apply_payload-step model (address o) created now = refl
apply_payload-step model (neighbor o) created now = refl
apply_payload-step model (fdb o) created now = refl
apply_payload-step model (ObservationPayload.lldp o) created now = refl

module _ {Q : Type 0} ⦃s : BoundedQueue Q⦄ (laws : IsBoundedQueue s) where
  -- With a turn for each queued item, or more, the loop leaves the model as the calls for the items
  -- leave it, each item with the call for its kind of observation, in order; it delivers their
  -- events, and leaves an empty queue with the same resync bits.
  pub observation_loop-run :
      (turns : List (ℕ × ℕ)) (items : List ObservationItem) (model : Engine)
      (b : BoundedObservationQueue Q)
      → s.items b.queue ≡ items
      → length items ≤ length turns
      → ((observation_loop turns model b).0 ≡ (run model (operations items turns)).0)
        × ((observation_loop turns model b).1 ≡ (run model (operations items turns)).1)
        × (s.items (observation_loop turns model b).2.queue ≡ [])
        × ((observation_loop turns model b).2.resync_mask ≡ b.resync_mask)
  unfolding observation_loop run try_pop apply_observation
  observation_loop-run [] [] model b e n = (refl, refl, e, refl)
  observation_loop-run [] (item ∷ items) model b e n = absurd (omega arith)
  observation_loop-run (turn ∷ turns) [] model b e n =
      rw (laws.try_pop_empty b.queue e) (observation_loop-run turns [] model b e (omega arith))
  observation_loop-run ((created, now) ∷ turns) (item ∷ items) model b e n =
      let (kept, taken) = laws.try_pop_some item items b.queue e in
      let now_run = step model (call_for item.payload created now) in
      let (same, heard, empty, bits) =
        observation_loop-run turns items now_run.0 (try_pop b).0 kept (omega arith) in
      rw (taken, apply_payload-step model item.payload created now)
        (same, ap (λ events. now_run.1 ++ events) heard, empty, bits)
