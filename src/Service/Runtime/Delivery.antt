-- ===== src/Service/Runtime/Delivery.antt =====
-- An event of the monitor reaches the model, with what the observer delivers for it.
use rmc_fabric.Base.{ℕ, ◌+◌, ◌≤◌, ◌≡◌, refl, ap, ◌∙◌, false, List, [], ◌++◌, arith}
use rmc_fabric.Model.Engine.Run.{run}
use rmc_fabric.Transports.Codec.Checks.{length}
use rmc_fabric.Service.Mapper.{make_callbacks}
use rmc_fabric.Service.Queue.{BoundedQueue, IsBoundedQueue, push_all}
use rmc_fabric.Service.Queue.Room.{push_all_room}
use rmc_fabric.Service.Supervision.{LldpObserver}
use rmc_fabric.Service.Callbacks.{MonitorEvent, Runtime, runtime_sinks, notify}
use rmc_fabric.Service.Callbacks.Items.{items_of, observer_told, notify_lem}
use rmc_fabric.Service.Runtime.{observation_loop}
use rmc_fabric.Service.Runtime.Consumer.{operations, observation_loop-run}

module _ {Q O M : Type 0} ⦃q : BoundedQueue Q⦄ ⦃l : LldpObserver O⦄ (laws : IsBoundedQueue q) where
  -- An event makes its own observation, and a link event also those that the observer delivers when
  -- it is told that the interface is up, if the link is there and running, or else down. If the
  -- queue is open and empty, and there is room and a turn of the consumer for each of these, then
  -- after the callback and the turns the model is as the calls for the observations leave it, their
  -- events are delivered, the queue is empty, the resync bits are as they were, and the observer is
  -- as it is when it has been told.
  pub observation_loop-notify :
      (r : Runtime Q O M) (event : MonitorEvent) (seen : ℕ) (turns : List (ℕ × ℕ))
      → q.items r.observations.queue ≡ []
      → q.closed r.observations.queue ≡ false
      → length (items_of event seen r.supervision.observer) ≤ q.capacity r.observations.queue
      → length (items_of event seen r.supervision.observer) ≤ length turns
      → let r' = notify (make_callbacks runtime_sinks) event seen r in
        let calls = operations (items_of event seen r.supervision.observer) turns in
        let done = observation_loop turns r.model r'.observations in
        (done.0 ≡ (run r.model calls).0)
        × (done.1 ≡ (run r.model calls).1)
        × (q.items done.2.queue ≡ [])
        × (done.2.resync_mask ≡ r.observations.resync_mask)
        × (r'.supervision.observer ≡ (observer_told event r.supervision.observer).0)
  observation_loop-notify r event seen turns empty ready room enough =
      let items = items_of event seen r.supervision.observer in
      let fits : length (q.items r.observations.queue) + length items
          ≤ q.capacity r.observations.queue =
        rw empty (omega arith) in
      let (kept, mask, taking, size) = push_all_room laws items r.observations ready fits in
      let queued : q.items (push_all items r.observations).queue ≡ items =
        kept ∙ ap (λ old. old ++ items) empty in
      let (same, heard, drained, bits) =
        observation_loop-run laws turns items r.model (push_all items r.observations) queued
          enough in
      rw (notify_lem event seen r) (same, heard, drained, bits ∙ mask, refl)
