-- ===== src/Service/Runtime/Lifecycle.antt =====
-- The life cycle of the runtime.
use rmc_fabric.Base.{
  ℕ, ◌≡◌, refl, ◌∙◌, Bool, true, false, List, [], ◌∷◌, none, is_some, Bool-cases, inl, inr,
}
use rmc_fabric.Model.Engine.{Engine}
use rmc_fabric.Model.Candidate.{live}
use rmc_fabric.Model.Upkeep.{mark_live}
use rmc_fabric.Service.Queue.{
  BoundedQueue, IsBoundedQueue, BoundedObservationQueue, push, try_pop, reopen, close,
}
use rmc_fabric.Service.Supervision.{LldpObserver}
use rmc_fabric.Service.Runtime.{
  Runtime, Monitor, Startup, Turn, produced, consumed, interleave, clean_up_failed_start, start,
  stop,
}

module _ {Q O M : Type 0} ⦃q : BoundedQueue Q⦄ ⦃l : LldpObserver O⦄ ⦃m : Monitor M⦄ where
  -- Nothing produces, and the queue is closed.
  pub record IsDown (r : Runtime Q O M) : Type 0 where
    pub no_monitor : r.monitor ≡ none
    pub no_observer : r.supervision.observer ≡ none
    pub closed : q.closed r.observations.queue ≡ true

  -- The monitor is there, the model is live, and the queue takes what is pushed.
  pub record IsUp (r : Runtime Q O M) : Type 0 where
    pub monitored : is_some r.monitor ≡ true
    pub live : r.model.phase ≡ live
    pub taking : q.closed r.observations.queue ≡ false
    pub working : r.worker_failed ≡ false

  -- What a start comes to, by its result.
  abbrev pub Started : Runtime Q O M × Bool → Type 0
  Started (r, true) = IsUp r
  Started (r, false) = IsDown r

module _ {Q : Type 0} ⦃q : BoundedQueue Q⦄ (laws : IsBoundedQueue q) where
  interleave-closed :
      (turns : List Turn) (model : Engine) (b : BoundedObservationQueue Q)
      → q.closed (interleave turns model b).2.queue ≡ q.closed b.queue
  unfolding interleave push try_pop
  interleave-closed [] model b = refl
  interleave-closed (produced item ∷ turns) model b =
      interleave-closed turns model (push b item).0 ∙ laws.closed-push item b.queue
  interleave-closed (consumed created now ∷ turns) model b =
      interleave-closed turns _ (try_pop b).0 ∙ laws.closed-try_pop b.queue

module _ {Q O M : Type 0} ⦃q : BoundedQueue Q⦄ ⦃l : LldpObserver O⦄ ⦃m : Monitor M⦄
    (laws : IsBoundedQueue q) where
  clean_up_failed_start-IsDown : (r : Runtime Q O M) → IsDown (clean_up_failed_start r)
  unfolding clean_up_failed_start close
  clean_up_failed_start-IsDown r = record {
    no_monitor = refl;
    no_observer = refl;
    closed = laws.closed-close r.observations.queue;
  }

  -- From a runtime without a monitor, a start that succeeds leaves the runtime up: monitored, its
  -- model live and its queue open. A start that fails leaves it down: no monitor, no observer, and
  -- the queue closed.
  pub start-Started :
      (r : Runtime Q O M) (startup : Startup O M) (now : ℕ)
      → r.monitor ≡ none
      → Started ((start r startup now).0, (start r startup now).2)
  unfolding start reopen mark_live
  start-Started r startup now e = elim (Bool-cases startup.worker_starts) [
    | inr dead ↦ rw (e, dead) (clean_up_failed_start-IsDown _)
    | inl works ↦ elim (Bool-cases startup.monitor_starts) [
      | inr dead ↦ rw (e, works, dead) (clean_up_failed_start-IsDown _)
      | inl runs ↦
          rw (e, works, runs)
            (record {
              monitored = refl;
              live = refl;
              taking =
                  interleave-closed laws startup.meanwhile _ (reopen r.observations)
                  ∙ laws.closed-reopen r.observations.queue;
              working = refl;
            })
    ]
  ]

  -- A stop leaves the runtime down, and a start after it comes to one of the two as well.
  pub start-stop :
      (r : Runtime Q O M) (startup : Startup O M) (now : ℕ)
      → IsDown (stop r) × Started ((start (stop r) startup now).0, (start (stop r) startup now).2)
  unfolding stop clean_up_failed_start
  start-stop r startup now = (
    record {
      no_monitor = refl;
      no_observer = refl;
      closed = (clean_up_failed_start-IsDown r).closed;
    },
    start-Started (stop r) startup now refl,
  )
