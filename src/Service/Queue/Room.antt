-- ===== src/Service/Queue/Room.antt =====
-- Pushes into a queue that has room for them.
use rmc_fabric.Base.{◌+◌, ◌≤◌, ◌≡◌, refl, sym, ap, ◌∙◌, false, List, [], ◌∷◌, ◌++◌, arith}
use rmc_fabric.Transports.Codec.Checks.{length}
use rmc_fabric.Service.Queue.{
  ObservationItem, BoundedQueue, IsBoundedQueue, BoundedObservationQueue, note_dropped, push,
  push_all,
}
use rmc_fabric.Service.Queue.Losses.{append_nothing, append_items}

pub length-append : (xs ys : List ObservationItem) → length (xs ++ ys) ≡ length xs + length ys
length-append [] ys = omega arith
length-append (x ∷ xs) ys = omega (arith, length-append xs ys)

module _ {Q : Type 0} ⦃s : BoundedQueue Q⦄ (laws : IsBoundedQueue s) where
  -- An open queue with room for the items takes them all, in order, and loses nothing.
  pub push_all_room :
      (xs : List ObservationItem) (b : BoundedObservationQueue Q)
      → s.closed b.queue ≡ false
      → length (s.items b.queue) + length xs ≤ s.capacity b.queue
      → (s.items (push_all xs b).queue ≡ s.items b.queue ++ xs)
        × ((push_all xs b).resync_mask ≡ b.resync_mask)
        × (s.closed (push_all xs b).queue ≡ false)
        × (s.capacity (push_all xs b).queue ≡ s.capacity b.queue)
  unfolding push note_dropped
  push_all_room [] b ready room = (sym (append_nothing (s.items b.queue)), refl, ready, refl)
  push_all_room (x ∷ xs) b ready room =
      let (kept, none_lost) = laws.push_room x b.queue ready (omega arith) in
      let more : length (s.items (s.push x b.queue).0) ≡ length (s.items b.queue) + 1 =
        ap length kept ∙ length-append (s.items b.queue) (x ∷ []) ∙ refl in
      let (all, bits, taking, size) =
        push_all_room xs (push b x).0 (laws.closed-push x b.queue ∙ ready)
          (omega (arith, more, laws.capacity-push x b.queue)) in
      (
        all ∙ ap (λ l. l ++ xs) kept ∙ append_items (s.items b.queue) (x ∷ []) xs,
        bits ∙ ap (note_dropped b.resync_mask) none_lost,
        taking,
        size ∙ laws.capacity-push x b.queue,
      )
