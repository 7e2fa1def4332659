-- ===== src/Service/Queue/Losses.antt =====
-- What the queue loses it records.
use rmc_fabric.Base.{
  ℕ, ◌<◌, ◌≡◌, refl, sym, ap, ◌∙◌, Bool, true, false, List, [], ◌∷◌, ◌++◌, Option, none, some,
  if◌then◌else◌, arith, Bool-cases, inl, inr, ltb,
}
use rmc_fabric.Transports.Codec.Checks.{length}
use rmc_fabric.Service.Queue.{
  ObservationSource, ObservationItem, netlink, lldp, source_bit, has_bit, fetch_or, BoundedQueue,
  IsBoundedQueue, BoundedObservationQueue, note_dropped, push, try_pop,
}

abbrev pub same_source : ObservationSource → ObservationSource → Bool
same_source netlink netlink = true
same_source lldp lldp = true
same_source _ _ = false

-- The items of a source, in their order.
abbrev pub of_source : ObservationSource → List ObservationItem → List ObservationItem
of_source s [] = []
of_source s (item ∷ items) =
    let rest = of_source s items in if same_source item.source s then item ∷ rest else rest

of_source-append :
    (s : ObservationSource) (xs ys : List ObservationItem)
    → of_source s (xs ++ ys) ≡ of_source s xs ++ of_source s ys
of_source-append s [] ys = refl
of_source-append s (x ∷ xs) ys = ground (arith, of_source-append s xs ys)

-- A bit that is set stays set, and no other bit is set.
pub has_bit-fetch_or :
    (mask : ℕ) (a b : ObservationSource)
    → has_bit (fetch_or mask a) b ≡ (if same_source a b then true else has_bit mask b)
unfolding has_bit fetch_or source_bit
has_bit-fetch_or mask netlink netlink = ground arith
has_bit-fetch_or mask netlink lldp = ground arith
has_bit-fetch_or mask lldp netlink = ground arith
has_bit-fetch_or mask lldp lldp = ground arith

-- What a producer and the consumer do.
pub data Use : Type 0 where
  pushed : ObservationItem → Use
  popped : Use

abbrev pub pushes : List Use → List ObservationItem
pushes [] = []
pushes (pushed item ∷ uses) = item ∷ pushes uses
pushes (popped ∷ uses) = pushes uses

abbrev pub cons_some : Option ObservationItem → List ObservationItem → List ObservationItem
cons_some none items = items
cons_some (some item) items = item ∷ items

note_dropped_keeps :
    (mask : ℕ) (item : Option ObservationItem) (source : ObservationSource)
    → has_bit (note_dropped mask item) source ≡ false
    → has_bit mask source ≡ false
unfolding note_dropped
note_dropped_keeps mask none source h = h
note_dropped_keeps mask (some item) source h =
    ground (arith, has_bit-fetch_or mask item.source source)

module _ {Q : Type 0} ⦃s : BoundedQueue Q⦄ where
  -- The queue after the uses, and the items that the consumer has got.
  unfoldable pub run :
      BoundedObservationQueue Q → List Use → BoundedObservationQueue Q × List ObservationItem
  run b [] = (b, [])
  run b (pushed item ∷ uses) = run (push b item).0 uses
  run b (popped ∷ uses) =
      let (b', item) = try_pop b in let (b'', items) = run b' uses in (b'', cons_some item items)

  run_keeps :
      (uses : List Use) (b : BoundedObservationQueue Q) (source : ObservationSource)
      → has_bit (run b uses).0.resync_mask source ≡ false
      → has_bit b.resync_mask source ≡ false
  unfolding run push try_pop
  run_keeps [] b source h = h
  run_keeps (pushed item ∷ uses) b source h =
      note_dropped_keeps b.resync_mask (s.push item b.queue).1 source
        (run_keeps uses (push b item).0 source h)
  run_keeps (popped ∷ uses) b source h = run_keeps uses (try_pop b).0 source h

pub append_nothing : (xs : List ObservationItem) → xs ++ [] ≡ xs
append_nothing [] = refl
append_nothing (x ∷ xs) = ap (λ l. x ∷ l) (append_nothing xs)

pub append_items : (xs ys zs : List ObservationItem) → (xs ++ ys) ++ zs ≡ xs ++ (ys ++ zs)
append_items [] ys zs = refl
append_items (x ∷ xs) ys zs = ap (λ l. x ∷ l) (append_items xs ys zs)

-- The discarded item's bit is set, so that it has no part in a source whose bit is clear.
dropped_other :
    (mask : ℕ) (x : ObservationItem) (source : ObservationSource)
    → has_bit (note_dropped mask (some x)) source ≡ false
    → same_source x.source source ≡ false
unfolding note_dropped
dropped_other mask x source h = ground (arith, has_bit-fetch_or mask x.source source)

module _ {Q : Type 0} ⦃s : BoundedQueue Q⦄ (laws : IsBoundedQueue s) where
  push_into :
      (a : ObservationItem) (q : Q) (mask : ℕ) (source : ObservationSource)
      (rest old : List ObservationItem)
      → s.closed q ≡ false
      → 0 < s.capacity q
      → s.items q ≡ old
      → has_bit (note_dropped mask (s.push a q).1) source ≡ false
      → of_source source (s.items (s.push a q).0 ++ rest) ≡ of_source source (old ++ (a ∷ rest))
  push_into a q mask source rest [] ready room e h =
      let small : length (s.items q) < s.capacity q = rw e room in
      rw ((laws.push_room a q ready small).0, e) refl
  push_into a q mask source rest (x ∷ xs) ready room e h =
      elim (Bool-cases (ltb (length (s.items q)) (s.capacity q))) [
        | inl small ↦
            rw ((laws.push_room a q ready (ground arith)).0, e, append_items xs (a ∷ []) rest) refl
        | inr full ↦
            let (kept, dropped) = laws.push_full a x xs q ready e (ground arith) in
            let other = dropped_other mask x source (rw (← dropped) h) in
            rw (kept, append_items xs (a ∷ []) rest, other) refl
      ]

  pop_from :
      (q : Q) (source : ObservationSource) (old got left rest : List ObservationItem)
      → s.items q ≡ old
      → of_source source (got ++ left) ≡ of_source source (s.items (s.try_pop q).0 ++ rest)
      → of_source source (cons_some (s.try_pop q).1 got ++ left) ≡ of_source source (old ++ rest)
  pop_from q source [] got left rest e h =
      let none_got : s.try_pop q ≡ (q, none) = laws.try_pop_empty q e in
      rw none_got (h ∙ rw (none_got, e) refl)
  pop_from q source (x ∷ xs) got left rest e h =
      let (kept, gotten) = laws.try_pop_some x xs q e in
      let same : of_source source (got ++ left) ≡ of_source source (xs ++ rest) = rw (← kept) h in
      rw (gotten, same) refl

  -- If the queue is open and has room for an item, and the resync bit of a source is clear after
  -- any pushes and pops, then nothing of that source is lost: what was got, and what is left, are
  -- what was there and what was pushed, in order.
  pub of_source-run :
      (uses : List Use) (b : BoundedObservationQueue Q) (source : ObservationSource)
      → s.closed b.queue ≡ false
      → 0 < s.capacity b.queue
      → has_bit (run b uses).0.resync_mask source ≡ false
      → of_source source ((run b uses).1 ++ s.items (run b uses).0.queue)
        ≡ of_source source (s.items b.queue ++ pushes uses)
  unfolding run push try_pop
  of_source-run [] b source ready room h =
      ap (of_source source) (sym (append_nothing (s.items b.queue)))
  of_source-run (pushed item ∷ uses) b source ready room h =
      of_source-run uses (push b item).0 source (laws.closed-push item b.queue ∙ ready)
        (rw (laws.capacity-push item b.queue) room) h
      ∙ push_into item b.queue b.resync_mask source (pushes uses) (s.items b.queue) ready room refl
          (run_keeps uses (push b item).0 source h)
  of_source-run (popped ∷ uses) b source ready room h =
      let (b', item) = try_pop b in
      pop_from b.queue source (s.items b.queue) (run b' uses).1 (s.items (run b' uses).0.queue)
        (pushes uses) refl
        (of_source-run uses b' source (laws.closed-try_pop b.queue ∙ ready)
          (rw (laws.capacity-try_pop b.queue) room) h)
