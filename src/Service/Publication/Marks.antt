-- ===== src/Service/Publication/Marks.antt =====
-- What is pending after a series of events.
use rmc_fabric.Base.{
  ◌≡◌, refl, ap, ◌∙◌, Text, text_discrete, false, List, [], ◌∷◌, Option, none, some, ite, arith,
}
use rmc_fabric.Containers.Map
use rmc_fabric.Model.Types.{
  ModelEvent, ModelEventKind, local_interface_changed, local_interface_removed,
  local_address_changed, candidate_added, candidate_updated, candidate_confirmed, candidate_aged,
  candidate_expired, candidate_removed, classification_changed,
}
use rmc_fabric.Service.Publication.{
  PublicationIntent, PublicationKey, PublicationKey-discrete, interface, local_state, candidate,
  changed, removed, DirtySet, IsDirtySet, mark_if, mark_candidate_changed, mark_candidate_removed,
  mark_interface_changed, mark_interface_removed, mark_local_state_changed, on_event_of_kind,
  on_model_event,
}

-- What an event asks a client to read again: a candidate, or an interface and the local state.
pub data Subject : Type 0 where
  of_candidate : PublicationIntent → Subject
  of_interface : PublicationIntent → Subject

abbrev pub subject : ModelEventKind → Subject
subject local_interface_changed = of_interface changed
subject local_address_changed = of_interface changed
subject local_interface_removed = of_interface removed
subject candidate_expired = of_candidate removed
subject candidate_removed = of_candidate removed
subject candidate_added = of_candidate changed
subject candidate_updated = of_candidate changed
subject candidate_confirmed = of_candidate changed
subject candidate_aged = of_candidate changed
subject classification_changed = of_candidate changed

abbrev pub if_named :
    Option Text → Text → PublicationIntent → Option PublicationIntent → Option PublicationIntent
if_named none name intent old = old
if_named (some n) name intent old = ite (text_discrete n name) (some intent) old

-- What an event says of a key, over what was said before.
abbrev said_of :
    PublicationKey
    → Subject
    → Option Text
    → Option Text
    → Option PublicationIntent
    → Option PublicationIntent
said_of (candidate m) (of_candidate intent) ifname mac old = if_named mac m intent old
said_of (interface n) (of_interface intent) ifname mac old = if_named ifname n intent old
said_of local_state (of_interface intent) ifname mac old = some changed
said_of _ _ ifname mac old = old

abbrev pub said : PublicationKey → ModelEvent → Option PublicationIntent → Option PublicationIntent
said k event old = said_of k (subject event.kind) event.ifname event.mac old

abbrev pub last_said :
    PublicationKey → List ModelEvent → Option PublicationIntent → Option PublicationIntent
last_said k [] old = old
last_said k (event ∷ events) old = last_said k events (said k event old)

module _ {Q : Type 0} ⦃d : DirtySet Q⦄ where
  unfoldable pub hear : List ModelEvent → Q → Q
  hear [] q = q
  hear (event ∷ events) q = hear events (on_model_event event q)

module _ {Q : Type 0} ⦃d : DirtySet Q⦄ (laws : IsDirtySet d) where
  abbrev At : PublicationKey → Q → Option PublicationIntent
  At k q = Map.lookup PublicationKey-discrete k (d.pending q)

  at-mark :
      (j k : PublicationKey) (i : PublicationIntent) (q : Q)
      → d.closed q ≡ false
      → At j (d.mark k i q).0 ≡ ite (PublicationKey-discrete k j) (some i) (At j q)
  at-mark j k i q ready = laws.lookup-mark j k i q ready

  candidate_marked :
      (j : PublicationKey) (i : PublicationIntent) (n f : Option Text) (q : Q)
      → d.closed q ≡ false
      → At j (mark_if (λ mac. d.mark (candidate mac) i) n q)
        ≡ said_of j (of_candidate i) f n (At j q)
  candidate_marked (candidate m) i none f q ready = refl
  candidate_marked (interface m) i none f q ready = refl
  candidate_marked local_state i none f q ready = refl
  candidate_marked (candidate m) i (some n) f q ready =
      ground (arith, at-mark (candidate m) (candidate n) i q ready)
  candidate_marked (interface m) i (some n) f q ready =
      ground (arith, at-mark (interface m) (candidate n) i q ready)
  candidate_marked local_state i (some n) f q ready =
      ground (arith, at-mark local_state (candidate n) i q ready)

  mark_if-closed :
      (make : Text → PublicationKey) (i : PublicationIntent) (n : Option Text) (q : Q)
      → d.closed (mark_if (λ name. d.mark (make name) i) n q) ≡ d.closed q
  mark_if-closed make i none q = refl
  mark_if-closed make i (some n) q = laws.closed-mark (make n) i q

  interface_marked :
      (j : PublicationKey) (i : PublicationIntent) (n m : Option Text) (q : Q)
      → d.closed q ≡ false
      → At j (d.mark local_state changed (mark_if (λ name. d.mark (interface name) i) n q)).0
        ≡ said_of j (of_interface i) n m (At j q)
  interface_marked j i n m q ready =
      at-mark j local_state changed (mark_if (λ name. d.mark (interface name) i) n q)
        (mark_if-closed interface i n q ∙ ready)
      ∙ inner j n
    where
      inner :
          (j : PublicationKey) (n : Option Text)
          → ite
              (PublicationKey-discrete local_state j)
              (some changed)
              (At j (mark_if (λ name. d.mark (interface name) i) n q))
            ≡ said_of j (of_interface i) n m (At j q)
      inner (candidate c) none = ground arith
      inner (interface c) none = ground arith
      inner local_state n = ground arith
      inner (candidate c) (some n) = ground (arith, at-mark (candidate c) (interface n) i q ready)
      inner (interface c) (some n) = ground (arith, at-mark (interface c) (interface n) i q ready)

  candidate_heard :
      (j : PublicationKey) (i : PublicationIntent) (event : ModelEvent) (q : Q)
      → d.closed q ≡ false
      → (At j (mark_if (λ mac. d.mark (candidate mac) i) event.mac q)
          ≡ said_of j (of_candidate i) event.ifname event.mac (At j q))
        × (d.closed (mark_if (λ mac. d.mark (candidate mac) i) event.mac q) ≡ false)
  candidate_heard j i event q ready = (
    candidate_marked j i event.mac event.ifname q ready,
    mark_if-closed candidate i event.mac q ∙ ready,
  )

  interface_heard :
      (j : PublicationKey) (i : PublicationIntent) (event : ModelEvent) (q : Q)
      → d.closed q ≡ false
      → (At j
            (d.mark local_state changed
              (mark_if (λ name. d.mark (interface name) i) event.ifname q)).0
          ≡ said_of j (of_interface i) event.ifname event.mac (At j q))
        × (d.closed
              (d.mark local_state changed
                (mark_if (λ name. d.mark (interface name) i) event.ifname q)).0
            ≡ false)
  interface_heard j i event q ready = (
    interface_marked j i event.ifname event.mac q ready,
    laws.closed-mark local_state changed
          (mark_if (λ name. d.mark (interface name) i) event.ifname q)
        ∙ mark_if-closed interface i event.ifname q
        ∙ ready,
  )

  at-on_event_of_kind :
      (j : PublicationKey) (kind : ModelEventKind) (event : ModelEvent) (q : Q)
      → d.closed q ≡ false
      → (At j (on_event_of_kind kind event q)
          ≡ said_of j (subject kind) event.ifname event.mac (At j q))
        × (d.closed (on_event_of_kind kind event q) ≡ false)
  unfolding on_event_of_kind mark_candidate_changed mark_candidate_removed mark_interface_changed
      mark_interface_removed mark_local_state_changed
  at-on_event_of_kind j local_interface_changed event q ready =
      interface_heard j changed event q ready
  at-on_event_of_kind j local_address_changed event q ready =
      interface_heard j changed event q ready
  at-on_event_of_kind j local_interface_removed event q ready =
      interface_heard j removed event q ready
  at-on_event_of_kind j candidate_expired event q ready = candidate_heard j removed event q ready
  at-on_event_of_kind j candidate_removed event q ready = candidate_heard j removed event q ready
  at-on_event_of_kind j candidate_added event q ready = candidate_heard j changed event q ready
  at-on_event_of_kind j candidate_updated event q ready = candidate_heard j changed event q ready
  at-on_event_of_kind j candidate_confirmed event q ready = candidate_heard j changed event q ready
  at-on_event_of_kind j candidate_aged event q ready = candidate_heard j changed event q ready
  at-on_event_of_kind j classification_changed event q ready =
      candidate_heard j changed event q ready

  -- If the queue is open, then after any events what is pending under a key is what the events last
  -- said of it, or else what was pending before: a candidate is changed or removed, an interface is
  -- changed or removed, and the local state is changed with every interface event.
  pub lookup-hear :
      (events : List ModelEvent) (q : Q) (k : PublicationKey)
      → d.closed q ≡ false
      → Map.lookup PublicationKey-discrete k (d.pending (hear events q))
        ≡ last_said k events (Map.lookup PublicationKey-discrete k (d.pending q))
  unfolding hear on_model_event
  lookup-hear [] q k ready = refl
  lookup-hear (event ∷ events) q k ready =
      let (said_now, ready') = at-on_event_of_kind k event.kind event q ready in
      lookup-hear events (on_model_event event q) k ready' ∙ ap (last_said k events) said_now
