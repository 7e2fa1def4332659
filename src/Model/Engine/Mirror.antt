-- ===== src/Model/Engine/Mirror.antt =====
-- The event stream and the queries agree: a client that hears every event holds exactly the
-- candidates for visible that `findCandidateByMac` finds.
use rmc_fabric.Base.{
  ℕ, ◌≡◌, refl, sym, ap, ◌∙◌, Text, text_discrete, Bool, true, false, not, if◌then◌else◌, List, [],
  Option, none, some, Bool-cases, Option-cases, is_empty, is_some, arith, inl, inr,
}
use rmc_fabric.Containers.Set
use rmc_fabric.Containers.Map
use rmc_fabric.Model.Types.{
  text_ordered, ModelEvent, NeighborObservation, FdbObservation, LldpObservation, RemoteCandidate,
  ObservationEvent, present, CandidateStatus-discrete, CandidateClassification-discrete,
}
use rmc_fabric.Model.LldpUtils.{resolve_lldp_identity}
use rmc_fabric.Model.Candidate.{
  is_publishable, has_no_evidence, new_candidate, add_lldp, keep_alive, lldp_event,
}
use rmc_fabric.Model.Events.{PendingEvents, no_events, record_event, record_erased}
use rmc_fabric.Model.Events.Client.{hear_all, hear_all-deliver}
use rmc_fabric.Model.Engine.{
  Engine, find, published, or_new, settle, settle_keepalive, state_changed, keepalive_target,
  delivered, update_classification, store, on_keepalive, drop_candidate, on_neighbor_observation,
  on_fdb_observation, on_lldp_observation,
}
use rmc_fabric.Model.Upkeep.{find_candidate_by_mac}

-- Whether a query finds the candidate.
abbrev pub visible : Engine → Text → Bool
visible e mac = is_some (find_candidate_by_mac e mac)

pub visible-published : (e : Engine) (mac : Text) → visible e mac ≡ published (find e mac)
unfolding find_candidate_by_mac
visible-published e mac = ground arith

-- The pending events of a step tell, for every address, what became of its visibility.
abbrev pub Tells : (Text → Bool) → PendingEvents → (Text → Bool) → Type 0
Tells before p after =
    (mac : Text)
    → (if Set.contains mac p.removed
        then false
        else (if Set.contains mac p.changed then true else before mac))
      ≡ after mac

unchanged_publishable :
    (a b : RemoteCandidate) → state_changed a b ≡ false → is_publishable a ≡ is_publishable b
unfolding is_publishable state_changed
unchanged_publishable a b h = elim (CandidateStatus-discrete a.status b.status) [
  | yes p ↦ elim (CandidateClassification-discrete a.classification b.classification) [
    | yes q ↦ rw (p, q) refl
    | no n ↦ ground arith
  ]
  | no n ↦ ground arith
]

module _ (e : Engine) (mac : Text) (was : Bool) (same : was ≡ published (find e mac)) where
  pub store-Tells :
      (c : RemoteCandidate)
      → Tells
          (λ k. published (find e k))
          (record_event mac was (is_publishable c) no_events)
          (λ k. published (find (store e mac c) k))
  unfolding record_event Set.insert Set.contains
  store-Tells c k = ground (arith, Map.lookup-insert text_discrete k mac c e.candidates)

  drop-Tells :
      Tells
        (λ k. published (find e k))
        (record_erased mac was no_events)
        (λ k. published (find (drop_candidate e mac) k))
  unfolding record_erased Set.insert Set.contains
  drop-Tells k = ground (arith, Map.lookup-erase text_discrete k mac e.candidates)

  -- No event is needed where the visibility stays.
  quiet-Tells :
      (c : RemoteCandidate)
      → is_publishable c ≡ was
      → Tells (λ k. published (find e k)) no_events (λ k. published (find (store e mac c) k))
  unfolding Set.contains
  quiet-Tells c shown k = ground (arith, Map.lookup-insert text_discrete k mac c e.candidates)

  settle-Tells :
      (c : RemoteCandidate) (event : ObservationEvent)
      → Tells
          (λ k. published (find e k))
          (settle e mac was c event).1
          (λ k. published (find (settle e mac was c event).0 k))
  unfolding settle
  settle-Tells c event = elim (Bool-cases (has_no_evidence c)) [
    | inl gone ↦ rw gone drop-Tells
    | inr kept ↦ rw kept (store-Tells _)
  ]

  settle_keepalive-Tells :
      (c : RemoteCandidate)
      → is_publishable c ≡ was
      → Tells
          (λ k. published (find e k))
          (settle_keepalive e mac was c).1
          (λ k. published (find (settle_keepalive e mac was c).0 k))
  unfolding settle_keepalive
  settle_keepalive-Tells c shown =
      let kept = keep_alive (update_classification e.classifier c) in
      elim (Bool-cases (has_no_evidence c)) [
        | inl gone ↦ rw gone drop-Tells
        | inr here ↦ elim (Bool-cases (state_changed kept c)) [
          | inl new ↦ rw (here, new) (store-Tells kept)
          | inr old ↦ rw (here, old) (quiet-Tells kept (unchanged_publishable kept c old ∙ shown))
        ]
      ]

-- A client that agrees with the queries before a step still does after it.
pub record Mirrors (e : Engine) (r : Engine × List ModelEvent) : Type 0 where
  pub agrees : (mac : Text) → hear_all mac r.1 (visible e mac) ≡ visible r.0 mac

pub target_found :
    (event : ObservationEvent) (found : Option RemoteCandidate) (c : RemoteCandidate)
    → keepalive_target event found ≡ some c
    → found ≡ some c
target_found present none c h = cc
target_found present (some d) c h = ground arith
target_found ObservationEvent.removed found c h = cc

lldp_event-publishable :
    (event : ObservationEvent) (obs : LldpObservation) (c : RemoteCandidate)
    → is_publishable (lldp_event event obs c) ≡ is_publishable c
unfolding is_publishable
lldp_event-publishable present obs c = refl
lldp_event-publishable ObservationEvent.removed obs c = refl

add_lldp-publishable :
    (obs : LldpObservation) (c : RemoteCandidate)
    → is_publishable (add_lldp obs c) ≡ is_publishable c
unfolding add_lldp
add_lldp-publishable obs c = lldp_event-publishable obs.event obs c

module _ (e : Engine) where
  pub if-Mirrors :
      (b : Bool) {r s : Engine × List ModelEvent}
      → Mirrors e r
      → Mirrors e s
      → Mirrors e (if b then r else s)
  if-Mirrors true x y = x
  if-Mirrors false x y = y

  pub nothing-Mirrors : Mirrors e (e, [])
  unfolding hear_all
  nothing-Mirrors = record { agrees = λ mac. refl }

  pub delivered-Mirrors :
      (now : ℕ) (r : Engine × PendingEvents)
      → r.0.sink ≡ true
      → Tells (λ k. published (find e k)) r.1 (λ k. published (find r.0 k))
      → Mirrors e (delivered now r)
  delivered-Mirrors now r sunk tells = record {
    agrees = λ mac.
        simp (visible-published e mac, visible-published r.0 mac)
          (hear_all-deliver mac now r.0.sink r.1 (published (find e mac)) sunk ∙ tells mac);
  }

  new_hidden :
      (mac : Text) (created : ℕ)
      → is_publishable (or_new (find e mac) mac created) ≡ published (find e mac)
  unfolding new_candidate is_publishable
  new_hidden mac created = ground arith

  settle-sink :
      (mac : Text) (was : Bool) (c : RemoteCandidate) (event : ObservationEvent)
      → (settle e mac was c event).0.sink ≡ e.sink
  unfolding settle
  settle-sink mac was c event = ground arith

  settle_keepalive-sink :
      (mac : Text) (was : Bool) (c : RemoteCandidate)
      → (settle_keepalive e mac was c).0.sink ≡ e.sink
  unfolding settle_keepalive
  settle_keepalive-sink mac was c = ground arith

  module _ (sunk : e.sink ≡ true) (now : ℕ) where
    settled-Mirrors :
        (mac : Text) (created : ℕ) (c : RemoteCandidate) (event : ObservationEvent)
        → Mirrors e (
            delivered now (settle e mac (is_publishable (or_new (find e mac) mac created)) c event))
    settled-Mirrors mac created c event =
        delivered-Mirrors now _ (settle-sink mac _ c event ∙ sunk)
          (settle-Tells e mac _ (new_hidden mac created) c event)

    -- With a sink, a client that agrees with `findCandidateByMac` on every MAC address still
    -- agrees after it has heard the events of a neighbour observation.
    pub on_neighbor_observation-Mirrors :
        (obs : NeighborObservation) (created : ℕ)
        → Mirrors e (on_neighbor_observation e obs created now)
    unfolding on_neighbor_observation
    on_neighbor_observation-Mirrors obs created =
        if-Mirrors _ nothing-Mirrors
          (if-Mirrors _ nothing-Mirrors (settled-Mirrors obs.mac created _ obs.event))

    -- With a sink, a client that agrees with `findCandidateByMac` on every MAC address still
    -- agrees after it has heard the events of an FDB observation.
    pub on_fdb_observation-Mirrors :
        (obs : FdbObservation) (created : ℕ) → Mirrors e (on_fdb_observation e obs created now)
    unfolding on_fdb_observation
    on_fdb_observation-Mirrors obs created =
        if-Mirrors _ nothing-Mirrors
          (if-Mirrors _ nothing-Mirrors (settled-Mirrors obs.mac created _ obs.event))

    on_keepalive-Mirrors :
        (obs : LldpObservation) (key : Text) → Mirrors e (on_keepalive e obs key now)
    unfolding on_keepalive
    on_keepalive-Mirrors obs key = elim (Option-cases (keepalive_target obs.event (find e key))) [
      | inl dropped ↦ rw (on_keepalive, dropped) nothing-Mirrors
      | inr (c, target) ↦
          rw (on_keepalive, target)
            (delivered-Mirrors now _ (settle_keepalive-sink key _ _ ∙ sunk) (
              settle_keepalive-Tells e key _
                (sym (ap published (target_found obs.event (find e key) c target))) (add_lldp obs c)
                (add_lldp-publishable obs c)))
    ]

    -- With a sink, a client that agrees with `findCandidateByMac` on every MAC address still
    -- agrees after it has heard the events of an LLDP observation, a keepalive included.
    pub on_lldp_observation-Mirrors :
        (obs : LldpObservation) (created : ℕ) → Mirrors e (on_lldp_observation e obs created now)
    unfolding on_lldp_observation
    on_lldp_observation-Mirrors obs created =
        let key = resolve_lldp_identity obs.remote_chassis_id obs.remote_port_id in
        if-Mirrors (not (e.interface_policy.allow_lldp_evidence obs.local_ifname)) nothing-Mirrors (
          if-Mirrors (is_empty key) nothing-Mirrors (
            if-Mirrors obs.keepalive (on_keepalive-Mirrors obs key) (
              settled-Mirrors key created (add_lldp obs (or_new (find e key) key created))
                obs.event)))
