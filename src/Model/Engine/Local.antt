-- ===== src/Model/Engine/Local.antt =====
-- The handlers of local observations: how an address that becomes local hides candidates, and when
-- their events agree with the queries.
use rmc_fabric.Base.{
  ℕ, ◌≡◌, refl, ap, ◌∙◌, Text, text_discrete, Bool, true, false, not, if◌then◌else◌, [], Option,
  none, some, is_empty, arith,
}
use mathlib.Core.Option
use rmc_fabric.Containers.Set
use rmc_fabric.Containers.Map
use rmc_fabric.Containers.Map.{map_values, keep_if, if_kept}
use rmc_fabric.Model.Types.{
  text_ordered, ModelEventKind, local_address_changed, RemoteCandidate, ObservationEvent, present,
  AddressObservation, LinkObservation,
}
use rmc_fabric.Model.Candidate.{is_publishable, hide}
use rmc_fabric.Model.Events.{PendingEvents, no_events, record_erased, deliver_pending}
use rmc_fabric.Model.Events.Client.{hear, hear_all, hear_all-deliver}
use rmc_fabric.Model.LocalState
use rmc_fabric.Model.LocalState.{extract_ip_from_cidr}
use rmc_fabric.Model.LocalState.Owners.{Inv}
use rmc_fabric.Model.LocalState.Links.{present_is_local}
use rmc_fabric.Model.Engine.Mirror.{Mirrors, Tells, visible-published, if-Mirrors, nothing-Mirrors}
use rmc_fabric.Model.Engine.Passes.{pass-Tells, note_address-Notes, addressed, hidden_agree}
use rmc_fabric.Model.Engine.{Engine, find, published}
use rmc_fabric.Model.Upkeep.{
  find_candidate_by_mac, link_kind, local_events, note_address, has_address, on_address_observation,
  reconcile_by_key, on_link_observation,
}

hear_nothing : (mac : Text) (kind : ModelEventKind) (seen : Bool) → hear mac kind none seen ≡ seen
hear_nothing mac ModelEventKind.candidate_updated seen = refl
hear_nothing mac ModelEventKind.candidate_removed seen = refl
hear_nothing mac _ seen = refl

module _ (e : Engine) (sunk : e.sink ≡ true) (kind : ModelEventKind) (at now : ℕ)
    (ifname : Text) where
  -- The local event in front of the pending ones names no candidate.
  local_events-Mirrors :
      (e' : Engine) (p : PendingEvents)
      → Tells (λ k. published (find e k)) p (λ k. published (find e' k))
      → Mirrors e (e', local_events e kind at ifname now p)
  unfolding hear_all
  local_events-Mirrors e' p tells = record {
    agrees = λ mac.
        simp (visible-published e mac, visible-published e' mac, sunk)
          (ap (hear_all mac (deliver_pending true now p))
              (hear_nothing mac kind (published (find e mac)))
            ∙ hear_all-deliver mac now true p (published (find e mac)) refl
            ∙ tells mac);
  }

  quiet : Tells (λ k. published (find e k)) no_events (λ k. published (find e k))
  unfolding Set.contains
  quiet k = refl

-- The local state alone does not show in the candidates.
silent-Mirrors :
    (e : Engine) (local_state : LocalState.LocalStateTracker)
    → Mirrors e (record e { local_state = local_state }, [])
unfolding hear_all find_candidate_by_mac
silent-Mirrors e local_state = record { agrees = λ mac. refl }

pub event_cases {ℓ κ} :
    {A : Type ℓ} (P : A → Type κ) {a b : A}
    → P a
    → P b
    → (event : ObservationEvent)
    → P (elim event as (λ _. A) [ present ↦ a | ObservationEvent.removed ↦ b ])
event_cases P pa pb present = pa
event_cases P pa pb ObservationEvent.removed = pb

-- With a sink and candidates under distinct keys, a client that agrees with `findCandidateByMac` on
-- every MAC address still agrees after it has heard the events of an address observation.
pub on_address_observation-Mirrors :
    (e : Engine)
    → e.sink ≡ true
    → Map.IsDistinct text_discrete e.candidates
    → (obs : AddressObservation) (now : ℕ) → Mirrors e (on_address_observation e obs now)
unfolding on_address_observation
on_address_observation-Mirrors e sunk distinct obs now =
    let ip = extract_ip_from_cidr obs.cidr in
    if-Mirrors e (not (e.interface_policy.include_in_local_state obs.ifname)) (nothing-Mirrors e) (
      if-Mirrors e (is_empty ip) (silent-Mirrors e _) (
        event_cases (Mirrors e)
          (local_events-Mirrors e sunk local_address_changed obs.observed_at now obs.ifname _ _ (
            pass-Tells e.candidates distinct (note_address ip) (λ c. false) (addressed ip)
              (note_address-Notes ip) _ (Option.map (λ c. if has_address ip c then hide c else c))
              (λ k. Map.lookup-map_values text_discrete _ k e.candidates) (hidden_agree ip)))
          (local_events-Mirrors e sunk local_address_changed obs.observed_at now obs.ifname _ _
            (quiet e sunk local_address_changed obs.observed_at now obs.ifname))
          obs.event))

-- A candidate under a MAC address that is local now is hidden, and reported if it was visible.
reconcile-Tells :
    (e : Engine) (mac : Text) (found : Option RemoteCandidate)
    → find e mac ≡ found
    → (local_state : LocalState.LocalStateTracker) → LocalState.is_local_mac local_state mac ≡ true
    → Tells
        (λ k. published (find e k))
        (record_erased mac (published (find e mac)) no_events)
        (λ k.
          published (find (reconcile_by_key (record e { local_state = local_state }) mac found) k))
unfolding record_erased Set.insert Set.contains hide is_publishable
reconcile-Tells e mac none h local_state own k = ground arith
reconcile-Tells e mac (some c) h local_state own k =
    rw own (ground (arith, Map.lookup-insert text_discrete k mac (hide c) e.candidates))

-- With a sink, on a named interface, if its new MAC address is not empty and the counts of the local
-- state are right: a client that agrees with `findCandidateByMac` on every MAC address still agrees
-- after it has heard the events of a present link observation.
pub on_link_observation-Mirrors :
    (e : Engine)
    → e.sink ≡ true
    → Inv e.local_state
    → (obs : LinkObservation) (now : ℕ) → obs.event ≡ present
    → is_empty obs.ifname ≡ false
    → is_empty obs.mac ≡ false
    → Mirrors e (on_link_observation e obs now)
unfolding on_link_observation
on_link_observation-Mirrors e sunk v obs now there named some_mac =
    let r = LocalState.on_link_observation e.local_state obs in
    if-Mirrors e (not (e.interface_policy.include_in_local_state obs.ifname)) (nothing-Mirrors e) (
      if-Mirrors e r.1
        (local_events-Mirrors e sunk (link_kind obs.event) obs.observed_at now obs.ifname _ _ (
          reconcile-Tells e obs.mac (find e obs.mac) refl r.0
            (present_is_local v obs there named some_mac)))
        (local_events-Mirrors e sunk (link_kind obs.event) obs.observed_at now obs.ifname _ _
          (quiet e sunk (link_kind obs.event) obs.observed_at now obs.ifname)))
