-- ===== src/Model/Upkeep.antt =====
-- services/network-observation/core/engine/ObservationModelEngine.cpp: the handlers of links and
-- addresses, the queries, the passes over all candidates, and the runtime configuration.
use rmc_fabric.Base.{
  ℕ, Text, Bool, true, false, ◌&&◌, ◌||◌, not, if◌then◌else◌, ite, List, [], ◌∷◌, Option, none,
  some, is_empty,
}
use rmc_fabric.Containers.Set
use rmc_fabric.Containers.Map.{map_values, keep_if}
use rmc_fabric.Model.Types.{
  text_ordered, LinkObservation, AddressObservation, ObservationEvent, present, RemoteCandidate,
  CandidateStatus, provisional, confirmed, CandidateStatus-discrete, InterfacePolicy, Classifier,
  ModelConfig, ModelEvent, ModelEventKind, local_interface_changed, local_interface_removed,
  local_address_changed, LocalNetworkSnapshot,
}
use rmc_fabric.Model.LocalState
use rmc_fabric.Model.LocalState.{LocalStateTracker, extract_ip_from_cidr}
use rmc_fabric.Model.Candidate.{
  initializing, live, is_confirmed_worthy, is_publishable, age_candidate, demote, hide,
}
use rmc_fabric.Model.Events.{PendingEvents, no_events, record_event, record_erased, deliver_pending}
use rmc_fabric.Model.Engine.{Engine, find, published, update_classification, store, delivered}

-- `reconcileByKey`, on the local state that the link left.
abbrev pub reconcile_by_key : Engine → Text → Option RemoteCandidate → Engine
reconcile_by_key e mac none = e
reconcile_by_key e mac (some c) =
    if LocalState.is_local_mac e.local_state mac then store e mac (hide c) else e

abbrev pub link_kind : ObservationEvent → ModelEventKind
link_kind present = local_interface_changed
link_kind ObservationEvent.removed = local_interface_removed

-- The local event, and then the pending ones.
abbrev pub local_events : Engine → ModelEventKind → ℕ → Text → ℕ → PendingEvents → List ModelEvent
local_events e kind observed_at ifname now pending =
    if e.sink
    then record { kind = kind; timestamp = observed_at; ifname = some ifname; mac = none }
      ∷ deliver_pending e.sink now pending
    else []

unfoldable pub on_link_observation : Engine → LinkObservation → ℕ → Engine × List ModelEvent
on_link_observation e obs now =
    let r = LocalState.on_link_observation e.local_state obs in
    let e' = record e { local_state = r.0 } in
    let pending = record_erased obs.mac (published (find e obs.mac)) no_events in
    if not (e.interface_policy.include_in_local_state obs.ifname)
    then (e, [])
    else (if r.1
        then (
          reconcile_by_key e' obs.mac (find e obs.mac),
          local_events e (link_kind obs.event) obs.observed_at obs.ifname now pending,
        )
        else (e', local_events e (link_kind obs.event) obs.observed_at obs.ifname now no_events))

-- A pass over the candidates that collects events.
unfoldable pub collect :
    (Text → RemoteCandidate → PendingEvents → PendingEvents)
    → List (Text × RemoteCandidate)
    → PendingEvents
    → PendingEvents
collect f [] p = p
collect f ((mac, c) ∷ cs) p = collect f cs (f mac c p)

abbrev pub has_address : Text → RemoteCandidate → Bool
has_address ip c = Set.contains ip c.ipv4 || Set.contains ip c.ipv6

-- The loop that looks for the visible candidates with the address.
abbrev pub note_address : Text → Text → RemoteCandidate → PendingEvents → PendingEvents
note_address ip mac c p =
    if has_address ip c
    then (if is_publishable c then record p { removed = Set.insert mac p.removed } else p)
    else p

-- `reconcileAffectedByLocalIp`
abbrev pub reconcile_affected_by_local_ip : Engine → Text → Engine
reconcile_affected_by_local_ip e ip = record e {
  candidates = map_values (λ _ c. if has_address ip c then hide c else c) e.candidates;
}

unfoldable pub on_address_observation : Engine → AddressObservation → ℕ → Engine × List ModelEvent
unfolding collect
on_address_observation e obs now =
    let e' = record e { local_state = (LocalState.on_address_observation e.local_state obs).0 } in
    let ip = extract_ip_from_cidr obs.cidr in
    if not (e.interface_policy.include_in_local_state obs.ifname)
    then (e, [])
    else (if is_empty ip then (e', []) else elim obs.event [
      | present ↦ (
        reconcile_affected_by_local_ip e' ip,
        local_events e local_address_changed obs.observed_at obs.ifname now
            (collect (note_address ip) e.candidates no_events),
      )
      | ObservationEvent.removed ↦
          (e', local_events e local_address_changed obs.observed_at obs.ifname now no_events)
    ])

unfoldable pub local_snapshot : Engine → LocalNetworkSnapshot
local_snapshot e = LocalState.snapshot e.local_state

abbrev pub published_only : List (Text × RemoteCandidate) → List RemoteCandidate
published_only [] = []
published_only ((_, c) ∷ cs) = if is_publishable c then c ∷ published_only cs else published_only cs

unfoldable pub remote_candidates : Engine → List RemoteCandidate
remote_candidates e = published_only e.candidates

abbrev if_published : Option RemoteCandidate → Option RemoteCandidate
if_published none = none
if_published (some c) = if is_publishable c then some c else none

unfoldable pub find_candidate_by_mac : Engine → Text → Option RemoteCandidate
find_candidate_by_mac e mac = if_published (find e mac)

abbrev pub note_age : ModelConfig → ℕ → Text → RemoteCandidate → PendingEvents → PendingEvents
note_age config now mac c p =
    let c' = age_candidate config now c in
    ite (CandidateStatus-discrete c'.status c.status) p
      (record_event mac (is_publishable c) (is_publishable c') p)

unfoldable pub age : Engine → ℕ → ℕ → Engine × List ModelEvent
unfolding collect
age e time now = (
  record e { candidates = map_values (λ _ c. age_candidate e.config time c) e.candidates },
  deliver_pending e.sink now (collect (note_age e.config time) e.candidates no_events),
)

abbrev pub restarted : Engine → Engine × PendingEvents
restarted e = (
  record e {
    phase = initializing;
    local_state = LocalState.clear e.local_state;
    candidates = map_values (λ _ c. demote c) e.candidates;
  },
  collect (λ mac c p. record_erased mac (is_publishable c) p) e.candidates no_events,
)

unfoldable pub prepare_for_restart : Engine → ℕ → Engine × List ModelEvent
unfolding collect
prepare_for_restart e now = delivered now (restarted e)

abbrev pub is_provisional : CandidateStatus → Bool
is_provisional provisional = true
is_provisional _ = false

-- The loop body of `markLive`: what becomes of the candidate, and whether it stays.
abbrev pub promote : Classifier → RemoteCandidate → RemoteCandidate
promote classify c =
    if is_provisional c.status
    then record c { classification = classify c; status = confirmed }
    else c

abbrev pub stays : Classifier → RemoteCandidate → Bool
stays classify c = if is_provisional c.status then is_confirmed_worthy (classify c) else true

abbrev pub note_live : Classifier → Text → RemoteCandidate → PendingEvents → PendingEvents
note_live classify mac c p =
    if is_provisional c.status && is_confirmed_worthy (classify c)
    then record p { changed = Set.insert mac p.changed }
    else p

abbrev pub made_live : Engine → Engine × PendingEvents
made_live e = (
  record e {
    phase = live;
    candidates =
        map_values (λ _ c. promote e.classifier c)
          (keep_if (λ _ c. stays e.classifier c) e.candidates);
  },
  collect (note_live e.classifier) e.candidates no_events,
)

unfoldable pub mark_live : Engine → ℕ → Engine × List ModelEvent
unfolding collect
mark_live e now = delivered now (made_live e)

unfoldable pub set_interface_policy : Engine → InterfacePolicy → Engine
set_interface_policy e policy = record e { interface_policy = policy }

unfoldable pub set_classifier : Engine → Classifier → Engine
set_classifier e classify = record e {
  classifier = classify;
  candidates = map_values (λ _ c. update_classification classify c) e.candidates;
}
