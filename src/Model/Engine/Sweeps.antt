-- ===== src/Model/Engine/Sweeps.antt =====
-- The handlers that go over all candidates, and those of local observations, keep the invariant.
use mathlib.Core.Path.{subst}
use rmc_fabric.Base.{
  ℕ, ◌≡◌, refl, Text, text_discrete, true, false, not, if◌then◌else◌, List, [], ◌∷◌, Option, none,
  some, Bool-cases, Option-cases, is_empty, inl, inr,
}
use rmc_fabric.Containers.Map
use rmc_fabric.Containers.Map.{map_values, keep_if}
use rmc_fabric.Containers.Map.All.{All, keep_if-All}
use rmc_fabric.Model.Types.{
  RemoteCandidate, CandidateStatus, provisional, confirmed, aged, expired, LinkObservation,
  AddressObservation, ModelConfig, Classifier,
}
use rmc_fabric.Model.LocalState
use rmc_fabric.Model.LocalState.{LocalStateTracker, extract_ip_from_cidr}
use rmc_fabric.Model.Candidate.{
  ModelPhase, initializing, live, age_candidate, demote, hide, is_publishable,
}
use rmc_fabric.Model.Engine.Local.{event_cases}
use rmc_fabric.Model.Engine.Invariant.{IsCandidate, IsKept, EngineInv, is_waiting}
use rmc_fabric.Model.Engine.Steps.{
  After, if-After, store-Inv, unchanged-After, found-IsKept, age_status-waiting,
}
use rmc_fabric.Model.Engine.{Engine, find, update_classification}
use rmc_fabric.Model.Upkeep.{
  find_candidate_by_mac, published_only, remote_candidates, on_link_observation,
  on_address_observation, reconcile_by_key, reconcile_affected_by_local_ip, has_address, age,
  prepare_for_restart, mark_live, promote, is_provisional, set_classifier,
}

hide-IsKept :
    {phase : ModelPhase} {mac : Text} {c : RemoteCandidate}
    → IsKept phase mac c
    → IsKept phase mac (hide c)
unfolding hide
hide-IsKept {phase} k = record {
  is_candidate = record {
    key = k.is_candidate.key;
    neigh = k.is_candidate.neigh;
    fdb = k.is_candidate.fdb;
  };
  waiting = removed_waiting phase;
}
  where
    removed_waiting : (p : ModelPhase) → is_waiting p CandidateStatus.removed ≡ true
    removed_waiting initializing = refl
    removed_waiting live = refl

age_candidate-IsKept :
    (phase : ModelPhase) (config : ModelConfig) (time : ℕ) {mac : Text} {c : RemoteCandidate}
    → IsKept phase mac c
    → IsKept phase mac (age_candidate config time c)
unfolding age_candidate
age_candidate-IsKept phase config time {c = c} k = record {
  is_candidate = record {
    key = k.is_candidate.key;
    neigh = k.is_candidate.neigh;
    fdb = k.is_candidate.fdb;
  };
  waiting = age_status-waiting phase _ _ c.status k.waiting;
}

demote-IsKept :
    {phase : ModelPhase} {mac : Text} {c : RemoteCandidate}
    → IsKept phase mac c
    → IsKept initializing mac (demote c)
unfolding demote
demote-IsKept k = record {
  is_candidate = record { key = k.is_candidate.key; neigh = refl; fdb = refl };
  waiting = refl;
}

promote-IsCandidate :
    (classify : Classifier) {mac : Text} {c : RemoteCandidate}
    → IsCandidate mac c
    → IsCandidate mac (promote classify c)
promote-IsCandidate classify {c = c} k = elim (Bool-cases (is_provisional c.status)) [
  | inl e ↦ rw e (record { key = k.key; neigh = k.neigh; fdb = k.fdb })
  | inr e ↦ rw e k
]

-- Every candidate that stays is kept under the phase that follows.
restored-IsKept :
    {p q : ModelPhase} (f : RemoteCandidate → RemoteCandidate)
    (h : (mac : Text) (c : RemoteCandidate) → IsKept p mac c → IsKept q mac (f c))
    (cs : List (Text × RemoteCandidate))
    → All (IsKept p) cs
    → All (IsKept q) (map_values (λ _ c. f c) cs)
restored-IsKept f h [] a = tt
restored-IsKept f h ((mac, c) ∷ cs) a = (h mac c a.0, restored-IsKept f h cs a.1)

module _ {e : Engine} (v : EngineInv e) where
  pub age-After : (time now : ℕ) → After (age e time now)
  unfolding age
  age-After time now = record {
    inv = record {
      distinct = Map.map_values-IsDistinct text_discrete _ e.candidates v.distinct;
      kept =
          restored-IsKept (age_candidate e.config time)
            (λ mac c k. age_candidate-IsKept e.phase e.config time k) e.candidates v.kept;
    };
  }

  pub prepare_for_restart-After : (now : ℕ) → After (prepare_for_restart e now)
  unfolding prepare_for_restart
  prepare_for_restart-After now = record {
    inv = record {
      distinct = Map.map_values-IsDistinct text_discrete _ e.candidates v.distinct;
      kept = restored-IsKept demote (λ mac c k. demote-IsKept k) e.candidates v.kept;
    };
  }

  pub mark_live-After : (now : ℕ) → After (mark_live e now)
  unfolding mark_live
  mark_live-After now = record {
    inv = record {
      distinct =
          Map.map_values-IsDistinct text_discrete _ _
            (Map.keep_if-IsDistinct text_discrete _ e.candidates v.distinct);
      kept =
          restored-IsKept (promote e.classifier)
            (λ mac c k. record {
              is_candidate = promote-IsCandidate e.classifier k.is_candidate;
              waiting = refl;
            })
            _ (keep_if-All (IsKept e.phase) _ e.candidates v.kept);
    };
  }

  pub set_classifier-Inv : (classify : Classifier) → EngineInv (set_classifier e classify)
  unfolding set_classifier
  set_classifier-Inv classify = record {
    distinct = Map.map_values-IsDistinct text_discrete _ e.candidates v.distinct;
    kept =
        restored-IsKept (update_classification classify)
          (λ mac c k. record {
            is_candidate = record {
              key = k.is_candidate.key;
              neigh = k.is_candidate.neigh;
              fdb = k.is_candidate.fdb;
            };
            waiting = k.waiting;
          })
          e.candidates v.kept;
  }

  local_state-Inv : (t : LocalStateTracker) → EngineInv (record e { local_state = t })
  local_state-Inv t = record { distinct = v.distinct; kept = v.kept }

  reconcile_by_key-Inv :
      (t : LocalStateTracker) (mac : Text) (found : Option RemoteCandidate)
      → find e mac ≡ found
      → EngineInv (reconcile_by_key (record e { local_state = t }) mac found)
  reconcile_by_key-Inv t mac none h = local_state-Inv t
  reconcile_by_key-Inv t mac (some c) h = elim (Bool-cases (LocalState.is_local_mac t mac)) [
    | inl own ↦ rw own (store-Inv (local_state-Inv t) mac (hide-IsKept (found-IsKept v mac h)))
    | inr other ↦ rw other (local_state-Inv t)
  ]

  pub on_link_observation-After :
      (obs : LinkObservation) (now : ℕ) → After (on_link_observation e obs now)
  unfolding on_link_observation
  on_link_observation-After obs now = if-After _ (unchanged-After v) (
      if-After _ (record { inv = reconcile_by_key-Inv _ obs.mac (find e obs.mac) refl })
        (record { inv = local_state-Inv _ }))

  hidden-Inv :
      (ip : Text) (t : LocalStateTracker)
      → EngineInv (reconcile_affected_by_local_ip (record e { local_state = t }) ip)
  hidden-Inv ip t = record {
    distinct = Map.map_values-IsDistinct text_discrete _ e.candidates v.distinct;
    kept =
        restored-IsKept (λ c. if has_address ip c then hide c else c) (λ mac c k. hidden mac c k)
          e.candidates v.kept;
  }
    where
      hidden :
          (mac : Text) (c : RemoteCandidate)
          → IsKept e.phase mac c
          → IsKept e.phase mac (if has_address ip c then hide c else c)
      hidden mac c k = elim (Bool-cases (has_address ip c)) [
        | inl has ↦ rw has (hide-IsKept k)
        | inr lacks ↦ rw lacks k
      ]

  pub on_address_observation-After :
      (obs : AddressObservation) (now : ℕ) → After (on_address_observation e obs now)
  unfolding on_address_observation
  on_address_observation-After obs now =
      let t = (LocalState.on_address_observation e.local_state obs).0 in
      if-After (not (e.interface_policy.include_in_local_state obs.ifname)) (unchanged-After v) (
        if-After (is_empty (extract_ip_from_cidr obs.cidr)) (record { inv = local_state-Inv t })
          (event_cases After (record { inv = hidden-Inv (extract_ip_from_cidr obs.cidr) t })
            (record { inv = local_state-Inv t }) obs.event))

waiting_hidden :
    (status : CandidateStatus) (c : RemoteCandidate)
    → c.status ≡ status
    → is_waiting initializing status ≡ true
    → is_publishable c ≡ false
unfolding is_publishable
waiting_hidden provisional c e h = rw e refl
waiting_hidden CandidateStatus.removed c e h = rw e refl
waiting_hidden confirmed c e h = cc
waiting_hidden aged c e h = cc
waiting_hidden expired c e h = cc

none_published :
    (m : List (Text × RemoteCandidate)) → All (IsKept initializing) m → published_only m ≡ []
none_published [] kept = refl
none_published ((mac, c) ∷ m) kept =
    rw (waiting_hidden c.status c refl kept.0.waiting) (none_published m kept.1)

-- In the initial phase, before `markLive`, the list of candidates is empty.
pub initializing_unlisted :
    (e : Engine) → EngineInv e → e.phase ≡ initializing → remote_candidates e ≡ []
unfolding remote_candidates
initializing_unlisted e v h =
    none_published e.candidates (subst (λ p. All (IsKept p) e.candidates) h v.kept)

-- In the initial phase, before `markLive`, no MAC address finds a candidate.
pub initializing_hidden :
    (e : Engine)
    → EngineInv e
    → e.phase ≡ initializing
    → (mac : Text) → find_candidate_by_mac e mac ≡ none
unfolding find_candidate_by_mac
initializing_hidden e v h mac = elim (Option-cases (find e mac)) [
  | inl absent ↦ rw (find_candidate_by_mac, absent) refl
  | inr (c, found) ↦
      rw
        (
          find_candidate_by_mac,
          found,
          waiting_hidden c.status c refl
              (subst (λ p. is_waiting p c.status ≡ true) h (found-IsKept v mac found).waiting),
        )
        refl
]
