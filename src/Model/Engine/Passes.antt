-- ===== src/Model/Engine/Passes.antt =====
-- The handlers that go over all candidates, `age`, `prepareForRestart`, `markLive` and an address
-- that becomes local: their events, too, tell exactly what became of every candidate's visibility.
use rmc_fabric.Base.{
  ℕ, ◌≡◌, refl, ap, ◌∙◌, Text, text_discrete, Bool, true, false, ◌||◌, ◌&&◌, not, if◌then◌else◌,
  ite, List, [], ◌∷◌, Option, none, some, arith,
}
use mathlib.Core.Option
use rmc_fabric.Containers.Set
use rmc_fabric.Containers.Map
use rmc_fabric.Containers.Map.{map_values, keep_if, if_kept}
use rmc_fabric.Model.Types.{
  text_ordered, ModelConfig, Classifier, RemoteCandidate, CandidateStatus-discrete,
}
use rmc_fabric.Model.Candidate.{is_publishable, age_candidate, demote, is_confirmed_worthy, hide}
use rmc_fabric.Model.Events.{PendingEvents, no_events, record_event, record_erased}
use rmc_fabric.Model.Engine.Mirror.{Mirrors, Tells, delivered-Mirrors}
use rmc_fabric.Model.Engine.{Engine, published}
use rmc_fabric.Model.Upkeep.{
  collect, note_age, note_live, note_address, has_address, is_provisional, promote, stays, age,
  prepare_for_restart, restarted, mark_live, made_live,
}

abbrev pub test : (RemoteCandidate → Bool) → Option RemoteCandidate → Bool
test t none = false
test t (some c) = t c

-- What one note adds to the two sets, for every address.
abbrev pub Notes :
    (Text → RemoteCandidate → PendingEvents → PendingEvents)
    → (RemoteCandidate → Bool)
    → (RemoteCandidate → Bool)
    → Type 0
Notes f ch rm =
    (k mac : Text) (c : RemoteCandidate) (p : PendingEvents)
    → (Set.contains k (f mac c p).changed
        ≡ (ite (text_discrete mac k) (ch c) false || Set.contains k p.changed))
      × (Set.contains k (f mac c p).removed
          ≡ (ite (text_discrete mac k) (rm c) false || Set.contains k p.removed))

module _ (f : Text → RemoteCandidate → PendingEvents → PendingEvents)
    (ch rm : RemoteCandidate → Bool) (notes : Notes f ch rm) (k : Text) where
  collect_absent :
      (cs : List (Text × RemoteCandidate)) (p : PendingEvents)
      → Map.lookup text_discrete k cs ≡ none
      → (Set.contains k (collect f cs p).changed ≡ Set.contains k p.changed)
        × (Set.contains k (collect f cs p).removed ≡ Set.contains k p.removed)
  unfolding collect Map.lookup
  collect_absent [] p h = (refl, refl)
  collect_absent ((mac, c) ∷ cs) p h =
      ground (arith, collect_absent cs (f mac c p), notes k mac c p)

  -- A pass over a map notes for each address what its one candidate gives.
  collect_lem :
      (cs : List (Text × RemoteCandidate)) (p : PendingEvents)
      → Map.IsDistinct text_discrete cs
      → (Set.contains k (collect f cs p).changed
          ≡ (test ch (Map.lookup text_discrete k cs) || Set.contains k p.changed))
        × (Set.contains k (collect f cs p).removed
            ≡ (test rm (Map.lookup text_discrete k cs) || Set.contains k p.removed))
  unfolding collect Map.lookup
  collect_lem [] p d = (refl, refl)
  collect_lem ((mac, c) ∷ cs) p d =
      ground (arith, collect_lem cs (f mac c p) d.1, notes k mac c p, collect_absent cs (f mac c p))

module _ (config : ModelConfig) (time : ℕ) where
  aged_changed : RemoteCandidate → Bool
  aged_changed c =
      ite (CandidateStatus-discrete (age_candidate config time c).status c.status) false
        (is_publishable (age_candidate config time c))

  aged_removed : RemoteCandidate → Bool
  aged_removed c =
      ite (CandidateStatus-discrete (age_candidate config time c).status c.status) false
        (not (is_publishable (age_candidate config time c)) && is_publishable c)

  note_age-Notes : Notes (note_age config time) aged_changed aged_removed
  unfolding aged_changed aged_removed record_event
  note_age-Notes k mac c p =
      ground (arith, Set.contains-insert k mac p.changed, Set.contains-insert k mac p.removed)

note_erased-Notes :
    Notes (λ mac c p. record_erased mac (is_publishable c) p) (λ c. false) is_publishable
unfolding record_erased
note_erased-Notes k mac c p = ground (arith, Set.contains-insert k mac p.removed)

worthy : Classifier → RemoteCandidate → Bool
worthy classify c = is_provisional c.status && is_confirmed_worthy (classify c)

note_live-Notes :
    (classify : Classifier) → Notes (note_live classify) (worthy classify) (λ c. false)
unfolding worthy
note_live-Notes classify k mac c p = ground (arith, Set.contains-insert k mac p.changed)

module _ (ip : Text) where
  pub addressed : RemoteCandidate → Bool
  addressed c = has_address ip c && is_publishable c

  pub note_address-Notes : Notes (note_address ip) (λ c. false) addressed
  unfolding addressed
  note_address-Notes k mac c p = ground (arith, Set.contains-insert k mac p.removed)

-- A pass over the candidates, for each address by itself.
module _ (cs : List (Text × RemoteCandidate)) (distinct : Map.IsDistinct text_discrete cs)
    (f : Text → RemoteCandidate → PendingEvents → PendingEvents) (ch rm : RemoteCandidate → Bool)
    (notes : Notes f ch rm) (cs' : List (Text × RemoteCandidate))
    (next : Option RemoteCandidate → Option RemoteCandidate)
    (after : (k : Text) → Map.lookup text_discrete k cs' ≡ next (Map.lookup text_discrete k cs))
    (agree : (o : Option RemoteCandidate)
      → (if test rm o then false else (if test ch o then true else published o))
        ≡ published (next o)) where
  pub pass-Tells :
      Tells
        (λ k. published (Map.lookup text_discrete k cs))
        (collect f cs no_events)
        (λ k. published (Map.lookup text_discrete k cs'))
  unfolding Set.contains
  pass-Tells k = ground (
    arith,
    collect_lem f ch rm notes k cs no_events distinct,
    after k,
    agree (Map.lookup text_discrete k cs),
  )

aged_same :
    (config : ModelConfig) (time : ℕ) (c : RemoteCandidate)
    → (age_candidate config time c).status ≡ c.status
    → is_publishable (age_candidate config time c) ≡ is_publishable c
unfolding is_publishable age_candidate
aged_same config time c p = rw p refl

aged_agree :
    (config : ModelConfig) (time : ℕ) (o : Option RemoteCandidate)
    → (if test (aged_removed config time) o
        then false
        else (if test (aged_changed config time) o then true else published o))
      ≡ published (Option.map (age_candidate config time) o)
unfolding aged_removed aged_changed
aged_agree config time none = refl
aged_agree config time (some c) =
    elim (CandidateStatus-discrete (age_candidate config time c).status c.status) [
      | yes p ↦ ground (arith, aged_same config time c p)
      | no n ↦ ground arith
    ]

demoted_agree :
    (o : Option RemoteCandidate)
    → (if test is_publishable o then false else (if test (λ c. false) o then true else published o))
      ≡ published (Option.map demote o)
unfolding is_publishable demote
demoted_agree none = refl
demoted_agree (some c) = ground arith

abbrev promoted : Classifier → Option RemoteCandidate → Option RemoteCandidate
promoted classify o = Option.map (promote classify) (if_kept (stays classify) o)

promoted_agree :
    (classify : Classifier) (o : Option RemoteCandidate)
    → (if test (λ c. false) o
        then false
        else (if test (worthy classify) o then true else published o))
      ≡ published (promoted classify o)
unfolding worthy is_publishable is_confirmed_worthy
promoted_agree classify none = refl
promoted_agree classify (some c) = ground arith

pub hidden_agree :
    (ip : Text) (o : Option RemoteCandidate)
    → (if test (addressed ip) o then false else (if test (λ c. false) o then true else published o))
      ≡ published (Option.map (λ c. if has_address ip c then hide c else c) o)
unfolding addressed hide is_publishable
hidden_agree ip none = refl
hidden_agree ip (some c) = ground arith

module _ (e : Engine) (sunk : e.sink ≡ true)
    (distinct : Map.IsDistinct text_discrete e.candidates) where
  -- With a sink and candidates under distinct keys, a client that agrees with `findCandidateByMac`
  -- on every MAC address still agrees after it has heard the events of `age`.
  pub age-Mirrors : (time now : ℕ) → Mirrors e (age e time now)
  unfolding age
  age-Mirrors time now =
      let cs' = map_values (λ _ c. age_candidate e.config time c) e.candidates in
      delivered-Mirrors e now
        (record e { candidates = cs' }, collect (note_age e.config time) e.candidates no_events)
        sunk
        (pass-Tells e.candidates distinct (note_age e.config time) (aged_changed e.config time)
          (aged_removed e.config time) (note_age-Notes e.config time) cs'
          (Option.map (age_candidate e.config time))
          (λ k. Map.lookup-map_values text_discrete _ k e.candidates) (aged_agree e.config time))

  -- With a sink and candidates under distinct keys, a client that agrees with `findCandidateByMac`
  -- on every MAC address still agrees after it has heard the events of `prepareForRestart`.
  pub prepare_for_restart-Mirrors : (now : ℕ) → Mirrors e (prepare_for_restart e now)
  unfolding prepare_for_restart
  prepare_for_restart-Mirrors now = delivered-Mirrors e now (restarted e) sunk (
      pass-Tells e.candidates distinct (λ mac c p. record_erased mac (is_publishable c) p)
        (λ c. false) is_publishable note_erased-Notes _ (Option.map demote)
        (λ k. Map.lookup-map_values text_discrete _ k e.candidates) demoted_agree)

  -- With a sink and candidates under distinct keys, a client that agrees with `findCandidateByMac`
  -- on every MAC address still agrees after it has heard the events of `markLive`.
  pub mark_live-Mirrors : (now : ℕ) → Mirrors e (mark_live e now)
  unfolding mark_live
  mark_live-Mirrors now = delivered-Mirrors e now (made_live e) sunk (
      pass-Tells e.candidates distinct (note_live e.classifier) (worthy e.classifier) (λ c. false)
        (note_live-Notes e.classifier) _ (promoted e.classifier)
        (λ k.
          Map.lookup-map_values text_discrete _ k
            (keep_if (λ _ c. stays e.classifier c) e.candidates)
          ∙ ap (Option.map (promote e.classifier))
              (Map.lookup-keep_if text_discrete _ k e.candidates distinct))
        (promoted_agree e.classifier))
