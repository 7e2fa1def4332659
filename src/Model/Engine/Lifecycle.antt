-- ===== src/Model/Engine/Lifecycle.antt =====
-- The life of a candidate over several calls: missed ticks, restarts, repeated observations.
use rmc_fabric.Base.{ℕ, ◌≤◌, ◌≡◌, refl, ap, Text, false, List, [], ◌∷◌, ltb, arith}
use rmc_fabric.Containers.Map.{map_values, keep_if}
use rmc_fabric.Model.Types.{
  RemoteCandidate, CandidateStatus, provisional, confirmed, aged, expired, ModelConfig,
}
use rmc_fabric.Model.Classifier.{rule_based_classify}
use rmc_fabric.Model.Candidate.{age_candidate, age_status, demote, is_confirmed_worthy}
use rmc_fabric.Model.Engine.{Engine}
use rmc_fabric.Model.Upkeep.{age, prepare_for_restart, mark_live, stays}

age_status_twice :
    (config : ModelConfig) (x y : ℕ) (status : CandidateStatus)
    → x ≤ y
    → age_status
        (ltb config.candidate_expire y)
        (ltb config.candidate_ageout y)
        (age_status (ltb config.candidate_expire x) (ltb config.candidate_ageout x) status)
      ≡ age_status (ltb config.candidate_expire y) (ltb config.candidate_ageout y) status
age_status_twice config x y provisional h = refl
age_status_twice config x y CandidateStatus.removed h = refl
age_status_twice config x y confirmed h = ground arith
age_status_twice config x y aged h = ground arith
age_status_twice config x y expired h = ground arith

age_candidate_twice :
    (config : ModelConfig) (s t : ℕ) (c : RemoteCandidate)
    → s ≤ t
    → age_candidate config t (age_candidate config s c) ≡ age_candidate config t c
unfolding age_candidate
age_candidate_twice config s t c h =
    ap (λ status. record c { status = status }) (age_status_twice config _ _ c.status (omega arith))

age_all_twice :
    (config : ModelConfig) (s t : ℕ) (cs : List (Text × RemoteCandidate))
    → s ≤ t
    → map_values (λ _ c. age_candidate config t c) (map_values (λ _ c. age_candidate config s c) cs)
      ≡ map_values (λ _ c. age_candidate config t c) cs
age_all_twice config s t [] h = refl
age_all_twice config s t ((mac, c) ∷ cs) h =
    rw (age_candidate_twice config s t c h, age_all_twice config s t cs h) refl

-- Ticks of `age` that are missed do not matter: after a later tick the engine is the same, whether or
-- not an earlier one came.
pub age-age :
    (e : Engine) (s t now later : ℕ) → s ≤ t → (age (age e s now).0 t later).0 ≡ (age e t later).0
unfolding age
age-age e s t now later h =
    ap (λ cs. record e { candidates = cs }) (age_all_twice e.config s t e.candidates h)

demoted_leaves : (c : RemoteCandidate) → stays rule_based_classify (demote c) ≡ false
unfolding demote rule_based_classify is_confirmed_worthy
demoted_leaves c = refl

none_stay :
    (cs : List (Text × RemoteCandidate))
    → keep_if (λ _ c. stays rule_based_classify c) (map_values (λ _ c. demote c) cs) ≡ []
none_stay [] = refl
none_stay ((mac, c) ∷ cs) = rw (demoted_leaves c) (none_stay cs)

-- With the rule-based classifier, a restart after which no source reports anything leaves no
-- candidate: `markLive` right after `prepareForRestart` erases them all.
pub mark_live-prepare_for_restart :
    (e : Engine) (now later : ℕ)
    → e.classifier ≡ rule_based_classify
    → (mark_live (prepare_for_restart e now).0 later).0.candidates ≡ []
unfolding mark_live prepare_for_restart
mark_live-prepare_for_restart e now later h = rw h (ap (map_values _) (none_stay e.candidates))
