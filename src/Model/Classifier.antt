-- ===== src/Model/Classifier.antt =====
-- services/network-observation/core/classifier: the two bundled classifiers and the factory.
pub mod Laws
use rmc_fabric.Base.{Bool, ◌&&◌, ◌||◌, not, if◌then◌else◌, is_empty, ℤ, pos, ◌+ℤ◌, geb}
use rmc_fabric.Model.Types.{
  RemoteCandidate, CandidateClassification, weak_candidate, probable_endpoint, remote_endpoint,
  topology_peer, ScoringWeights, ScoringThresholds, rule_based, scoring, ClassifierConfig,
  Classifier,
}

-- RuleBasedClassifier::classify
unfoldable pub rule_based_classify : Classifier
rule_based_classify c =
    if c.seen_in_lldp
    then topology_peer
    else (if c.seen_in_fdb && not (is_empty c.ipv4)
        then remote_endpoint
        else (if c.seen_in_fdb && not (is_empty c.ipv6)
            then remote_endpoint
            else (if c.seen_in_fdb
                then remote_endpoint
                else (if (not (is_empty c.ipv4) || not (is_empty c.ipv6)) && c.seen_in_neigh
                    then remote_endpoint
                    else (if c.seen_in_neigh
                        then weak_candidate
                        else CandidateClassification.unknown)))))

-- `if (seen) score += weight;`
abbrev add_if : Bool → ℤ → ℤ → ℤ
add_if seen weight score = if seen then score +ℤ weight else score

-- ScoringClassifier::computeScore
unfoldable pub compute_score : ScoringWeights → RemoteCandidate → ℤ
compute_score w c = add_if (not (is_empty c.ipv6)) w.ipv6 (
    add_if (not (is_empty c.ipv4)) w.ipv4 (
      add_if c.seen_in_lldp w.lldp
        (add_if c.seen_in_neigh w.neighbor (add_if c.seen_in_fdb w.fdb (pos 0)))))

-- ScoringClassifier::scoreToClass
unfoldable pub score_to_class : ScoringThresholds → ℤ → CandidateClassification
score_to_class t score =
    if geb score t.topology
    then topology_peer
    else (if geb score t.confirmed
        then remote_endpoint
        else (if geb score t.probable then probable_endpoint else weak_candidate))

-- ScoringClassifier::classify
unfoldable pub scoring_classify : ScoringWeights → ScoringThresholds → Classifier
scoring_classify w t c =
    if c.seen_in_lldp then topology_peer else score_to_class t (compute_score w c)

-- createClassifier
unfoldable pub create_classifier : ClassifierConfig → Classifier
create_classifier config = elim config.kind [
  | scoring ↦ scoring_classify config.weights config.thresholds
  | rule_based ↦ rule_based_classify
]
