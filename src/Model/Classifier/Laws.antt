-- ===== src/Model/Classifier/Laws.antt =====
-- What ICandidateClassifier.h asks of the bundled classifiers, and what the rule-based one decides.
use rmc_fabric.Base.{◌≡◌, true, ◌&&◌, ◌||◌, not, is_empty, ◌+ℤ◌, arith}
use rmc_fabric.Model.Types.{
  RemoteCandidate, topology_peer, ClassifierConfig, ClassifierKind, rule_based, scoring,
  default_weights, default_thresholds,
}
use rmc_fabric.Model.Candidate.{is_confirmed_worthy}
use rmc_fabric.Model.Classifier.{
  create_classifier, rule_based_classify, scoring_classify, score_to_class, compute_score,
}

kind_cases :
    (P : ClassifierKind → Type 0) → P rule_based → P scoring → (kind : ClassifierKind) → P kind
kind_cases P r s rule_based = r
kind_cases P r s scoring = s

-- Whatever the configuration, the classifier that the factory makes calls a candidate with LLDP
-- evidence a topology peer.
pub create_classifier-lldp :
    (config : ClassifierConfig) (c : RemoteCandidate)
    → c.seen_in_lldp ≡ true
    → create_classifier config c ≡ topology_peer
unfolding create_classifier rule_based_classify scoring_classify
create_classifier-lldp config c h =
    kind_cases (λ kind. create_classifier (record config { kind = kind }) c ≡ topology_peer)
      (ground arith) (ground arith) config.kind

-- The rule-based classifier finds a candidate worthy of confirmation exactly if it has LLDP or FDB
-- evidence, or neighbour evidence and an address.
pub rule_based_classify-worthy :
    (c : RemoteCandidate)
    → is_confirmed_worthy (rule_based_classify c) ≡ (
        c.seen_in_lldp
        || c.seen_in_fdb
        || (c.seen_in_neigh && (not (is_empty c.ipv4) || not (is_empty c.ipv6))))
unfolding rule_based_classify is_confirmed_worthy
rule_based_classify-worthy c = ground arith

-- With the default weights and thresholds the scoring classifier finds a candidate worthy exactly if
-- it has LLDP evidence, or FDB evidence and two of the three: neighbour evidence, an IPv4 address, an
-- IPv6 address.
pub scoring_classify-worthy :
    (c : RemoteCandidate)
    → is_confirmed_worthy (scoring_classify default_weights default_thresholds c) ≡ (
        c.seen_in_lldp
        || (c.seen_in_fdb
            && ((c.seen_in_neigh && (not (is_empty c.ipv4) || not (is_empty c.ipv6)))
                || (not (is_empty c.ipv4) && not (is_empty c.ipv6)))))
unfolding scoring_classify score_to_class compute_score is_confirmed_worthy ◌+ℤ◌
scoring_classify-worthy c = ground arith
