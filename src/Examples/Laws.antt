-- ===== src/Examples/Laws.antt =====
-- The classifiers, the hard filter, the LLDP identity and the interface policy at concrete inputs.
use rmc_fabric.Base.{ℕ}
use rmc_fabric.Base.{
  ◌≡◌, ◌↔◌, refl, codes, true, false, not, ◌&&◌, ◌||◌, ◌==◌, ◌/◌, ◌^◌, ite, none, some, is_empty,
  text_discrete, starts_with, ◌%◌,
}
use rmc_fabric.Model.Types.{
  FdbEntryKind, topology_peer, default_config, default_weights, default_thresholds, text_ordered,
}
use rmc_fabric.Model.Policy.{default_policy, default_policy_agree}
use rmc_fabric.Model.HardFilter.{
  inet_pton, strtol_pair, is_null_mac, is_multicast_mac, is_ieee_reserved_mac, is_multicast_ipv4,
  is_multicast_ipv6, is_local_kind, passes_neighbor, passes_fdb,
}
use rmc_fabric.Model.HardFilter.Laws.{
  is_multicast_ipv4-high_bits, is_multicast_mac-digits, passes_neighbor-default, passes_fdb_sound,
}
use rmc_fabric.Model.LldpUtils.{is_mac_like, normalize_mac, resolve_lldp_identity}
use rmc_fabric.Model.LldpUtils.Laws.{
  is_mac_like-normalize, IsIdentity, resolve_lldp_identity-IsIdentity,
  resolve_lldp_identity-normalize,
}
use rmc_fabric.Model.Classifier.{create_classifier, rule_based_classify, scoring_classify}
use rmc_fabric.Model.Classifier.Laws.{
  create_classifier-lldp, rule_based_classify-worthy, scoring_classify-worthy,
}
use rmc_fabric.Model.Candidate.{is_confirmed_worthy}
use rmc_fabric.Examples.{router, eth0, router_neighbor, router_fdb, known}

create_classifier-lldp_example :
    create_classifier default_config.classifier_config (record known { seen_in_lldp = true })
    ≡ topology_peer
create_classifier-lldp_example =
    create_classifier-lldp default_config.classifier_config (record known { seen_in_lldp = true })
      refl

rule_based_classify-worthy_example : is_confirmed_worthy (rule_based_classify known) ≡ (
    known.seen_in_lldp
    || known.seen_in_fdb
    || (known.seen_in_neigh && (not (is_empty known.ipv4) || not (is_empty known.ipv6))))
rule_based_classify-worthy_example = rule_based_classify-worthy known

scoring_classify-worthy_example :
    is_confirmed_worthy (scoring_classify default_weights default_thresholds known) ≡ (
      known.seen_in_lldp
      || (known.seen_in_fdb
          && ((known.seen_in_neigh && (not (is_empty known.ipv4) || not (is_empty known.ipv6)))
              || (not (is_empty known.ipv4) && not (is_empty known.ipv6)))))
scoring_classify-worthy_example = scoring_classify-worthy known

is_multicast_ipv4-high_bits_example :
    (is_multicast_ipv4 (codes "224.0.0.1") ≡ true)
    ↔ ((n : ℕ) × (inet_pton (codes "224.0.0.1") ≡ some n) × (n / 2 ^ 28 ≡ 14))
is_multicast_ipv4-high_bits_example = is_multicast_ipv4-high_bits (codes "224.0.0.1")

is_multicast_mac-digits_example : is_multicast_mac (codes "01:80:c2:00:00:0e") ≡ (1 % 2 == 1)
is_multicast_mac-digits_example =
    is_multicast_mac-digits 48 49 0 1 (codes ":80:c2:00:00:0e") refl refl

passes_neighbor-default_example : passes_neighbor default_config router_neighbor false false ≡ (
    not (is_null_mac router)
    && not (ite (text_discrete eth0 (codes "lo")) true false)
    && not (is_multicast_ipv4 (codes "10.0.0.2"))
    && not (is_multicast_ipv6 (codes "10.0.0.2"))
    && not (is_multicast_mac router)
    && not (is_ieee_reserved_mac router)
    && not false
    && not false)
passes_neighbor-default_example = passes_neighbor-default router_neighbor false false

passes_fdb_sound_example :
    (false ≡ false)
    × (is_local_kind FdbEntryKind.dynamic ≡ false)
    × (is_null_mac router ≡ false)
    × (is_multicast_mac router ≡ false)
unfolding passes_fdb is_null_mac is_multicast_mac strtol_pair is_ieee_reserved_mac text_discrete
    starts_with
passes_fdb_sound_example = passes_fdb_sound default_config router_fdb false refl

is_mac_like-normalize_example :
    is_mac_like (normalize_mac (codes "AA:BB")) ≡ is_mac_like (codes "AA:BB")
is_mac_like-normalize_example = is_mac_like-normalize (codes "AA:BB")

resolve_lldp_identity-IsIdentity_example :
    IsIdentity (resolve_lldp_identity (some (codes "AA:BB:CC:00:11:22")) none)
resolve_lldp_identity-IsIdentity_example =
    resolve_lldp_identity-IsIdentity (some (codes "AA:BB:CC:00:11:22")) none

resolve_lldp_identity-normalize_example :
    resolve_lldp_identity
      (some (normalize_mac (codes "AA:BB:CC:00:11:22")))
      (some (normalize_mac (codes "Port")))
    ≡ resolve_lldp_identity (some (codes "AA:BB:CC:00:11:22")) (some (codes "Port"))
resolve_lldp_identity-normalize_example =
    resolve_lldp_identity-normalize (codes "AA:BB:CC:00:11:22") (codes "Port")

default_policy_agree_example :
    (default_policy.allow_remote_neighbor_evidence eth0
      ≡ default_policy.include_in_local_state eth0)
    × (default_policy.allow_remote_fdb_evidence eth0 ≡ default_policy.include_in_local_state eth0)
    × (default_policy.allow_lldp_evidence eth0
        ≡ (default_policy.include_in_local_state eth0 && not (starts_with eth0 (codes "br-"))))
default_policy_agree_example = default_policy_agree eth0
