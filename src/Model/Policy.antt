-- ===== src/Model/Policy.antt =====
-- services/network-observation/core/policy/DefaultInterfacePolicy.cpp
use rmc_fabric.Base.{
  Text, codes, text_discrete, starts_with, Bool, true, false, ◌||◌, ◌&&◌, not, if◌then◌else◌, ite,
  ◌≡◌, arith,
}
use rmc_fabric.Model.Types.{InterfacePolicy}

unfoldable pub is_excluded : Text → Bool
is_excluded ifname = ite (text_discrete ifname (codes "lo")) true (
    starts_with ifname (codes "can")
    || starts_with ifname (codes "sit")
    || starts_with ifname (codes "tun")
    || starts_with ifname (codes "tap")
    || starts_with ifname (codes "veth")
    || starts_with ifname (codes "docker"))

unfoldable pub default_allow_lldp : Text → Bool
default_allow_lldp ifname =
    if is_excluded ifname then false else (if starts_with ifname (codes "br-") then false else true)

unfoldable pub default_policy : InterfacePolicy
default_policy = record {
  include_in_local_state = λ ifname. not (is_excluded ifname);
  allow_remote_neighbor_evidence = λ ifname. not (is_excluded ifname);
  allow_remote_fdb_evidence = λ ifname. not (is_excluded ifname);
  allow_lldp_evidence = default_allow_lldp;
}

-- The local state, the neighbours and the FDB entries of an interface are admitted alike, and LLDP
-- evidence wherever they are but on bridges named `br-…`.
pub default_policy_agree :
    (ifname : Text)
    → (default_policy.allow_remote_neighbor_evidence ifname
        ≡ default_policy.include_in_local_state ifname)
      × (default_policy.allow_remote_fdb_evidence ifname
          ≡ default_policy.include_in_local_state ifname)
      × (default_policy.allow_lldp_evidence ifname ≡ (
          default_policy.include_in_local_state ifname && not (starts_with ifname (codes "br-"))))
unfolding default_policy default_allow_lldp
default_policy_agree ifname = ground arith
