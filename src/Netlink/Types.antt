-- ===== src/Netlink/Types.antt =====
-- services/network-observation/inputs/netlink/public/NetlinkTypes.h, and the keys of
-- utils/NetlinkUtils.h. Indices, families and states are numbers, a string is its bytes.
use rmc_fabric.Base.{
  ◌≡◌, ◌<◌, ◌*◌, ◌-◌, ◌∙◌, ap, Bool-cases, inl, inr, arith, ℕ, zero, suc, ◌+◌, ◌/◌, ◌%◌, Text,
  text_discrete, codes, Bool, List, [], ◌∷◌, ◌++◌, Option, ltb, if◌then◌else◌, ◌==◌, ℕ_discrete,
}
use rmc_fabric.Model.Types.{af_inet}

pub record LinkEvent : Type 0 where
  pub ifindex : ℕ
  pub ifname : Text
  pub mac : Text
  pub admin_up : Bool
  pub running : Bool
  pub oper_state : ℕ
  pub master_ifindex : Option ℕ
  pub master_ifname : Option Text
  pub present : Bool

pub record InterfaceIpEvent : Type 0 where
  pub ifname : Text
  pub family : ℕ
  pub address : Text
  pub prefix_len : ℕ
  pub present : Bool

pub record FdbEvent : Type 0 where
  pub ifname : Text
  pub mac : Text
  pub present : Bool
  pub local : Bool
  pub permanent : Bool

pub record NeighborEvent : Type 0 where
  pub ifname : Text
  pub mac : Text
  pub family : ℕ
  pub ip : Text
  pub nud_state : ℕ
  pub present : Bool

pub record DeviceEvent : Type 0 where
  pub ifname : Text
  pub mac : Text
  pub ipv4_addrs : List Text
  pub ipv6_addrs : List Text
  pub present : Bool

pub record InterfaceAddressKey : Type 0 where
  pub ifname : Text
  pub family : ℕ
  pub address : Text
  pub prefix_len : ℕ

-- The defaulted comparisons.
unfoldable pub LinkEvent-discrete : Discrete LinkEvent
LinkEvent-discrete = hlevel (ℕ_discrete, text_discrete)

unfoldable pub FdbEvent-discrete : Discrete FdbEvent
FdbEvent-discrete = hlevel text_discrete

unfoldable pub NeighborEvent-discrete : Discrete NeighborEvent
NeighborEvent-discrete = hlevel (ℕ_discrete, text_discrete)

unfoldable pub DeviceEvent-discrete : Discrete DeviceEvent
DeviceEvent-discrete = hlevel text_discrete

unfoldable pub InterfaceAddressKey-discrete : Discrete InterfaceAddressKey
InterfaceAddressKey-discrete = hlevel (ℕ_discrete, text_discrete)

-- AF_INET6 of <sys/socket.h> on Linux.
abbrev pub af_inet6 : ℕ
af_inet6 = 10

abbrev pub is_ipv4 : ℕ → Bool
is_ipv4 family = family == af_inet

abbrev pub is_ipv6 : ℕ → Bool
is_ipv6 family = family == af_inet6

-- `std::to_string`; a number has at most as many digits as one more than itself.
unfoldable pub digits : ℕ → ℕ → Text → Text
digits zero n acc = acc
digits (suc fuel) n acc =
    let rest = digits fuel (n / 10) ((48 + n % 10) ∷ acc) in
    if ltb n 10 then (48 + n) ∷ acc else rest

unfoldable pub make_neighbor_key : Text → Text → ℕ → Text → Text
make_neighbor_key ifname mac family ip =
    ifname ++ codes "|" ++ mac ++ codes "|" ++ digits (suc family) family [] ++ codes "|" ++ ip

-- The number that decimal digits spell, after `v`.
abbrev pub read : Text → ℕ → ℕ
read [] v = v
read (c ∷ cs) v = read cs (10 * v + (c - 48))

-- The fuel is enough: read back, the digits are the number.
pub read-digits : (fuel n : ℕ) (acc : Text) → n < fuel → read (digits fuel n acc) 0 ≡ read acc n
unfolding digits
read-digits zero n acc h = absurd (omega arith)
read-digits (suc fuel) n acc h = elim (Bool-cases (ltb n 10)) [
  | inl e ↦ rw e (ap (read acc) (omega arith))
  | inr e ↦
      let small : n / 10 < fuel = ground arith in
      let back : 10 * (n / 10) + (48 + n % 10 - 48) ≡ n = omega arith in
      rw e (read-digits fuel (n / 10) ((48 + n % 10) ∷ acc) small ∙ ap (read acc) back)
]
