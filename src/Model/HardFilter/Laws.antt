-- ===== src/Model/HardFilter/Laws.antt =====
-- What the hard filter keeps out.
use rmc_fabric.Base.{
  ℕ, ◌+◌, ◌*◌, ◌/◌, ◌%◌, ◌^◌, ◌≡◌, refl, ◌↔◌, Text, codes, Bool, true, false, ◌&&◌, ◌==◌, not, ite,
  text_discrete, ◌∷◌, Option, none, some, arith,
}
use rmc_fabric.Model.Types.{ModelConfig, NeighborObservation, FdbObservation, default_config}
use rmc_fabric.Model.HardFilter.{
  hex_digit, strtol_pair, is_null_mac, is_multicast_mac, is_ieee_reserved_mac, inet_pton,
  is_multicast_ipv4, is_multicast_ipv6, in_multicast_range, passes_neighbor, passes_fdb,
  is_local_kind,
}

range_bits :
    (o : Option ℕ) → (in_multicast_range o ≡ true) ↔ ((n : ℕ) × (o ≡ some n) × (n / 2 ^ 28 ≡ 14))
range_bits none = ((λ h. cc), (λ h. cc))
range_bits (some n) =
    ((λ h. (n, refl, ground arith)), (λ h. let (m, same, top) = h in ground arith))

-- An IPv4 address counts as multicast exactly if it parses and its four highest bits are 1110, which
-- is 224.0.0.0/4.
pub is_multicast_ipv4-high_bits :
    (ip : Text)
    → (is_multicast_ipv4 ip ≡ true) ↔ ((n : ℕ) × (inet_pton ip ≡ some n) × (n / 2 ^ 28 ≡ 14))
unfolding is_multicast_ipv4
is_multicast_ipv4-high_bits ip = range_bits (inet_pton ip)

-- A MAC address that begins with two hexadecimal digits is multicast exactly if the lowest bit of its
-- first octet, which is that of its second digit, is set.
pub is_multicast_mac-digits :
    (a b h l : ℕ) (rest : Text)
    → hex_digit a ≡ some h
    → hex_digit b ≡ some l
    → is_multicast_mac (a ∷ b ∷ rest) ≡ (l % 2 == 1)
unfolding is_multicast_mac
is_multicast_mac-digits a b h l rest p q = rw (strtol_pair, p, q) (parity h l)
  where
    parity : (h l : ℕ) → ((16 * h + l) % 2 == 1) ≡ (l % 2 == 1)
    parity h l = ground arith

-- With the default configuration a neighbour observation passes exactly if its MAC address is not
-- null, multicast, IEEE reserved or local, its interface is not the loopback, and its IP address is
-- not multicast in either family, nor local.
pub passes_neighbor-default :
    (obs : NeighborObservation) (is_local_mac is_local_ip : Bool)
    → passes_neighbor default_config obs is_local_mac is_local_ip ≡ (
        not (is_null_mac obs.mac)
        && not (ite (text_discrete obs.ifname (codes "lo")) true false)
        && not (is_multicast_ipv4 obs.ip)
        && not (is_multicast_ipv6 obs.ip)
        && not (is_multicast_mac obs.mac)
        && not (is_ieee_reserved_mac obs.mac)
        && not is_local_mac
        && not is_local_ip)
unfolding passes_neighbor
passes_neighbor-default obs is_local_mac is_local_ip = ground arith

-- Whatever the configuration, a neighbour observation that passes has neither a local MAC address nor
-- a local IP address, and none of what its configuration skips.
pub passes_neighbor_sound :
    (config : ModelConfig) (obs : NeighborObservation) (is_local_mac is_local_ip : Bool)
    → passes_neighbor config obs is_local_mac is_local_ip ≡ true
    → (is_local_mac ≡ false)
      × (is_local_ip ≡ false)
      × ((config.skip_null_mac && is_null_mac obs.mac) ≡ false)
      × ((config.skip_multicast_mac && is_multicast_mac obs.mac) ≡ false)
      × ((config.skip_multicast_ipv4 && is_multicast_ipv4 obs.ip) ≡ false)
unfolding passes_neighbor
passes_neighbor_sound config obs is_local_mac is_local_ip h =
    (ground arith, ground arith, ground arith, ground arith, ground arith)

-- Whatever the configuration, an FDB observation that passes has no local MAC address, is no entry of
-- the bridge itself or of its control plane, and has no MAC address that its configuration skips.
pub passes_fdb_sound :
    (config : ModelConfig) (obs : FdbObservation) (is_local_mac : Bool)
    → passes_fdb config obs is_local_mac ≡ true
    → (is_local_mac ≡ false)
      × (is_local_kind obs.entry_kind ≡ false)
      × ((config.skip_null_mac && is_null_mac obs.mac) ≡ false)
      × ((config.skip_multicast_mac && is_multicast_mac obs.mac) ≡ false)
unfolding passes_fdb
passes_fdb_sound config obs is_local_mac h =
    (ground arith, ground arith, ground arith, ground arith)
