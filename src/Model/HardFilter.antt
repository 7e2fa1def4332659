-- ===== src/Model/HardFilter.antt =====
-- services/network-observation/core/engine/HardFilter.cpp. `strtol` on two characters in base 16
-- and `inet_pton` for AF_INET are written out, as the C library documents them.
pub mod Laws
use rmc_fabric.Base.{
  ℕ, suc, ◌+◌, ◌-◌, ◌*◌, ◌%◌, Text, codes, text_discrete, starts_with, Bool, true, false, ◌&&◌,
  ◌||◌, not, if◌then◌else◌, ite, ltb, leb, ◌==◌, [], ◌∷◌, Option, none, some,
}
use rmc_fabric.Model.Types.{
  ModelConfig, NeighborObservation, FdbObservation, FdbEntryKind, local, control_plane,
}

unfoldable pub is_null_mac : Text → Bool
is_null_mac mac = ite (text_discrete mac (codes "00:00:00:00:00:00")) true false

abbrev in_range : ℕ → ℕ → ℕ → Bool
in_range lo hi c = leb lo c && leb c hi

-- The value of a hexadecimal digit.
abbrev pub hex_digit : ℕ → Option ℕ
hex_digit c =
    if in_range b'0' b'9' c
    then some (c - b'0')
    else (if in_range b'a' b'f' c
        then some (c - b'a' + 10)
        else (if in_range b'A' b'F' c then some (c - b'A' + 10) else none))

-- `isspace`, `+` and `-`: what `strtol` takes in front of the digits.
abbrev strtol_prefix : ℕ → Bool
strtol_prefix c = c == 32 || in_range 9 13 c || c == b'+' || c == b'-'

-- The number that `strtol` reads if it reads both characters, without its sign: the sign does not
-- change the lowest bit.
unfoldable pub strtol_pair : ℕ → ℕ → Option ℕ
strtol_pair a b = elim (hex_digit a) [
  | some h ↦ elim (hex_digit b) [ some l ↦ some (16 * h + l) | none ↦ none ]
  | none ↦ if strtol_prefix a then hex_digit b else none
]

abbrev is_odd : Option ℕ → Bool
is_odd none = false
is_odd (some n) = n % 2 == 1

unfoldable pub is_multicast_mac : Text → Bool
unfolding strtol_pair
is_multicast_mac [] = false
is_multicast_mac (a ∷ []) = false
is_multicast_mac (a ∷ b ∷ rest) = is_odd (strtol_pair a b)

unfoldable pub is_ieee_reserved_mac : Text → Bool
is_ieee_reserved_mac mac = starts_with mac (codes "01:80:c2")

-- `inet_pton(AF_INET, …)`, with the address in host order: the octets so far, their number, whether
-- the current octet has a digit, and its value.
unfoldable pub inet_pton_from : Text → ℕ → ℕ → Bool → ℕ → Option ℕ
inet_pton_from [] acc octets digit cur =
    if octets == 4 && digit then some (acc * 256 + cur) else none
inet_pton_from (c ∷ s) acc octets digit cur =
    let value = cur * 10 + (c - b'0') in
    let more = inet_pton_from s acc (if digit then octets else suc octets) true value in
    let next = inet_pton_from s (acc * 256 + cur) octets false 0 in
    if in_range b'0' b'9' c
    then (if (digit && cur == 0) || ltb 255 value || (not digit && octets == 4) then none else more)
    else (if c == b'.' && digit && not (octets == 4) then next else none)

unfoldable pub inet_pton : Text → Option ℕ
unfolding inet_pton_from
inet_pton s = inet_pton_from s 0 0 false 0

abbrev pub in_multicast_range : Option ℕ → Bool
in_multicast_range none = false
in_multicast_range (some n) = leb 0xE0000000 n && leb n 0xEFFFFFFF

unfoldable pub is_multicast_ipv4 : Text → Bool
is_multicast_ipv4 ip = in_multicast_range (inet_pton ip)

unfoldable pub is_multicast_ipv6 : Text → Bool
is_multicast_ipv6 ip = starts_with ip (codes "ff")

-- HardFilter::passes(const NeighborObservation &, …)
unfoldable pub passes_neighbor : ModelConfig → NeighborObservation → Bool → Bool → Bool
passes_neighbor config obs is_local_mac is_local_ip =
    if config.skip_null_mac && is_null_mac obs.mac
    then false
    else (if config.skip_loopback_interface
          && ite (text_discrete obs.ifname (codes "lo")) true false
        then false
        else (if config.skip_multicast_ipv4 && is_multicast_ipv4 obs.ip
            then false
            else (if config.skip_multicast_ipv6 && is_multicast_ipv6 obs.ip
                then false
                else (if config.skip_multicast_mac && is_multicast_mac obs.mac
                    then false
                    else (if config.skip_ieee_reserved_mac && is_ieee_reserved_mac obs.mac
                        then false
                        else (if is_local_mac
                            then false
                            else (if is_local_ip then false else true)))))))

abbrev pub is_local_kind : FdbEntryKind → Bool
is_local_kind local = true
is_local_kind control_plane = true
is_local_kind _ = false

-- HardFilter::passes(const FdbObservation &, …)
unfoldable pub passes_fdb : ModelConfig → FdbObservation → Bool → Bool
passes_fdb config obs is_local_mac =
    if config.skip_null_mac && is_null_mac obs.mac
    then false
    else (if config.skip_multicast_mac && is_multicast_mac obs.mac
        then false
        else (if config.skip_ieee_reserved_mac && is_ieee_reserved_mac obs.mac
            then false
            else (if is_local_mac
                then false
                else (if is_local_kind obs.entry_kind then false else true))))
