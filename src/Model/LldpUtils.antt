-- ===== src/Model/LldpUtils.antt =====
-- services/network-observation/core/LldpUtils.h
pub mod Laws
use rmc_fabric.Base.{
  ℕ, suc, ◌+◌, ◌≡◌, refl, Text, codes, Bool, true, ◌&&◌, ◌||◌, if◌then◌else◌, leb, ◌==◌, [], ◌∷◌,
  Option, none, some, arith,
}

-- `std::isxdigit` and `std::tolower` in the C locale.
abbrev pub is_xdigit : ℕ → Bool
is_xdigit c = (leb b'0' c && leb c b'9') || (leb b'a' c && leb c b'f') || (leb b'A' c && leb c b'F')

abbrev pub to_lower : ℕ → ℕ
to_lower c = if leb b'A' c && leb c b'Z' then c + 32 else c

-- The loop of `isMacLike`: whether the rest has what positions `i` to 16 want. A text that ends
-- before or goes on after position 16 fails the test of its length.
unfoldable pub is_mac_like_from : ℕ → Text → Bool
is_mac_like_from i [] = i == 17
is_mac_like_from i (c ∷ s) =
    let rest = is_mac_like_from (suc i) s in
    if i == 2 || i == 5 || i == 8 || i == 11 || i == 14
    then c == b':' && rest
    else is_xdigit c && rest

unfoldable pub is_mac_like : Text → Bool
unfolding is_mac_like_from
is_mac_like s = is_mac_like_from 0 s

unfoldable pub normalize_mac : Text → Text
normalize_mac [] = []
normalize_mac (c ∷ s) = to_lower c ∷ normalize_mac s

-- The identity that an optional text stands for, if it is like a MAC.
abbrev pub mac_of : Option Text → Option Text
mac_of none = none
mac_of (some s) = if is_mac_like s then some (normalize_mac s) else none

-- The chassis identity comes first, then that of the port.
abbrev pub first_mac : Option Text → Option Text → Text
first_mac (some mac) port = mac
first_mac none (some mac) = mac
first_mac none none = []

unfoldable pub resolve_lldp_identity : Option Text → Option Text → Text
resolve_lldp_identity remote_chassis_id remote_port_id =
    first_mac (mac_of remote_chassis_id) (mac_of remote_port_id)
