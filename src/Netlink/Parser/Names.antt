-- ===== src/Netlink/Parser/Names.antt =====
-- The MAC addresses that the parser writes are the keys that LLDP identities resolve to.
use rmc_fabric.Base.{
  ℕ, ◌/◌, ◌%◌, ◌<◌, ◌≡◌, refl, Bool, true, false, ◌&&◌, List, [], ◌∷◌, Option, none, some, Text,
  leb, ltb, ◌==◌, ◌||◌, if◌then◌else◌, arith,
}
use rmc_fabric.Model.LldpUtils.{
  is_xdigit, is_mac_like, is_mac_like_from, normalize_mac, resolve_lldp_identity, to_lower,
}
use rmc_fabric.Netlink.Types.{is_ipv4, is_ipv6}
use rmc_fabric.Netlink.Parser.{
  Attribute, NeighborMessage, System, IfindexCache, Parsed, nothing, fdb, neighbor, hex_digit,
  format_mac_address, link_layer_address, handle_fdb, fdb_of, neighbor_of, handle_neighbor_l3,
  handle_neigh, parsed_fdb, parsed_neighbor,
}
use rmc_fabric.Transports.Codec.Checks.{length}

-- The elements of a list are bytes.
abbrev pub AreBytes : List ℕ → Type 0
AreBytes [] = Unit
AreBytes (b ∷ bytes) = (b < 256) × AreBytes bytes

abbrev pub ArePayloads : List Attribute → Type 0
ArePayloads [] = Unit
ArePayloads (a ∷ attributes) = AreBytes a.payload × ArePayloads attributes

-- Like a MAC address, and its own LLDP identity.
pub record IsKey (mac : Text) : Type 0 where
  pub like : is_mac_like mac ≡ true
  pub identity : resolve_lldp_identity (some mac) none ≡ mac

hex_digit_like : (d : ℕ) → d < 16 → is_xdigit (hex_digit d) ≡ true
unfolding hex_digit
hex_digit_like d h = ground arith

hex_digit_lower : (d : ℕ) → d < 16 → to_lower (hex_digit d) ≡ hex_digit d
unfolding hex_digit
hex_digit_lower d h = ground arith

high_like : (b : ℕ) → b < 256 → is_xdigit (hex_digit (b / 16)) ≡ true
high_like b h = hex_digit_like (b / 16) (omega arith)

low_like : (b : ℕ) → is_xdigit (hex_digit (b % 16)) ≡ true
low_like b = hex_digit_like (b % 16) (omega arith)

high_lower : (b : ℕ) → b < 256 → to_lower (hex_digit (b / 16)) ≡ hex_digit (b / 16)
high_lower b h = hex_digit_lower (b / 16) (omega arith)

low_lower : (b : ℕ) → to_lower (hex_digit (b % 16)) ≡ hex_digit (b % 16)
low_lower b = hex_digit_lower (b % 16) (omega arith)

identity_of :
    (mac : Text)
    → is_mac_like mac ≡ true
    → normalize_mac mac ≡ mac
    → resolve_lldp_identity (some mac) none ≡ mac
unfolding resolve_lldp_identity
identity_of mac like lower = rw (like) lower

format_mac_address-IsKey :
    (bytes : List ℕ)
    → AreBytes bytes
    → leb 6 (length bytes) ≡ true
    → IsKey (format_mac_address bytes)
unfolding format_mac_address is_mac_like is_mac_like_from resolve_lldp_identity normalize_mac
format_mac_address-IsKey (a ∷ b ∷ c ∷ d ∷ e ∷ f ∷ rest) h n =
    let like : is_mac_like (format_mac_address (a ∷ b ∷ c ∷ d ∷ e ∷ f ∷ rest)) ≡ true =
      rw
        (
          high_like a h.0,
          low_like a,
          high_like b h.1.0,
          low_like b,
          high_like c h.1.1.0,
          low_like c,
          high_like d h.1.1.1.0,
          low_like d,
          high_like e h.1.1.1.1.0,
          low_like e,
          high_like f h.1.1.1.1.1.0,
          low_like f,
        )
        refl in
    let lower : normalize_mac (format_mac_address (a ∷ b ∷ c ∷ d ∷ e ∷ f ∷ rest))
        ≡ format_mac_address (a ∷ b ∷ c ∷ d ∷ e ∷ f ∷ rest) =
      rw
        (
          high_lower a h.0,
          low_lower a,
          high_lower b h.1.0,
          low_lower b,
          high_lower c h.1.1.0,
          low_lower c,
          high_lower d h.1.1.1.0,
          low_lower d,
          high_lower e h.1.1.1.1.0,
          low_lower e,
          high_lower f h.1.1.1.1.1.0,
          low_lower f,
        )
        refl in
    record { like = like; identity = identity_of _ like lower }
format_mac_address-IsKey _ h n = cc

-- What holds of the MAC address, where there is one.
abbrev MacIs : (Text → Type 0) → Option Text → Type 0
MacIs P none = Unit
MacIs P (some mac) = P mac

-- What holds of the MAC address of the event.
abbrev pub HasMac : (Text → Type 0) → Parsed → Type 0
HasMac P nothing = Unit
HasMac P (fdb e) = P e.mac
HasMac P (neighbor e) = P e.mac

link_layer_address-MacIs :
    (attributes : List Attribute) (mac : Option Text)
    → ArePayloads attributes
    → MacIs IsKey mac
    → MacIs IsKey (link_layer_address attributes mac)
unfolding link_layer_address
link_layer_address-MacIs [] mac bytes old = old
link_layer_address-MacIs (a ∷ attributes) mac bytes old =
    link_layer_address-MacIs attributes _ bytes.1
      (taken (a.rta_type == 2) (leb 6 (length a.payload)) refl)
  where
    taken :
        (type long : Bool)
        → leb 6 (length a.payload) ≡ long
        → MacIs IsKey (if type && long then some (format_mac_address a.payload) else mac)
    taken true true e = format_mac_address-IsKey a.payload bytes.0 e
    taken true false e = old
    taken false long e = old

fdb_of-HasMac :
    (m : NeighborMessage) (ifname : Text) (mac : Option Text)
    → MacIs IsKey mac
    → HasMac IsKey (parsed_fdb (fdb_of m ifname mac))
fdb_of-HasMac m ifname none k = tt
fdb_of-HasMac m ifname (some mac) k = k

neighbor_of-HasMac :
    (m : NeighborMessage) (ifname : Text) (mac ip : Option Text)
    → MacIs IsKey mac
    → HasMac IsKey (parsed_neighbor (neighbor_of m ifname mac ip))
neighbor_of-HasMac m ifname none ip k = tt
neighbor_of-HasMac m ifname (some mac) none k = tt
neighbor_of-HasMac m ifname (some mac) (some ip) k = k

if-HasMac :
    (b : Bool) (x y : IfindexCache × Parsed)
    → HasMac IsKey x.1
    → HasMac IsKey y.1
    → HasMac IsKey (if b then x else y).1
if-HasMac true x y hx hy = hx
if-HasMac false x y hx hy = hy

-- If the payloads of a neighbour message are bytes, then the MAC address of the event that the
-- parser makes of it, if any, is like a MAC address and its own LLDP identity.
pub handle_neigh-HasMac :
    (system : System) (m : NeighborMessage) (cache : IfindexCache)
    → ArePayloads m.header.attributes
    → HasMac IsKey (handle_neigh system m cache).1
unfolding handle_neigh handle_fdb handle_neighbor_l3
handle_neigh-HasMac system m cache bytes =
    let mac = link_layer_address-MacIs m.header.attributes none bytes tt in
    if-HasMac (ltb m.header.nlmsg_len 28) _ _ tt (
      if-HasMac (m.ndm_family == 7) _ _ (fdb_of-HasMac m _ _ mac) (
        if-HasMac (is_ipv4 m.ndm_family || is_ipv6 m.ndm_family) _ _
          (neighbor_of-HasMac m _ _ _ mac) tt))
