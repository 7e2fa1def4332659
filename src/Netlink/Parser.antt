-- ===== src/Netlink/Parser.antt =====
-- services/network-observation/inputs/netlink/parser/NetlinkParser.cpp and utils/NetlinkUtils.cpp. A
-- message is its header's fields with the attributes that the macros of the kernel's headers walk;
-- `if_indextoname` and `inet_ntop` are parameters. Numbers are those of the kernel's headers.
pub mod Link
pub mod Address
pub mod Names
use rmc_fabric.Base.{
  ℕ, ℕ_discrete, ◌+◌, ◌*◌, ◌/◌, ◌%◌, ◌<◌, ◌==◌, ltb, leb, Text, codes, Bool, true, false, not, ◌&&◌,
  ◌||◌, List, [], ◌∷◌, ◌++◌, Option, none, some, if◌then◌else◌,
}
use rmc_fabric.Containers.Map
use rmc_fabric.Model.Types.{af_inet}
use rmc_fabric.Netlink.Types.{
  LinkEvent, InterfaceIpEvent, FdbEvent, NeighborEvent, af_inet6, is_ipv4, is_ipv6, digits,
}
use rmc_fabric.Transports.Codec.Checks.{length}

pub record Attribute : Type 0 where
  pub rta_type : ℕ
  pub payload : List ℕ

-- `is_delete` is whether the type of the message is the RTM_DEL one.
pub record Header : Type 0 where
  pub nlmsg_len : ℕ
  pub is_delete : Bool
  pub attributes : List Attribute

pub record NeighborMessage : Type 0 where
  pub header : Header
  pub ndm_family : ℕ
  pub ndm_ifindex : ℕ
  pub ndm_state : ℕ

-- The calls of the system.
pub record System : Type 0 where
  pub if_indextoname : ℕ → Option Text
  pub inet_ntop : ℕ → List ℕ → Option Text

abbrev pub IfindexCache : Type 0
IfindexCache = List (ℕ × Text)

abbrev pub known_or_asked : ℕ → IfindexCache → Option Text → Option Text → IfindexCache × Text
known_or_asked ifindex cache (some name) asked = (cache, name)
known_or_asked ifindex cache none (some name) = (Map.insert ℕ_discrete ifindex name cache, name)
known_or_asked ifindex cache none none = (cache, digits (ifindex + 1) ifindex [])

unfoldable pub resolve : System → ℕ → IfindexCache → IfindexCache × Text
resolve system ifindex cache =
    known_or_asked ifindex cache (Map.lookup ℕ_discrete ifindex cache)
      (system.if_indextoname ifindex)

unfoldable pub update_if_index_name : ℕ → Text → IfindexCache → IfindexCache
update_if_index_name ifindex name cache = Map.insert ℕ_discrete ifindex name cache

unfoldable pub invalidate_if_index : ℕ → IfindexCache → IfindexCache
invalidate_if_index ifindex cache = Map.erase ℕ_discrete ifindex cache

abbrev pub or_invalid : Option Text → Text
or_invalid none = codes "<invalid>"
or_invalid (some ip) = ip

unfoldable pub format_ip_address : System → ℕ → List ℕ → Text
format_ip_address system family bytes = or_invalid (system.inet_ntop family bytes)

-- A digit of `%02x`.
unfoldable pub hex_digit : ℕ → ℕ
hex_digit d = if ltb d 10 then 48 + d else (87 + d)

abbrev pub hex_pair : ℕ → Text
hex_pair byte = hex_digit (byte / 16) ∷ hex_digit (byte % 16) ∷ []

unfoldable pub format_mac_address : List ℕ → Text
format_mac_address (a ∷ b ∷ c ∷ d ∷ e ∷ f ∷ rest) =
    hex_pair a
    ++ (b':'
        ∷ (hex_pair b
            ++ (b':'
                ∷ (hex_pair c
                    ++ (b':' ∷ (hex_pair d ++ (b':' ∷ (hex_pair e ++ (b':' ∷ hex_pair f)))))))))
format_mac_address _ = codes "<invalid>"

-- `(state & flag) != 0` for a flag of one bit.
abbrev pub has_flag : ℕ → ℕ → Bool
has_flag state flag = (state / flag) % 2 == 1

unfoldable pub is_fdb_local : ℕ → Bool
is_fdb_local state = has_flag state 64

unfoldable pub is_fdb_permanent : ℕ → Bool
is_fdb_permanent state = has_flag state 128

-- The last hardware address of at least six bytes, after `mac`.
unfoldable pub link_layer_address : List Attribute → Option Text → Option Text
link_layer_address [] mac = mac
link_layer_address (a ∷ attributes) mac = link_layer_address attributes (
    if a.rta_type == 2 && leb 6 (length a.payload)
    then some (format_mac_address a.payload)
    else mac)

-- An address of the length of its family.
abbrev pub is_address : ℕ → List ℕ → Bool
is_address family payload =
    (family == af_inet && length payload == 4) || (family == af_inet6 && length payload == 16)

unfoldable pub destination : System → ℕ → List Attribute → Option Text → Option Text
destination system family [] ip = ip
destination system family (a ∷ attributes) ip = destination system family attributes (
    if a.rta_type == 1 && is_address family a.payload
    then some (format_ip_address system family a.payload)
    else ip)

abbrev pub fdb_of : NeighborMessage → Text → Option Text → Option FdbEvent
fdb_of m ifname none = none
fdb_of m ifname (some mac) = some (record {
  ifname = ifname;
  mac = mac;
  present = not m.header.is_delete;
  local = is_fdb_local m.ndm_state;
  permanent = is_fdb_permanent m.ndm_state;
})

unfoldable pub handle_fdb : NeighborMessage → Text → Option FdbEvent
handle_fdb m ifname = fdb_of m ifname (link_layer_address m.header.attributes none)

abbrev pub neighbor_of : NeighborMessage → Text → Option Text → Option Text → Option NeighborEvent
neighbor_of m ifname (some mac) (some ip) = some (record {
  ifname = ifname;
  mac = mac;
  family = m.ndm_family;
  ip = ip;
  nud_state = m.ndm_state;
  present = not m.header.is_delete;
})
neighbor_of m ifname _ _ = none

unfoldable pub handle_neighbor_l3 : System → NeighborMessage → Text → Option NeighborEvent
handle_neighbor_l3 system m ifname =
    neighbor_of m ifname (link_layer_address m.header.attributes none)
      (destination system m.ndm_family m.header.attributes none)

-- The event that a neighbour message makes.
pub data Parsed : Type 0 where
  nothing : Parsed
  fdb : FdbEvent → Parsed
  neighbor : NeighborEvent → Parsed

abbrev pub parsed_fdb : Option FdbEvent → Parsed
parsed_fdb none = nothing
parsed_fdb (some e) = fdb e

abbrev pub parsed_neighbor : Option NeighborEvent → Parsed
parsed_neighbor none = nothing
parsed_neighbor (some e) = neighbor e

-- NLMSG_LENGTH(sizeof(ndmsg)) is 28, AF_BRIDGE is 7.
unfoldable pub handle_neigh : System → NeighborMessage → IfindexCache → IfindexCache × Parsed
handle_neigh system m cache =
    let (cache', ifname) = resolve system m.ndm_ifindex cache in
    if ltb m.header.nlmsg_len 28
    then (cache, nothing)
    else (if m.ndm_family == 7
        then (cache', parsed_fdb (handle_fdb m ifname))
        else (if is_ipv4 m.ndm_family || is_ipv6 m.ndm_family
            then (cache', parsed_neighbor (handle_neighbor_l3 system m ifname))
            else (cache', nothing)))
