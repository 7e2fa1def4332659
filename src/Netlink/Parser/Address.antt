-- ===== src/Netlink/Parser/Address.antt =====
-- handleAddr of services/network-observation/inputs/netlink/parser/NetlinkParser.cpp.
use rmc_fabric.Base.{ℕ, ◌==◌, ltb, Text, not, List, [], ◌∷◌, Option, none, some, if◌then◌else◌}
use rmc_fabric.Netlink.Types.{InterfaceIpEvent, is_ipv4, is_ipv6}
use rmc_fabric.Netlink.Parser.{
  Attribute, Header, System, IfindexCache, resolve, format_ip_address, is_address,
}

pub record AddressMessage : Type 0 where
  pub header : Header
  pub ifa_family : ℕ
  pub ifa_index : ℕ
  pub ifa_prefixlen : ℕ

-- The payload of the last attribute of a type.
unfoldable pub last_payload : ℕ → List Attribute → Option (List ℕ) → Option (List ℕ)
last_payload type [] found = found
last_payload type (a ∷ attributes) found =
    last_payload type attributes (if a.rta_type == type then some a.payload else found)

-- `emitIp`
abbrev pub emitted : System → AddressMessage → Text → Option (List ℕ) → Option InterfaceIpEvent
emitted system m ifname none = none
emitted system m ifname (some payload) =
    if is_address m.ifa_family payload
    then some (record {
      ifname = ifname;
      family = m.ifa_family;
      address = format_ip_address system m.ifa_family payload;
      prefix_len = m.ifa_prefixlen;
      present = not m.header.is_delete;
    })
    else none

abbrev pub local_or : Option (List ℕ) → Option (List ℕ) → Option (List ℕ)
local_or none address = address
local_or (some payload) address = some payload

-- NLMSG_LENGTH(sizeof(ifaddrmsg)) is 24. IPv4 takes IFA_LOCAL over IFA_ADDRESS.
unfoldable pub handle_addr :
    System → AddressMessage → IfindexCache → IfindexCache × Option InterfaceIpEvent
handle_addr system m cache =
    let (cache', ifname) = resolve system m.ifa_index cache in
    let address = last_payload 1 m.header.attributes none in
    let local = last_payload 2 m.header.attributes none in
    if ltb m.header.nlmsg_len 24
    then (cache, none)
    else (if is_ipv4 m.ifa_family
        then (cache', emitted system m ifname (local_or local address))
        else (if is_ipv6 m.ifa_family
            then (cache', emitted system m ifname address)
            else (cache, none)))
