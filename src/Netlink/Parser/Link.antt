-- ===== src/Netlink/Parser/Link.antt =====
-- handleLink of services/network-observation/inputs/netlink/parser/NetlinkParser.cpp.
use rmc_fabric.Base.{
  ℕ, ◌+◌, ◌*◌, ◌==◌, ltb, leb, Text, Bool, true, false, not, ◌&&◌, List, [], ◌∷◌, Option, none,
  some, if◌then◌else◌,
}
use rmc_fabric.Netlink.Types.{LinkEvent}
use rmc_fabric.Netlink.Parser.{
  Attribute, Header, System, IfindexCache, resolve, update_if_index_name, invalidate_if_index,
  format_mac_address, has_flag,
}
use rmc_fabric.Transports.Codec.Checks.{length}

pub record LinkMessage : Type 0 where
  pub header : Header
  pub ifi_index : ℕ
  pub ifi_flags : ℕ

-- The name without a NUL at its end.
abbrev pub trimmed : List ℕ → Text
trimmed [] = []
trimmed (c ∷ []) = if c == 0 then [] else (c ∷ [])
trimmed (c ∷ d ∷ s) = c ∷ trimmed (d ∷ s)

-- A native `int`, least significant byte first.
abbrev pub int_of : List ℕ → ℕ
int_of (a ∷ b ∷ c ∷ d ∷ rest) = a + 256 * (b + 256 * (c + 256 * d))
int_of _ = 0

abbrev pub first_byte : List ℕ → ℕ → ℕ
first_byte [] old = old
first_byte (b ∷ rest) old = b

-- The state of the loop of `handleLink`: the event, whether it has its name, and the cache.
pub record LinkParse : Type 0 where
  pub event : LinkEvent
  pub has_ifname : Bool
  pub cache : IfindexCache

unfoldable pub link_attribute : System → ℕ → Attribute → LinkParse → LinkParse
link_attribute system ifindex a p =
    let name = trimmed a.payload in
    let (cache', master) = resolve system (int_of a.payload) p.cache in
    if a.rta_type == 16
    then record p {
      event = record p.event { oper_state = first_byte a.payload p.event.oper_state };
    }
    else (if a.rta_type == 1
        then record p { event = record p.event { mac = format_mac_address a.payload } }
        else (if a.rta_type == 3 && leb 1 (length a.payload)
            then record p {
              event = record p.event { ifname = name };
              has_ifname = true;
              cache = update_if_index_name ifindex name p.cache;
            }
            else (if a.rta_type == 10 && leb 4 (length a.payload)
                then record p {
                  event = record p.event {
                    master_ifindex = some (int_of a.payload);
                    master_ifname = some master;
                  };
                  cache = cache';
                }
                else p)))

unfoldable pub link_attributes : System → ℕ → List Attribute → LinkParse → LinkParse
link_attributes system ifindex [] p = p
link_attributes system ifindex (a ∷ attributes) p =
    link_attributes system ifindex attributes (link_attribute system ifindex a p)

abbrev pub start_link : LinkMessage → IfindexCache → LinkParse
start_link m cache = record {
  event = record {
    ifindex = m.ifi_index;
    ifname = [];
    mac = [];
    admin_up = has_flag m.ifi_flags 1;
    running = has_flag m.ifi_flags 64;
    oper_state = 0;
    master_ifindex = none;
    master_ifname = none;
    present = not m.header.is_delete;
  };
  has_ifname = false;
  cache = if m.header.is_delete then invalidate_if_index m.ifi_index cache else cache;
}

-- NLMSG_LENGTH(sizeof(ifinfomsg)) is 32.
unfoldable pub handle_link : System → LinkMessage → IfindexCache → IfindexCache × Option LinkEvent
handle_link system m cache =
    let p = link_attributes system m.ifi_index m.header.attributes (start_link m cache) in
    let (cache', ifname) = resolve system m.ifi_index p.cache in
    if ltb m.header.nlmsg_len 32
    then (cache, none)
    else (if p.has_ifname
        then (p.cache, some p.event)
        else (cache', some (record p.event { ifname = ifname })))
