-- ===== src/Netlink/State/Links.antt =====
-- Which events of NetlinkState.cpp are passed on, and what a removed link takes with it.
use rmc_fabric.Base.{
  ◌≡◌, refl, Text, text_discrete, Bool, true, false, not, if◌then◌else◌, ite, List, [], ◌∷◌, Option,
  none, some, arith,
}
use rmc_fabric.Containers.Map
use rmc_fabric.Containers.Map.{keep_if}
use rmc_fabric.Netlink.Types.{
  LinkEvent, InterfaceIpEvent, FdbEvent, InterfaceAddressKey, InterfaceAddressKey-discrete,
}
use rmc_fabric.Netlink.State.Merge.{refresh-fdb}
use rmc_fabric.Netlink.State.{
  put_fdb, NetlinkState, is_of, has_address, address_key, update_link, update_address, update_fdb,
}

-- What a client of the link events holds for an interface.
abbrev pub hear_link : Text → Option LinkEvent → Option LinkEvent → Option LinkEvent
hear_link ifname none held = held
hear_link ifname (some event) held =
    ite (text_discrete event.ifname ifname) (if event.present then some event else none) held

-- A client that holds, for each interface, the last link event passed on, and nothing after a
-- removal, agrees with the links of the state after an update if it did before.
pub hear_link-update_link :
    (s : NetlinkState) (event : LinkEvent) (ifname : Text)
    → hear_link ifname (update_link s event).1 (Map.lookup text_discrete ifname s.link_states)
      ≡ Map.lookup text_discrete ifname (update_link s event).0.link_states
unfolding update_link
hear_link-update_link s event ifname = ground (
  arith,
  Map.lookup-insert text_discrete ifname event.ifname event s.link_states,
  Map.lookup-erase text_discrete ifname event.ifname s.link_states,
)

kept_address :
    (ifname : Text) (key : InterfaceAddressKey) (m : List (InterfaceAddressKey × Bool))
    → Map.lookup InterfaceAddressKey-discrete key (keep_if (λ k _. not (is_of ifname k)) m)
      ≡ (if is_of ifname key then none else Map.lookup InterfaceAddressKey-discrete key m)
unfolding Map.lookup
kept_address ifname key [] = ground arith
kept_address ifname key ((k, b) ∷ m) = ground (arith, kept_address ifname key m)

-- The event of a link that is there leaves all addresses; that of a removed link takes those whose
-- key names its interface, whatever their family, address and prefix, and no others.
pub update_link-addresses :
    (s : NetlinkState) (event : LinkEvent) (key : InterfaceAddressKey)
    → Map.lookup InterfaceAddressKey-discrete key (update_link s event).0.interface_addresses ≡ (
        if event.present
        then Map.lookup InterfaceAddressKey-discrete key s.interface_addresses
        else (ite
            (text_discrete key.ifname event.ifname)
            none
            (Map.lookup InterfaceAddressKey-discrete key s.interface_addresses)))
unfolding update_link
update_link-addresses s event key =
    ground (arith, kept_address event.ifname key s.interface_addresses)

gone_address :
    (ifname : Text) (m : List (InterfaceAddressKey × Bool))
    → has_address ifname (keep_if (λ k _. not (is_of ifname k)) m) ≡ false
gone_address ifname [] = refl
gone_address ifname ((k, b) ∷ m) = ground (arith, gone_address ifname m)

-- A link event that comes twice in a row is passed on once at most.
pub update_link-update_link :
    (s : NetlinkState) (event : LinkEvent) → (update_link (update_link s event).0 event).1 ≡ none
unfolding update_link
update_link-update_link s event = ground (
  arith,
  Map.lookup-insert text_discrete event.ifname event.ifname event s.link_states,
  Map.lookup-erase text_discrete event.ifname event.ifname s.link_states,
  gone_address event.ifname s.interface_addresses,
)

-- An address event that comes twice in a row is passed on once at most.
pub update_address-update_address :
    (s : NetlinkState) (event : InterfaceIpEvent)
    → (update_address (update_address s event).0 event).1 ≡ none
unfolding update_address
update_address-update_address s event =
    let key = address_key event in
    ground (
      arith,
      Map.lookup-insert InterfaceAddressKey-discrete key key true s.interface_addresses,
      Map.lookup-erase InterfaceAddressKey-discrete key key s.interface_addresses,
    )

update_fdb-fdb :
    (s : NetlinkState) (event : FdbEvent)
    → (update_fdb s event).0.fdb_states_by_mac ≡ (
        if event.present
        then Map.insert text_discrete event.mac event s.fdb_states_by_mac
        else Map.erase text_discrete event.mac s.fdb_states_by_mac)
unfolding update_fdb
update_fdb-fdb s event = rw (refresh-fdb (put_fdb s event) event.mac) (ground arith)

-- An FDB event that comes twice in a row is not passed on the second time if it is a present one, and
-- is if it is a removal, since its MAC address is unknown then.
pub update_fdb-update_fdb :
    (s : NetlinkState) (event : FdbEvent)
    → (update_fdb (update_fdb s event).0 event).1 ≡ (if event.present then none else some event)
unfolding update_fdb
update_fdb-update_fdb s event = ground (
  arith,
  update_fdb-fdb s event,
  Map.lookup-insert text_discrete event.mac event.mac event s.fdb_states_by_mac,
  Map.lookup-erase text_discrete event.mac event.mac s.fdb_states_by_mac,
)
