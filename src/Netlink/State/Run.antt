-- ===== src/Netlink/State/Run.antt =====
-- Histories of NetlinkState.cpp, between two calls of `clear`.
use rmc_fabric.Base.{◌≡◌, refl, ◌∙◌, ap, Text, List, [], ◌∷◌, Option, none, arith}
use rmc_fabric.Containers.Map
use rmc_fabric.Netlink.Types.{LinkEvent, InterfaceIpEvent, FdbEvent, NeighborEvent, DeviceEvent}
use rmc_fabric.Netlink.State.{
  NetlinkState, empty_state, update_link, update_address, update_fdb, update_neighbor,
}
use rmc_fabric.Netlink.State.Devices.{device, tell}
use rmc_fabric.Netlink.State.Merge.{
  MergeInv, Merges, empty_state-MergeInv, update_fdb-Merges, update_neighbor-Merges,
}

pub data Update : Type 0 where
  link : LinkEvent → Update
  address : InterfaceIpEvent → Update
  fdb : FdbEvent → Update
  neighbor : NeighborEvent → Update

-- The state after an update, and the device event that its callback gets.
unfoldable pub apply : NetlinkState → Update → NetlinkState × Option DeviceEvent
apply s (link event) = ((update_link s event).0, none)
apply s (address event) = ((update_address s event).0, none)
apply s (fdb event) = ((update_fdb s event).0, (update_fdb s event).2)
apply s (neighbor event) = ((update_neighbor s event).0, (update_neighbor s event).2)

unfoldable pub apply_all : NetlinkState → List Update → NetlinkState × List (Option DeviceEvent)
apply_all s [] = (s, [])
apply_all s (op ∷ ops) =
    let r = apply s op in let rest = apply_all r.0 ops in (rest.0, r.1 ∷ rest.1)

-- What a client holds for a MAC address after the device events.
unfoldable pub tell_all : Text → List (Option DeviceEvent) → Option DeviceEvent → Option DeviceEvent
tell_all mac [] held = held
tell_all mac (event ∷ events) held = tell_all mac events (tell mac event held)

other_fields :
    (s s' : NetlinkState)
    → s'.fdb_states_by_mac ≡ s.fdb_states_by_mac
    → s'.mac_aggregates ≡ s.mac_aggregates
    → s'.device_states_by_mac ≡ s.device_states_by_mac
    → MergeInv s
    → Merges s (s', none)
other_fields s s' p q r v = record {
  inv = record {
    known = λ mac. rw (q, r) (v.known mac);
    informed = λ mac. rw r (v.informed mac);
    entry = λ mac. rw (p, q) (v.entry mac);
    present = λ mac. rw p (v.present mac);
  };
  told = λ mac. rw r refl;
}

pub apply-Merges : (s : NetlinkState) (op : Update) → MergeInv s → Merges s (apply s op)
unfolding apply update_link update_address
apply-Merges s (link event) v =
    other_fields s (update_link s event).0 (ground arith) (ground arith) (ground arith) v
apply-Merges s (address event) v =
    other_fields s (update_address s event).0 (ground arith) (ground arith) (ground arith) v
apply-Merges s (fdb event) v = update_fdb-Merges s v event
apply-Merges s (neighbor event) v = update_neighbor-Merges s v event

-- Any history of updates keeps the devices the merged aggregates: there is a device exactly for each
-- aggregate, every device is present or has an address, and the FDB entry of an aggregate is that of
-- the FDB table.
pub apply_all-MergeInv :
    (ops : List Update) (s : NetlinkState) → MergeInv s → MergeInv (apply_all s ops).0
unfolding apply_all
apply_all-MergeInv [] s v = v
apply_all-MergeInv (op ∷ ops) s v = apply_all-MergeInv ops (apply s op).0 (apply-Merges s op v).inv

told_from :
    (ops : List Update) (s : NetlinkState) (mac : Text)
    → MergeInv s
    → tell_all mac (apply_all s ops).1 (device s mac) ≡ device (apply_all s ops).0 mac
unfolding apply_all tell_all
told_from [] s mac v = refl
told_from (op ∷ ops) s mac v =
    let m = apply-Merges s op v in
    ap (tell_all mac (apply_all (apply s op).0 ops).1) (m.told mac)
    ∙ told_from ops (apply s op).0 mac m.inv

-- From the empty state, after any history of updates: a client that starts with no devices and hears
-- the device events holds, for every MAC address, the device that the state has for it.
pub tell_all-apply_all :
    (ops : List Update) (mac : Text)
    → tell_all mac (apply_all empty_state ops).1 none ≡ device (apply_all empty_state ops).0 mac
unfolding Map.lookup
tell_all-apply_all ops mac = told_from ops empty_state mac empty_state-MergeInv
