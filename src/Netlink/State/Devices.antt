-- ===== src/Netlink/State/Devices.antt =====
-- The devices that NetlinkState.cpp merges from FDB entries and neighbours: what a refresh leaves,
-- and what a client that hears the device events knows.
use rmc_fabric.Base.{
  ◌≡◌, refl, Text, text_discrete, Bool, true, false, ◌||◌, not, if◌then◌else◌, ite, Option, none,
  some, is_empty, Bool-cases, inl, inr, arith,
}
use rmc_fabric.Containers.Map
use rmc_fabric.Netlink.Types.{DeviceEvent, DeviceEvent-discrete}
use rmc_fabric.Netlink.State.{
  MacAggregate, NetlinkState, merged, has_any_info, emit, differs, drop_found,
  refresh_merged_device_locked, put_aggregate,
}

-- Whether a client may keep the device of an event: the event of a removal is not present and has no
-- addresses.
abbrev pub stays : DeviceEvent → Bool
stays device =
    device.present || not (is_empty device.ipv4_addrs) || not (is_empty device.ipv6_addrs)

-- What the client holds for a MAC address after the event that a step returned.
abbrev pub tell : Text → Option DeviceEvent → Option DeviceEvent → Option DeviceEvent
tell mac none held = held
tell mac (some device) held =
    ite (text_discrete device.mac mac) (if stays device then some device else none) held

abbrev pub device : NetlinkState → Text → Option DeviceEvent
device s mac = Map.lookup text_discrete mac s.device_states_by_mac

abbrev pub aggregate : NetlinkState → Text → Option MacAggregate
aggregate s mac = Map.lookup text_discrete mac s.mac_aggregates

abbrev pub keep_informed {ℓ} : {A : Type ℓ} → Text → MacAggregate → A → Option A
keep_informed mac agg a = if has_any_info (merged mac agg) then some a else none

-- The state is changed at one MAC address only, to the device merged from the aggregate.
pub record Refreshed (s : NetlinkState) (mac : Text) (agg : MacAggregate)
    (r : NetlinkState × Option DeviceEvent) : Type 0 where
  pub devices :
      (k : Text)
      → device r.0 k
        ≡ ite (text_discrete mac k) (keep_informed mac agg (merged mac agg)) (device s k)
  pub aggregates :
      (k : Text)
      → aggregate r.0 k ≡ ite (text_discrete mac k) (keep_informed mac agg agg) (aggregate s k)
  pub told : (k : Text) → tell k r.1 (device s k) ≡ device r.0 k

-- Every device has its own MAC address.
abbrev pub is_own : Text → Option DeviceEvent → Bool
is_own mac none = true
is_own mac (some device) = ite (text_discrete device.mac mac) true false

module _ (s : NetlinkState) (mac : Text) (agg : MacAggregate)
    (own : is_own mac (device s mac) ≡ true)
    (informed : stays (merged mac agg) ≡ has_any_info (merged mac agg)) where
  dropped-Refreshed :
      (found : Option DeviceEvent)
      → device s mac ≡ found
      → has_any_info (merged mac agg) ≡ false
      → Refreshed s mac agg (
          drop_found
            (record s {
              mac_aggregates =
                  Map.erase text_discrete mac (Map.insert text_discrete mac agg s.mac_aggregates);
            })
            mac
            found)
  dropped-Refreshed none h e = record {
    devices = λ k. ground (arith);
    aggregates = λ k. ground (
      arith,
      Map.lookup-erase text_discrete k mac (Map.insert text_discrete mac agg s.mac_aggregates),
      Map.lookup-insert text_discrete k mac agg s.mac_aggregates,
    );
    told = λ k. refl;
  }
  dropped-Refreshed (some old) h e = record {
    devices = λ k. ground (arith, Map.lookup-erase text_discrete k mac s.device_states_by_mac);
    aggregates = λ k. ground (
      arith,
      Map.lookup-erase text_discrete k mac (Map.insert text_discrete mac agg s.mac_aggregates),
      Map.lookup-insert text_discrete k mac agg s.mac_aggregates,
    );
    told = λ k. ground (arith, Map.lookup-erase text_discrete k mac s.device_states_by_mac);
  }

  merged-Refreshed :
      (found : Option DeviceEvent)
      → device s mac ≡ found
      → has_any_info (merged mac agg) ≡ true
      → Refreshed s mac agg (
        record s {
          mac_aggregates = Map.insert text_discrete mac agg s.mac_aggregates;
          device_states_by_mac =
              Map.insert text_discrete mac (merged mac agg) s.device_states_by_mac;
        },
        emit (differs DeviceEvent-discrete found (merged mac agg)) (merged mac agg),
      )
  merged-Refreshed found h e = record {
    devices = λ k.
        ground
          (arith, Map.lookup-insert text_discrete k mac (merged mac agg) s.device_states_by_mac);
    aggregates = λ k. ground (arith, Map.lookup-insert text_discrete k mac agg s.mac_aggregates);
    told = λ k.
        ground
          (arith, Map.lookup-insert text_discrete k mac (merged mac agg) s.device_states_by_mac);
  }

  pub refresh-Refreshed :
      Refreshed s mac agg (refresh_merged_device_locked (put_aggregate s mac agg) mac)
  unfolding refresh_merged_device_locked
  refresh-Refreshed =
      rw (Map.lookup-insert_self text_discrete mac agg s.mac_aggregates)
        (elim (Bool-cases (has_any_info (merged mac agg))) [
          | inl e ↦ rw e (merged-Refreshed (device s mac) refl e)
          | inr e ↦ rw e (dropped-Refreshed (device s mac) refl e)
        ])
