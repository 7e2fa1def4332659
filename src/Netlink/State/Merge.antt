-- ===== src/Netlink/State/Merge.antt =====
-- The invariant of NetlinkState.cpp and its histories: the devices are the merged aggregates.
use rmc_fabric.Base.{
  ℕ, ◌≡◌, refl, ◌∙◌, Text, text_discrete, Bool, true, false, not, if◌then◌else◌, ite, List, Option,
  none, some, Bool-cases, Option-cases, inl, inr, arith,
}
use rmc_fabric.Containers.Set
use rmc_fabric.Containers.Map
use rmc_fabric.Model.Types.{text_ordered}
use rmc_fabric.Netlink.Types.{FdbEvent, NeighborEvent, DeviceEvent}
use rmc_fabric.Netlink.State.{
  MacAggregate, NetlinkState, empty_state, merged, has_any_info, aggregate_of, or_empty,
  put_aggregate, with_ips, neighbor_key, refresh_merged_device_locked, update_fdb, update_neighbor,
}
use rmc_fabric.Netlink.State.Devices.{
  device, aggregate, tell, stays, is_own, Refreshed, refresh-Refreshed,
}

abbrev pub fdb_entry : NetlinkState → Text → Option FdbEvent
fdb_entry s mac = Map.lookup text_discrete mac s.fdb_states_by_mac

abbrev pub merged_of : Text → Option MacAggregate → Option DeviceEvent
merged_of mac none = none
merged_of mac (some agg) = some (merged mac agg)

abbrev pub fdb_of : Option MacAggregate → Option FdbEvent
fdb_of none = none
fdb_of (some agg) = agg.fdb

abbrev pub is_present : Option FdbEvent → Bool
is_present none = true
is_present (some event) = event.present

abbrev pub is_informed : Option DeviceEvent → Bool
is_informed none = true
is_informed (some device) = stays device

-- The devices are the merged aggregates, each of which holds something; the FDB entry of an aggregate
-- is that of the FDB table, whose entries are present.
pub record MergeInv (s : NetlinkState) : Type 0 where
  pub known : (mac : Text) → device s mac ≡ merged_of mac (aggregate s mac)
  pub informed : (mac : Text) → is_informed (device s mac) ≡ true
  pub entry : (mac : Text) → fdb_of (aggregate s mac) ≡ fdb_entry s mac
  pub present : (mac : Text) → is_present (fdb_entry s mac) ≡ true

pub empty_state-MergeInv : MergeInv empty_state
unfolding Map.lookup
empty_state-MergeInv = record {
  known = λ mac. refl;
  informed = λ mac. refl;
  entry = λ mac. refl;
  present = λ mac. refl;
}

merged-is_own : (mac : Text) (found : Option MacAggregate) → is_own mac (merged_of mac found) ≡ true
merged-is_own mac none = refl
merged-is_own mac (some agg) = ground arith

-- An aggregate whose FDB entry is present has an interface only if it is present.
stays-informed :
    (mac : Text) (agg : MacAggregate) (found : Option FdbEvent)
    → agg.fdb ≡ found
    → is_present found ≡ true
    → stays (merged mac agg) ≡ has_any_info (merged mac agg)
stays-informed mac agg none h p = rw h (ground arith)
stays-informed mac agg (some event) h p = rw h (ground arith)

-- A step leaves the invariant, and a client that agrees with the devices still does.
pub record Merges (s : NetlinkState) (r : NetlinkState × Option DeviceEvent) : Type 0 where
  pub inv : MergeInv r.0
  pub told : (k : Text) → tell k r.1 (device s k) ≡ device r.0 k

nothing_no_entry :
    (mac : Text) (agg : MacAggregate) (found : Option FdbEvent)
    → agg.fdb ≡ found
    → is_present found ≡ true
    → has_any_info (merged mac agg) ≡ false
    → agg.fdb ≡ none
nothing_no_entry mac agg none h p e = h
nothing_no_entry mac agg (some event) h p e = ground arith

module _ {s : NetlinkState} {mac : Text} {agg : MacAggregate}
    {r : NetlinkState × Option DeviceEvent} (v : MergeInv s) (x : Refreshed s mac agg r)
    (entry : (k : Text) → fdb_entry r.0 k ≡ ite (text_discrete mac k) agg.fdb (fdb_entry s k))
    (present : is_present agg.fdb ≡ true) where
  refreshed-Merges : Merges s r
  refreshed-Merges = elim (Bool-cases (has_any_info (merged mac agg))) [
    | inl e ↦ record {
      inv = record {
        known = λ k. ground (arith, x.devices k, x.aggregates k, v.known k);
        informed =
            λ k. ground (arith, x.devices k, v.informed k, stays-informed mac agg _ refl present);
        entry = λ k. ground (arith, x.aggregates k, entry k, v.entry k);
        present = λ k. ground (arith, entry k, v.present k);
      };
      told = x.told;
    }
    | inr e ↦ record {
      inv = record {
        known = λ k. ground (arith, x.devices k, x.aggregates k, v.known k);
        informed = λ k. ground (arith, x.devices k, v.informed k);
        entry = λ k.
            ground (
              arith,
              x.aggregates k,
              entry k,
              v.entry k,
              nothing_no_entry mac agg _ refl present e,
            );
        present = λ k. ground (arith, entry k, v.present k);
      };
      told = x.told;
    }
  ]

-- A refresh leaves the FDB table alone.
pub refresh-fdb :
    (s : NetlinkState) (mac : Text)
    → (refresh_merged_device_locked s mac).0.fdb_states_by_mac ≡ s.fdb_states_by_mac
unfolding refresh_merged_device_locked
refresh-fdb s mac = elim (Option-cases (aggregate s mac)) [
  | inl e ↦ rw e (ground arith)
  | inr (agg, e) ↦ rw e (ground arith)
]

not-not : (b : Bool) → not b ≡ false → b ≡ true
not-not true h = refl
not-not false h = cc

with_ips-fdb :
    (family : ℕ) (change : List Text → List Text) (agg : MacAggregate)
    → (with_ips family change agg).fdb ≡ agg.fdb
with_ips-fdb family change agg = ground arith

or_empty-fdb : (found : Option MacAggregate) → (or_empty found).fdb ≡ fdb_of found
or_empty-fdb none = refl
or_empty-fdb (some agg) = refl

module _ (s : NetlinkState) (v : MergeInv s) where
  put-Merges :
      (fdb : List (Text × FdbEvent)) (neighbors : List (Text × NeighborEvent)) (mac : Text)
      (agg : MacAggregate)
      → ((k : Text)
          → Map.lookup text_discrete k fdb ≡ ite (text_discrete mac k) agg.fdb (fdb_entry s k))
      → is_present agg.fdb ≡ true
      → Merges s (
          refresh_merged_device_locked
            (put_aggregate
              (record s { fdb_states_by_mac = fdb; neighbor_states_by_key = neighbors })
              mac
              agg)
            mac)
  put-Merges fdb neighbors mac agg entry present =
      let s' = record s { fdb_states_by_mac = fdb; neighbor_states_by_key = neighbors } in
      let own : is_own mac (device s mac) ≡ true = rw (v.known mac) (merged-is_own mac _) in
      let x = refresh-Refreshed s' mac agg own (stays-informed mac agg _ refl present) in
      refreshed-Merges {agg = agg} v
        (record { devices = x.devices; aggregates = x.aggregates; told = x.told })
        (λ k. rw (refresh-fdb (put_aggregate s' mac agg) mac) (entry k)) present

  if-Merges :
      (b : Bool) (mac : Text) (x y : NetlinkState)
      → (b ≡ true → Merges s (refresh_merged_device_locked x mac))
      → (b ≡ false → Merges s (refresh_merged_device_locked y mac))
      → Merges s (refresh_merged_device_locked (if b then x else y) mac)
  if-Merges true mac x y p q = p refl
  if-Merges false mac x y p q = q refl

  -- After an FDB event the devices are the merged aggregates again, and a client that agreed with
  -- them and hears the device event still does.
  pub update_fdb-Merges :
      (event : FdbEvent) → Merges s ((update_fdb s event).0, (update_fdb s event).2)
  unfolding update_fdb
  update_fdb-Merges event =
      if-Merges (not event.present) event.mac _ _
        (λ e.
          put-Merges (Map.erase text_discrete event.mac s.fdb_states_by_mac)
            s.neighbor_states_by_key event.mac (record (aggregate_of s event.mac) { fdb = none })
            (λ k. Map.lookup-erase text_discrete k event.mac s.fdb_states_by_mac) refl)
        (λ e.
          put-Merges (Map.insert text_discrete event.mac event s.fdb_states_by_mac)
            s.neighbor_states_by_key event.mac
            (record (aggregate_of s event.mac) { fdb = some event })
            (λ k. Map.lookup-insert text_discrete k event.mac event s.fdb_states_by_mac)
            (not-not event.present e))

  ips_present :
      (family : ℕ) (change : List Text → List Text) (mac : Text)
      → ((k : Text)
          → fdb_entry s k
            ≡ ite
                (text_discrete mac k)
                (with_ips family change (aggregate_of s mac)).fdb
                (fdb_entry s k))
        × (is_present (with_ips family change (aggregate_of s mac)).fdb ≡ true)
  ips_present family change mac =
      let same : (with_ips family change (aggregate_of s mac)).fdb ≡ fdb_entry s mac =
        with_ips-fdb family change (aggregate_of s mac)
        ∙ or_empty-fdb (aggregate s mac)
        ∙ v.entry mac in
      (λ k. ground (arith, same), rw same (v.present mac))

  -- After a neighbour event the devices are the merged aggregates again, and a client that agreed
  -- with them and hears the device event still does.
  pub update_neighbor-Merges :
      (event : NeighborEvent) → Merges s ((update_neighbor s event).0, (update_neighbor s event).2)
  unfolding update_neighbor
  update_neighbor-Merges event =
      if-Merges (not event.present) event.mac _ _
        (λ e.
          let same = ips_present event.family (Set.erase event.ip) event.mac in
          put-Merges s.fdb_states_by_mac
            (Map.erase text_discrete (neighbor_key event) s.neighbor_states_by_key) event.mac
            (with_ips event.family (Set.erase event.ip) (aggregate_of s event.mac)) same.0 same.1)
        (λ e.
          let same = ips_present event.family (Set.insert event.ip) event.mac in
          put-Merges s.fdb_states_by_mac
            (Map.insert text_discrete (neighbor_key event) event s.neighbor_states_by_key) event.mac
            (with_ips event.family (Set.insert event.ip) (aggregate_of s event.mac)) same.0 same.1)
