-- ===== src/Model/LocalState/Links.antt =====
-- LocalStateTracker::onLinkObservation keeps the counts right.
use rmc_fabric.Base.{
  ◌≤◌, ◌≡◌, refl, if_pos, if_neg, inl, inr, Text, text_discrete, Bool, true, false, [], ◌∷◌, some,
  is_empty, Option-cases, Bool-cases, arith,
}
use rmc_fabric.Containers.Map
use rmc_fabric.Containers.Map.All.{insert-All, erase-All}
use rmc_fabric.Model.Types.{
  text_ordered, ObservationEvent, LocalInterfaceState, LinkObservation, present, removed,
}
use rmc_fabric.Model.LocalState.Refcounts.{Tracks, Tracks-eq, one_if}
use rmc_fabric.Model.LocalState.Weights.{total-erase}
use rmc_fabric.Model.LocalState.{
  LocalStateTracker, forget_interface, update_interface, track_mac, updated_entry, interface_or_new,
  on_link_observation, remove_link, mac_changed, is_local_mac,
}
use rmc_fabric.Model.LocalState.Owners.{
  has_mac, mac_owners, has_ip, ip_owners, IsEntry, Inv, unnamed_mac, interface_or_new-IsEntry, less,
  plus, decrement_mac-Tracks, increment_mac-Tracks, decrement_ips-Tracks, replaced,
}

module _ {t : LocalStateTracker} (v : Inv t) where
  -- Removing an interface gives back its MAC address and all its IP addresses.
  forget_interface-Inv :
      (ifname : Text) (iface : LocalInterfaceState)
      → Map.lookup text_discrete ifname t.interfaces ≡ some iface
      → Inv (forget_interface t ifname iface)
  unfolding forget_interface
  forget_interface-Inv ifname iface e = record {
    distinct = Map.erase-IsDistinct text_discrete ifname t.interfaces v.distinct;
    entries = erase-All (λ _ i. IsEntry i) text_discrete ifname t.interfaces v.entries;
    mac_counts =
        Tracks-eq (decrement_mac-Tracks refl v.mac_counts iface.mac)
          (λ k. ground (arith, total-erase (has_mac k) ifname t.interfaces v.distinct));
    ip_counts =
        Tracks-eq
          (decrement_ips-Tracks iface.ipv6 refl (decrement_ips-Tracks iface.ipv4 refl v.ip_counts))
          (λ k. ground (arith, total-erase (has_ip k) ifname t.interfaces v.distinct));
  }

  owned_entry :
      (ifname : Text) (k : Text)
      → is_empty k ≡ false
      → one_if (interface_or_new t ifname).mac k ≤ mac_owners t.interfaces k
  owned_entry ifname k ne = elim (Option-cases (Map.lookup text_discrete ifname t.interfaces)) [
    | inl e ↦ rw (e, interface_or_new) (ground arith)
    | inr (iface, e) ↦
        rw (e, interface_or_new)
          (ground (arith, total-erase (has_mac k) ifname t.interfaces v.distinct))
  ]

  module _ (obs : LinkObservation) (iface : LocalInterfaceState) where
    track_mac_at :
        (k : Text)
        → (is_empty k ≡ false → one_if iface.mac k ≤ mac_owners t.interfaces k)
        → iface.mac ≡ obs.mac
        → mac_owners t.interfaces k
          ≡ plus (less (mac_owners t.interfaces) (one_if iface.mac)) (one_if obs.mac) k
    track_mac_at [] le e = refl
    track_mac_at (b ∷ k) le e = ground (arith, le refl)

    track_new_at :
        (k : Text)
        → iface.mac ≡ []
        → plus (mac_owners t.interfaces) (one_if obs.mac) k
          ≡ plus (less (mac_owners t.interfaces) (one_if iface.mac)) (one_if obs.mac) k
    track_new_at [] e = refl
    track_new_at (b ∷ k) e = ground arith

    track_mac-Tracks :
        IsEntry iface
        → ((k : Text) → is_empty k ≡ false → one_if iface.mac k ≤ mac_owners t.interfaces k)
        → Tracks
            (track_mac iface obs t.macs)
            (plus (less (mac_owners t.interfaces) (one_if iface.mac)) (one_if obs.mac))
    unfolding track_mac
    track_mac-Tracks entry le = elim (Bool-cases (is_empty iface.ifname)) [
      | inl new ↦ rw new (
          Tracks-eq (increment_mac-Tracks refl v.mac_counts obs.mac)
            (λ k. track_new_at k (unnamed_mac iface.ifname iface.mac entry.0 new)))
      | inr old ↦ elim (text_discrete iface.mac obs.mac) [
        | yes same ↦
            rw (old, if_pos _ same) (Tracks-eq v.mac_counts (λ k. track_mac_at k (le k) same))
        | no other ↦
            rw (old, if_neg _ other)
              (increment_mac-Tracks refl (decrement_mac-Tracks refl v.mac_counts iface.mac) obs.mac)
      ]
    ]

    updated_entry-IsEntry :
        is_empty obs.ifname ≡ false → IsEntry iface → IsEntry (updated_entry iface obs)
    updated_entry-IsEntry named entry = (rw named refl, entry.1, entry.2)

  module _ (obs : LinkObservation) (named : is_empty obs.ifname ≡ false) where
    updated_mac_at :
        (k : Text)
        → plus
            (less (mac_owners t.interfaces) (one_if (interface_or_new t obs.ifname).mac))
            (one_if obs.mac)
            k
          ≡ mac_owners (update_interface t obs).interfaces k
    unfolding update_interface
    updated_mac_at [] = refl
    updated_mac_at (b ∷ k) = ground (
      arith,
      owned_entry obs.ifname (b ∷ k) refl,
      replaced v (has_mac (b ∷ k)) (ground arith) obs.ifname
          (updated_entry (interface_or_new t obs.ifname) obs),
    )

    updated_ip_at :
        (k : Text) → ip_owners t.interfaces k ≡ ip_owners (update_interface t obs).interfaces k
    unfolding update_interface
    updated_ip_at [] = refl
    updated_ip_at (b ∷ k) = omega (
      arith,
      replaced v (has_ip (b ∷ k)) refl obs.ifname
          (updated_entry (interface_or_new t obs.ifname) obs),
    )

    update_interface-Inv : Inv (update_interface t obs)
    unfolding update_interface
    update_interface-Inv =
        let iface = interface_or_new t obs.ifname in
        let entry : IsEntry iface = interface_or_new-IsEntry obs.ifname v in
        record {
          distinct =
              Map.insert-IsDistinct text_discrete obs.ifname (updated_entry iface obs) t.interfaces
                v.distinct;
          entries =
              insert-All (λ _ i. IsEntry i) text_discrete obs.ifname (updated_entry iface obs)
                t.interfaces (updated_entry-IsEntry obs iface named entry) v.entries;
          mac_counts =
              Tracks-eq (track_mac-Tracks obs iface entry (owned_entry obs.ifname)) updated_mac_at;
          ip_counts = Tracks-eq v.ip_counts updated_ip_at;
        }

remove_link-Inv : {t : LocalStateTracker} → Inv t → (ifname : Text) → Inv (remove_link t ifname).0
unfolding remove_link
remove_link-Inv {t} v ifname = elim (Option-cases (Map.lookup text_discrete ifname t.interfaces)) [
  | inl e ↦ rw (remove_link, e) v
  | inr (iface, e) ↦ rw (remove_link, e) (forget_interface-Inv v ifname iface e)
]

-- The handler, on a named interface.
pub on_link_observation-Inv :
    {t : LocalStateTracker} (obs : LinkObservation)
    → is_empty obs.ifname ≡ false
    → Inv t
    → Inv (on_link_observation t obs).0
unfolding on_link_observation
on_link_observation-Inv {t} obs named v = event_cases obs.event
  where
    event_cases :
        (event : ObservationEvent)
        → Inv
            (elim event as (λ _. LocalStateTracker × Bool) [
              | present ↦ (update_interface t obs, mac_changed (interface_or_new t obs.ifname) obs)
              | removed ↦ remove_link t obs.ifname
            ]).0
    event_cases present = update_interface-Inv v obs named
    event_cases removed = remove_link-Inv v obs.ifname

-- The MAC address of a link that was just seen is local.
pub present_is_local :
    {t : LocalStateTracker}
    → Inv t
    → (obs : LinkObservation) → obs.event ≡ present
    → is_empty obs.ifname ≡ false
    → is_empty obs.mac ≡ false
    → is_local_mac (on_link_observation t obs).0 obs.mac ≡ true
unfolding on_link_observation is_local_mac update_interface
present_is_local {t} v obs there named some_mac =
    let v' = update_interface-Inv v obs named in
    ground (
      arith,
      v'.mac_counts.owned obs.mac,
      owned_entry v obs.ifname obs.mac some_mac,
      replaced v (has_mac obs.mac) (ground arith) obs.ifname
          (updated_entry (interface_or_new t obs.ifname) obs),
    )
