-- ===== src/Model/LocalState/Addresses.antt =====
-- LocalStateTracker::onAddressObservation keeps the counts right.
use rmc_fabric.Base.{
  ℕ, ◌+◌, ◌≡◌, refl, inl, inr, Text, text_discrete, Bool, true, false, List, [], ◌∷◌, is_empty,
  Bool-cases, arith,
}
use rmc_fabric.Containers.Set
use rmc_fabric.Containers.Map
use rmc_fabric.Containers.Map.All.{insert-All}
use rmc_fabric.Model.Types.{
  text_ordered, ObservationEvent, LocalInterfaceState, AddressObservation, present, removed,
}
use rmc_fabric.Model.LocalState.Refcounts.{Counts, Tracks, Tracks-eq, one_if}
use rmc_fabric.Model.LocalState.Weights.{
  count_ip-insert, count_ip-erase, insert-IsUnique, erase-IsUnique,
}
use rmc_fabric.Model.LocalState.{
  LocalStateTracker, interface_or_new, on_address_observation, put_interface, is_inet, add_address,
  remove_address, extract_ip_from_cidr, cidrs_of, with_cidrs,
}
use rmc_fabric.Model.LocalState.Owners.{
  has_mac, mac_owners, has_ip, ip_owners, IsEntry, Inv, interface_or_new-IsEntry, less, plus,
  decrement-less, increment-plus, replaced,
}

module _ {t : LocalStateTracker} (v : Inv t) (ifname : Text) where
  put_mac_at :
      (iface : LocalInterfaceState) (k : Text)
      → iface.mac ≡ (interface_or_new t ifname).mac
      → mac_owners t.interfaces k
        ≡ mac_owners (Map.insert text_discrete ifname iface t.interfaces) k
  put_mac_at iface [] e = refl
  put_mac_at iface (b ∷ k) e =
      ground (arith, replaced v (has_mac (b ∷ k)) (ground arith) ifname iface)

  -- An entry put in place of the one that was found, with the counts of the IP addresses to fit.
  put_interface-Inv :
      (iface : LocalInterfaceState) {ips : Counts} {f : Text → ℕ}
      → IsEntry iface
      → iface.mac ≡ (interface_or_new t ifname).mac
      → Tracks ips f
      → ((k : Text) → f k ≡ ip_owners (Map.insert text_discrete ifname iface t.interfaces) k)
      → Inv (put_interface t ifname iface ips)
  put_interface-Inv iface entry e ips at = record {
    distinct = Map.insert-IsDistinct text_discrete ifname iface t.interfaces v.distinct;
    entries = insert-All (λ _ i. IsEntry i) text_discrete ifname iface t.interfaces entry v.entries;
    mac_counts = Tracks-eq v.mac_counts (λ k. put_mac_at iface k e);
    ip_counts = Tracks-eq ips at;
  }

  same_ip_at :
      (k : Text)
      → ip_owners t.interfaces k
        ≡ ip_owners (Map.insert text_discrete ifname (interface_or_new t ifname) t.interfaces) k
  same_ip_at [] = refl
  same_ip_at (b ∷ k) =
      omega (arith, replaced v (has_ip (b ∷ k)) refl ifname (interface_or_new t ifname))

  -- An address that changes nothing else still leaves an entry for its interface.
  put_same-Inv : Inv (put_interface t ifname (interface_or_new t ifname) t.ips)
  put_same-Inv =
      put_interface-Inv (interface_or_new t ifname) (interface_or_new-IsEntry ifname v) refl
        v.ip_counts same_ip_at

module _ (iface : LocalInterfaceState) (cidr : Text) where
  has_ip-insert :
      (inet : Bool) (k : Text)
      → Set.contains cidr (cidrs_of inet iface) ≡ false
      → has_ip k iface + one_if (extract_ip_from_cidr cidr) k
        ≡ has_ip k (with_cidrs inet iface (Set.insert cidr (cidrs_of inet iface)))
  has_ip-insert true k new = omega (arith, count_ip-insert cidr k iface.ipv4 new)
  has_ip-insert false k new = omega (arith, count_ip-insert cidr k iface.ipv6 new)

  has_ip-erase :
      (inet : Bool) (k : Text)
      → IsEntry iface
      → Set.contains cidr (cidrs_of inet iface) ≡ true
      → has_ip k (with_cidrs inet iface (Set.erase cidr (cidrs_of inet iface)))
          + one_if (extract_ip_from_cidr cidr) k
        ≡ has_ip k iface
  has_ip-erase true k entry old = omega (arith, count_ip-erase cidr k iface.ipv4 entry.1 old)
  has_ip-erase false k entry old = omega (arith, count_ip-erase cidr k iface.ipv6 entry.2 old)

  insert-IsEntry :
      (inet : Bool)
      → Set.contains cidr (cidrs_of inet iface) ≡ false
      → IsEntry iface
      → IsEntry (with_cidrs inet iface (Set.insert cidr (cidrs_of inet iface)))
  insert-IsEntry true new entry = (entry.0, insert-IsUnique cidr iface.ipv4 new entry.1, entry.2)
  insert-IsEntry false new entry = (entry.0, entry.1, insert-IsUnique cidr iface.ipv6 new entry.2)

  erase-IsEntry :
      (inet : Bool)
      → IsEntry iface
      → IsEntry (with_cidrs inet iface (Set.erase cidr (cidrs_of inet iface)))
  erase-IsEntry true entry = (entry.0, erase-IsUnique cidr iface.ipv4 entry.1, entry.2)
  erase-IsEntry false entry = (entry.0, entry.1, erase-IsUnique cidr iface.ipv6 entry.2)

  same_mac : (inet : Bool) (cidrs : List Text) → (with_cidrs inet iface cidrs).mac ≡ iface.mac
  same_mac true cidrs = refl
  same_mac false cidrs = refl

module _ {t : LocalStateTracker} (v : Inv t) (ifname cidr : Text) (inet : Bool) where
  entry : IsEntry (interface_or_new t ifname)
  entry = interface_or_new-IsEntry ifname v

  module _ (known : Set.contains cidr (cidrs_of inet (interface_or_new t ifname)) ≡ false) where
    added_at :
        (k : Text)
        → plus (ip_owners t.interfaces) (one_if (extract_ip_from_cidr cidr)) k
          ≡ ip_owners
              (Map.insert text_discrete ifname
                (with_cidrs inet
                  (interface_or_new t ifname)
                  (Set.insert cidr (cidrs_of inet (interface_or_new t ifname))))
                t.interfaces)
              k
    added_at [] = refl
    added_at (b ∷ k) = omega (
      arith,
      has_ip-insert (interface_or_new t ifname) cidr inet (b ∷ k) known,
      replaced v (has_ip (b ∷ k)) refl ifname (
          with_cidrs inet (interface_or_new t ifname)
            (Set.insert cidr (cidrs_of inet (interface_or_new t ifname)))),
    )

  module _ (known : Set.contains cidr (cidrs_of inet (interface_or_new t ifname)) ≡ true) where
    removed_at :
        (k : Text)
        → less (ip_owners t.interfaces) (one_if (extract_ip_from_cidr cidr)) k
          ≡ ip_owners
              (Map.insert text_discrete ifname
                (with_cidrs inet
                  (interface_or_new t ifname)
                  (Set.erase cidr (cidrs_of inet (interface_or_new t ifname))))
                t.interfaces)
              k
    removed_at [] = refl
    removed_at (b ∷ k) = omega (
      arith,
      has_ip-erase (interface_or_new t ifname) cidr inet (b ∷ k) entry known,
      replaced v (has_ip (b ∷ k)) refl ifname (
          with_cidrs inet (interface_or_new t ifname)
            (Set.erase cidr (cidrs_of inet (interface_or_new t ifname)))),
    )

  pub add_address-Inv :
      is_empty (extract_ip_from_cidr cidr) ≡ false
      → Inv
          (add_address t ifname cidr inet (interface_or_new t ifname) (extract_ip_from_cidr cidr)).0
  unfolding add_address
  add_address-Inv ne =
      elim (Bool-cases (Set.contains cidr (cidrs_of inet (interface_or_new t ifname)))) [
        | inl e ↦ rw (add_address, e) (put_same-Inv v ifname)
        | inr e ↦
            rw (add_address, e)
              (put_interface-Inv v ifname _ (insert-IsEntry _ cidr inet e entry)
                (same_mac _ cidr inet _)
                (increment-plus refl v.ip_counts (extract_ip_from_cidr cidr) ne) (added_at e))
      ]

  pub remove_address-Inv :
      Inv
        (remove_address t ifname cidr inet
          (interface_or_new t ifname)
          (extract_ip_from_cidr cidr)).0
  unfolding remove_address
  remove_address-Inv =
      elim (Bool-cases (Set.contains cidr (cidrs_of inet (interface_or_new t ifname)))) [
        | inl e ↦
            rw (remove_address, e)
              (put_interface-Inv v ifname _ (erase-IsEntry _ cidr inet entry)
                (same_mac _ cidr inet _)
                (decrement-less refl v.ip_counts (extract_ip_from_cidr cidr)) (removed_at e))
        | inr e ↦ rw (remove_address, e) (put_same-Inv v ifname)
      ]

event_cases {ℓ} :
    (P : LocalStateTracker × Bool → Type ℓ) {a b : LocalStateTracker × Bool}
    → P a
    → P b
    → (event : ObservationEvent)
    → P (elim event as (λ _. LocalStateTracker × Bool) [ present ↦ a | removed ↦ b ])
event_cases P pa pb present = pa
event_cases P pa pb removed = pb

pub on_address_observation-Inv :
    {t : LocalStateTracker} (obs : AddressObservation)
    → Inv t
    → Inv (on_address_observation t obs).0
unfolding on_address_observation
on_address_observation-Inv {t} obs v =
    elim (Bool-cases (is_empty (extract_ip_from_cidr obs.cidr))) [
      | inl e ↦ rw e (put_same-Inv v obs.ifname)
      | inr e ↦ rw e (
          event_cases (λ r. Inv r.0) (add_address-Inv v obs.ifname obs.cidr (is_inet obs.family) e)
            (remove_address-Inv v obs.ifname obs.cidr (is_inet obs.family)) obs.event)
    ]
