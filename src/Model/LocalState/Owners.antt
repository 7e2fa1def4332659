-- ===== src/Model/LocalState/Owners.antt =====
-- LocalStateTracker's own claim, as an invariant: the counts of the MAC and IP addresses are the
-- numbers of interfaces and addresses that own them.
use rmc_fabric.Base.{
  not, ◌||◌, ℕ, ◌+◌, ◌-◌, ◌≡◌, refl, sym, inl, inr, Text, text_discrete, true, false, if◌then◌else◌,
  List, [], ◌∷◌, is_empty, Option-cases, Bool-cases, arith,
}
use rmc_fabric.Containers.Map
use rmc_fabric.Containers.Map.All.{All, lookup-All}
use rmc_fabric.Model.Types.{text_ordered, LocalInterfaceState, empty_interface}
use rmc_fabric.Model.LocalState.Refcounts.{
  Counts, Tracks, Tracks-eq, one_if, increment, decrement, increment-Tracks, decrement-Tracks,
  no_counts-Tracks,
}
use rmc_fabric.Model.LocalState.Weights.{total, weight_of, total-insert, count_ip, IsUnique}
use rmc_fabric.Model.LocalState.{
  LocalStateTracker, empty_tracker, increment_mac, decrement_mac, decrement_ips, interface_or_new,
  extract_ip_from_cidr,
}

-- 1 if the interface has the MAC address.
abbrev pub has_mac : Text → LocalInterfaceState → ℕ
has_mac mac iface = one_if iface.mac mac

-- How many interfaces have the MAC address; the empty one is nobody's.
abbrev pub mac_owners : List (Text × LocalInterfaceState) → Text → ℕ
mac_owners ifs mac = if is_empty mac then 0 else total (has_mac mac) ifs

abbrev pub has_ip : Text → LocalInterfaceState → ℕ
has_ip ip iface = count_ip ip iface.ipv4 + count_ip ip iface.ipv6

-- How many addresses of interfaces are the IP address.
abbrev pub ip_owners : List (Text × LocalInterfaceState) → Text → ℕ
ip_owners ifs ip = if is_empty ip then 0 else total (has_ip ip) ifs

-- An entry that no link observation has filled has no MAC address, and the sets have no repeats.
abbrev pub IsEntry : LocalInterfaceState → Type 0
IsEntry iface =
    ((not (is_empty iface.ifname) || is_empty iface.mac) ≡ true)
    × IsUnique iface.ipv4
    × IsUnique iface.ipv6

abbrev pub AllEntries : List (Text × LocalInterfaceState) → Type 0
AllEntries = All (λ _ iface. IsEntry iface)

-- The counts are the owners.
pub record Inv (t : LocalStateTracker) : Type 0 where
  pub distinct : Map.IsDistinct text_discrete t.interfaces
  pub entries : AllEntries t.interfaces
  pub mac_counts : Tracks t.macs (mac_owners t.interfaces)
  pub ip_counts : Tracks t.ips (ip_owners t.interfaces)

pub empty_tracker-Inv : Inv empty_tracker
unfolding empty_tracker
empty_tracker-Inv = record {
  distinct = tt;
  entries = tt;
  mac_counts = no_counts-Tracks _ (λ k. ground arith);
  ip_counts = no_counts-Tracks _ (λ k. ground arith);
}

pub unnamed_mac :
    (ifname mac : Text)
    → (not (is_empty ifname) || is_empty mac) ≡ true
    → is_empty ifname ≡ true
    → mac ≡ []
unnamed_mac [] [] h e = refl
unnamed_mac [] (c ∷ mac) h e = cc
unnamed_mac (c ∷ ifname) mac h e = cc

-- The entry that an observation finds or makes.
pub interface_or_new-IsEntry :
    {t : LocalStateTracker} (k : Text) → Inv t → IsEntry (interface_or_new t k)
interface_or_new-IsEntry {t} k v = elim (Option-cases (Map.lookup text_discrete k t.interfaces)) [
  | inl e ↦ rw (e, interface_or_new) (refl, tt, tt)
  | inr (iface, e) ↦
      rw (e, interface_or_new)
        (lookup-All (λ _ i. IsEntry i) text_discrete k t.interfaces v.entries e)
]

-- Away from the empty text, `f` with `g` taken off, or added.
abbrev pub less : (Text → ℕ) → (Text → ℕ) → Text → ℕ
less f g k = if is_empty k then 0 else f k - g k

abbrev pub plus : (Text → ℕ) → (Text → ℕ) → Text → ℕ
plus f g k = if is_empty k then 0 else f k + g k

module _ (f : Text → ℕ) (z : f [] ≡ 0) where
  less_at : (key k : Text) → f k - one_if key k ≡ less f (one_if key) k
  less_at key [] = omega (arith, z)
  less_at key (b ∷ k) = refl

  plus_at : (key k : Text) → is_empty key ≡ false → f k + one_if key k ≡ plus f (one_if key) k
  plus_at key [] h = ground (arith, z)
  plus_at key (b ∷ k) h = refl

  less_nil : (k : Text) → f k ≡ less f (one_if []) k
  less_nil [] = z
  less_nil (b ∷ k) = ground arith

  plus_nil : (k : Text) → f k ≡ plus f (one_if []) k
  plus_nil [] = z
  plus_nil (b ∷ k) = ground arith

  less_none : (k : Text) → f k ≡ less f (λ j. 0) k
  less_none [] = z
  less_none (b ∷ k) = omega arith

module _ {c : Counts} {f : Text → ℕ} (z : f [] ≡ 0) (t : Tracks c f) where
  pub decrement-less : (key : Text) → Tracks (decrement key c) (less f (one_if key))
  decrement-less key = Tracks-eq (decrement-Tracks key t) (less_at f z key)

  pub increment-plus :
      (key : Text) → is_empty key ≡ false → Tracks (increment key c) (plus f (one_if key))
  increment-plus key ne = Tracks-eq (increment-Tracks key t) (λ k. plus_at f z key k ne)

  pub decrement_mac-Tracks : (mac : Text) → Tracks (decrement_mac mac c) (less f (one_if mac))
  unfolding decrement_mac
  decrement_mac-Tracks [] = Tracks-eq t (less_nil f z)
  decrement_mac-Tracks (b ∷ mac) = decrement-less (b ∷ mac)

  pub increment_mac-Tracks : (mac : Text) → Tracks (increment_mac mac c) (plus f (one_if mac))
  unfolding increment_mac
  increment_mac-Tracks [] = Tracks-eq t (plus_nil f z)
  increment_mac-Tracks (b ∷ mac) = increment-plus (b ∷ mac) refl

skip_ip :
    (f : Text → ℕ) (cidr : Text) (cidrs : List Text) (k : Text)
    → is_empty (extract_ip_from_cidr cidr) ≡ true
    → less f (λ j. count_ip j cidrs) k ≡ less f (λ j. count_ip j (cidr ∷ cidrs)) k
skip_ip f cidr cidrs [] h = refl
skip_ip f cidr cidrs (b ∷ k) h = ground arith

take_ip :
    (f : Text → ℕ) (cidr : Text) (cidrs : List Text) (k : Text)
    → less (less f (one_if (extract_ip_from_cidr cidr))) (λ j. count_ip j cidrs) k
      ≡ less f (λ j. count_ip j (cidr ∷ cidrs)) k
take_ip f cidr cidrs [] = refl
take_ip f cidr cidrs (b ∷ k) = omega arith

pub decrement_ips-Tracks :
    (cidrs : List Text) {c : Counts} {f : Text → ℕ}
    → f [] ≡ 0
    → Tracks c f
    → Tracks (decrement_ips cidrs c) (less f (λ k. count_ip k cidrs))
unfolding decrement_ips
decrement_ips-Tracks [] {f = f} z t = Tracks-eq t (less_none f z)
decrement_ips-Tracks (cidr ∷ cidrs) {f = f} z t =
    elim (Bool-cases (is_empty (extract_ip_from_cidr cidr))) [
      | inl e ↦ rw e (Tracks-eq (decrement_ips-Tracks cidrs z t) (λ k. skip_ip f cidr cidrs k e))
      | inr e ↦ rw e (
          Tracks-eq (decrement_ips-Tracks cidrs refl (decrement-less z t _)) (take_ip f cidr cidrs))
    ]

module _ {t : LocalStateTracker} (v : Inv t) where
  module _ (w : LocalInterfaceState → ℕ) (z : w empty_interface ≡ 0) (ifname : Text) where
    old_weight :
        weight_of w (Map.lookup text_discrete ifname t.interfaces) ≡ w (interface_or_new t ifname)
    old_weight = elim (Option-cases (Map.lookup text_discrete ifname t.interfaces)) [
      | inl e ↦ rw (e, interface_or_new) (sym z)
      | inr (iface, e) ↦ rw (e, interface_or_new) refl
    ]

    pub replaced :
        (iface : LocalInterfaceState)
        → total w (Map.insert text_discrete ifname iface t.interfaces)
            + w (interface_or_new t ifname)
          ≡ total w t.interfaces + w iface
    replaced iface = rw (← old_weight) (total-insert w ifname iface t.interfaces)
