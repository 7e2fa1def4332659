-- ===== src/Model/LocalState/Invariant.antt =====
-- What LocalStateTracker promises its clients, after any sequence of observations.
use rmc_fabric.Base.{◌≡◌, Text, false, ltb, List, [], ◌∷◌, is_empty, arith}
use rmc_fabric.Model.Types.{text_ordered, LinkObservation, AddressObservation}
use rmc_fabric.Model.LocalState.Weights.{total}
use rmc_fabric.Model.LocalState.Owners.{has_mac, has_ip, Inv, empty_tracker-Inv}
use rmc_fabric.Model.LocalState.Links.{on_link_observation-Inv}
use rmc_fabric.Model.LocalState.Addresses.{on_address_observation-Inv}
use rmc_fabric.Model.LocalState.{
  LocalStateTracker, empty_tracker, on_link_observation, on_address_observation, clear,
  is_local_mac, is_local_ip,
}

-- The calls that the tracker gets from the engine.
pub data Call : Type 0 where
  link : LinkObservation → Call
  address : AddressObservation → Call
  cleared : Call

-- Links have names.
abbrev pub IsNamed : List Call → Type 0
IsNamed [] = Unit
IsNamed (link obs ∷ calls) = (is_empty obs.ifname ≡ false) × IsNamed calls
IsNamed (address obs ∷ calls) = IsNamed calls
IsNamed (cleared ∷ calls) = IsNamed calls

unfoldable pub run : LocalStateTracker → List Call → LocalStateTracker
run t [] = t
run t (link obs ∷ calls) = run (on_link_observation t obs).0 calls
run t (address obs ∷ calls) = run (on_address_observation t obs).0 calls
run t (cleared ∷ calls) = run (clear t) calls

-- The invariant holds after any sequence of calls that keeps links named: the counts of MAC and IP
-- addresses are the numbers of their owners, and the two sets hold what is owned.
pub run-Inv :
    (calls : List Call) {t : LocalStateTracker} → IsNamed calls → Inv t → Inv (run t calls)
unfolding run clear
run-Inv [] n v = v
run-Inv (link obs ∷ calls) n v = run-Inv calls n.1 (on_link_observation-Inv obs n.0 v)
run-Inv (address obs ∷ calls) n v = run-Inv calls n (on_address_observation-Inv obs v)
run-Inv (cleared ∷ calls) n v = run-Inv calls n empty_tracker-Inv

-- From the empty tracker, after any sequence of calls that keeps links named: a MAC address that is
-- not empty is local exactly when some interface has it.
pub is_local_mac-run :
    (calls : List Call)
    → IsNamed calls
    → (mac : Text) → is_empty mac ≡ false
    → is_local_mac (run empty_tracker calls) mac
      ≡ ltb 0 (total (has_mac mac) (run empty_tracker calls).interfaces)
unfolding is_local_mac
is_local_mac-run calls n mac ne =
    let v = run-Inv calls n empty_tracker-Inv in ground (arith, v.mac_counts.owned mac)

-- From the empty tracker, after any sequence of calls that keeps links named: an IP address that is
-- not empty is local exactly when an address of some interface is it.
pub is_local_ip-run :
    (calls : List Call)
    → IsNamed calls
    → (ip : Text) → is_empty ip ≡ false
    → is_local_ip (run empty_tracker calls) ip
      ≡ ltb 0 (total (has_ip ip) (run empty_tracker calls).interfaces)
unfolding is_local_ip
is_local_ip-run calls n ip ne =
    let v = run-Inv calls n empty_tracker-Inv in ground (arith, v.ip_counts.owned ip)
