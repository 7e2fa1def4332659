-- ===== src/Service/Supervision/Reassertion.antt =====
-- How often the observer is reconnected, and its neighbours reasserted.
use rmc_fabric.Base.{ℕ, ◌+◌, ◌-◌, ◌*◌, ◌≤◌, ◌<◌, ◌≡◌, false, [], arith}
use rmc_fabric.Service.Supervision.{
  LldpObserver, Supervision, derive_reassert_interval, reconnect_lldp,
}

-- If the age limit of a candidate is above 10 seconds, then the reassertion interval is below it,
-- and between 10 and 300 seconds.
pub derive_reassert_interval-bounds :
    (ageout : ℕ)
    → 10 < ageout
    → (10 * 1000000000 ≤ derive_reassert_interval ageout)
      × (derive_reassert_interval ageout ≤ 300 * 1000000000)
      × (derive_reassert_interval ageout < ageout * 1000000000)
unfolding derive_reassert_interval
derive_reassert_interval-bounds ageout h = (ground arith, ground arith, ground arith)

module _ {O : Type 0} ⦃l : LldpObserver O⦄ where
  -- After a reconnect that was tried, any call less than 30 seconds later is turned away: it tries
  -- nothing and changes nothing, so that it counts no failure.
  pub reconnect_lldp-reconnect_lldp :
      (s : Supervision O) (o o' : O) (now later : ℕ)
      → 30000000000 ≤ now - s.last_reconnect
      → later < now + 30000000000
      → reconnect_lldp (reconnect_lldp s o now).0 o' later ≡ ((reconnect_lldp s o now).0, false, [])
  unfolding reconnect_lldp
  reconnect_lldp-reconnect_lldp s o o' now later h soon = ground arith
