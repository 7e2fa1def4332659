-- ===== src/Service/Supervision.antt =====
-- The supervision of the LLDP observer, and the reassertion of its neighbours, in
-- services/network-observation/service/NetlinkLldpObservationRuntime.cpp. A time is a number of
-- nanoseconds of the steady clock; a difference of times stops at 0, where the code's is negative
-- and below every interval as well. What the observer does at a time is a parameter.
pub mod Escalation
pub mod Reassertion
use rmc_fabric.Base.{
  ℕ, ◌+◌, ◌-◌, ◌*◌, ◌/◌, ◌%◌, ◌^◌, Text, Bool, true, false, List, [], ◌++◌, Option, none, some,
  if◌then◌else◌, ltb,
}
use rmc_fabric.Model.Types.{LldpObservation}

-- `O` stands for LldpObserver. The answers may differ from one time to the next. A call that may
-- deliver observations downstream, before it returns, has them in its result.
pub record LldpObserver (O : Type 0) : Type 0 where
  pub is_running : ℕ → O → Bool
  pub is_watch_alive : ℕ → O → Bool
  pub is_backend_alive : ℕ → O → Bool
  pub refresh_all : ℕ → O → O × Bool × List LldpObservation
  pub reassert_all : ℕ → O → O × List LldpObservation
  pub on_interface_up : Text → O → O × List LldpObservation
  pub on_interface_down : Text → O → O × List LldpObservation
  -- `createLldpObserver()` and `start()`: the observer, where the latter succeeds.
  pub acquire : ℕ → Option O × List LldpObservation

abbrev pub seconds : ℕ → ℕ
seconds n = n * 1000000000

abbrev pub lldp_retry_interval : ℕ
lldp_retry_interval = seconds 30

abbrev pub lldp_probe_interval : ℕ
lldp_probe_interval = seconds 60

abbrev pub lldp_reconnect_failure_limit : ℕ
lldp_reconnect_failure_limit = 5

abbrev pub clamp : ℕ → ℕ → ℕ → ℕ
clamp n low high = if ltb n low then low else (if ltb high n then high else n)

-- The age limit is a number of seconds, halved as such.
unfoldable pub derive_reassert_interval : ℕ → ℕ
derive_reassert_interval candidate_ageout = seconds (clamp (candidate_ageout / 2) 10 300)

pub record Supervision (O : Type 0) : Type 0 where
  pub observer : Option O
  pub last_probe : ℕ
  pub last_attempt : ℕ
  pub last_reconnect : ℕ
  pub last_reassert : ℕ
  pub reconnect_failures : ℕ
  pub retry_count : ℕ

module _ {O : Type 0} ⦃l : LldpObserver O⦄ where
  -- The observer is the one that is stored.
  unfoldable pub reconnect_lldp :
      Supervision O → O → ℕ → Supervision O × Bool × List LldpObservation
  reconnect_lldp s o now =
      let (o', refreshed, heard) = l.refresh_all now o in
      if ltb (now - s.last_reconnect) lldp_retry_interval then (s, false, []) else (
        record s {
          observer = some o';
          last_reconnect = now;
          reconnect_failures = if refreshed then 0 else (s.reconnect_failures + 1) % 2 ^ 32;
        },
        refreshed,
        heard,
      )

  abbrev pub acquired : ℕ → Supervision O → Option O → Supervision O
  acquired now s none = record s { last_attempt = now; retry_count = (s.retry_count + 1) % 2 ^ 32 }
  acquired now s (some o) = record s {
    observer = some o;
    last_attempt = now;
    retry_count = 0;
    reconnect_failures = 0;
    last_reconnect = 0;
  }

  -- No observer: the throttled retry.
  unfoldable pub retry : ℕ → Supervision O → Supervision O × List LldpObservation
  retry now s =
      let (o, heard) = l.acquire now in
      if ltb (now - s.last_attempt) lldp_retry_interval then (s, []) else (acquired now s o, heard)

  -- In-place repair has not worked.
  unfoldable pub give_up : Supervision O → Supervision O
  give_up s = record s {
    observer = none;
    reconnect_failures = 0;
    last_reconnect = 0;
    last_attempt = 0;
  }

  unfoldable pub probe : ℕ → Supervision O → O → Supervision O × List LldpObservation
  probe now s o =
      let (s', repaired, heard) = reconnect_lldp (record s { last_probe = now }) o now in
      if ltb (now - s.last_probe) lldp_probe_interval
      then (s, [])
      else (if l.is_backend_alive now o then (record s { last_probe = now }, []) else (s', heard))

  unfoldable pub repair : ℕ → Supervision O → O → Supervision O × List LldpObservation
  repair now s o =
      let (s', repaired, heard) = reconnect_lldp s o now in
      let (s'', more) = retry now (give_up s') in
      if repaired
      then (s', heard)
      else (if ltb s'.reconnect_failures lldp_reconnect_failure_limit
          then (s', heard)
          else (s'', heard ++ more))

  abbrev pub running_observer : ℕ → Option O → Option O
  running_observer now none = none
  running_observer now (some o) = if l.is_running now o then some o else none

  abbrev pub supervise_observer :
      ℕ → Supervision O → Option O → Supervision O × List LldpObservation
  supervise_observer now s none = retry now (record s { observer = none })
  supervise_observer now s (some o) =
      if l.is_watch_alive now o then probe now s o else repair now s o

  unfoldable pub supervise_lldp : ℕ → Supervision O → Supervision O × List LldpObservation
  supervise_lldp now s = supervise_observer now s (running_observer now s.observer)

  abbrev pub reassert_observer :
      ℕ → ℕ → Supervision O → Option O → Supervision O × List LldpObservation
  reassert_observer interval now s none = (s, [])
  reassert_observer interval now s (some o) =
      let (o', heard) = l.reassert_all now o in
      if ltb (now - s.last_reassert) interval
      then (s, [])
      else (record s { observer = some o'; last_reassert = now }, heard)

  unfoldable pub reassert_lldp_neighbors :
      ℕ → ℕ → Supervision O → Supervision O × List LldpObservation
  reassert_lldp_neighbors interval now s =
      reassert_observer interval now s (running_observer now s.observer)
