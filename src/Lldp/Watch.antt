-- ===== src/Lldp/Watch.antt =====
-- services/network-observation/inputs/lldp/lldpd/LldpWatchSupervisor.cpp. A watch is what its
-- constructor leaves and `setCallback` changes: the supervisor knows it by its place in the order of
-- construction. Each call is what it does under the lock, with whether the watch that it builds
-- before could be built; a log holds what happens to the watches.
pub mod Dispatch
use rmc_fabric.Base.{
  ℕ, suc, Bool, true, false, not, ◌&&◌, List, [], ◌∷◌, ◌++◌, Option, none, some, is_some,
  if◌then◌else◌,
}

-- BoundedLldpWatch, silent until it has a callback.
pub record Watch : Type 0 where
  pub number : ℕ
  pub has_callback : Bool

-- What becomes of a watch: its callback is set, or it is destroyed, which joins its thread.
pub data Effect : Type 0 where
  attached : ℕ → Effect
  destroyed : ℕ → Effect
  swapped : Effect

pub record Supervisor : Type 0 where
  pub watch : Option Watch
  pub stopped : Bool
  pub watch_died : Bool
  -- How many watches were built.
  pub built : ℕ

unfoldable pub new_supervisor : Supervisor
new_supervisor = record { watch = none; stopped = true; watch_died = false; built = 0 }

-- `watch_.reset()`
abbrev pub reset : Option Watch → List Effect
reset none = []
reset (some w) = destroyed w.number ∷ []

-- `if (makeCallback) fresh->setCallback(makeCallback());`
abbrev pub attach : Bool → ℕ → List Effect
attach callback number = if callback then attached number ∷ [] else []

abbrev pub Outcome : Type 0
Outcome = Supervisor × List Effect × Bool

-- The fresh watch takes the place of the old one.
abbrev pub install : Supervisor → Bool → Supervisor
install s callback = record {
  watch = some (record { number = s.built; has_callback = callback });
  stopped = false;
  watch_died = false;
  built = suc s.built;
}

unfoldable pub start : Supervisor → Bool → Bool → Outcome
start s builds callback =
    if not builds
    then (s, [], false)
    else (if is_some s.watch && not s.watch_died
        then (record s { built = suc s.built }, destroyed s.built ∷ [], false)
        else (install s callback, reset s.watch ++ attach callback s.built, true))

unfoldable pub refresh : Supervisor → Bool → Bool → Outcome
refresh s builds callback =
    if not builds
    then (s, [], false)
    else (if s.stopped then (record s { built = suc s.built }, destroyed s.built ∷ [], false) else (
      record (install s callback) { stopped = s.stopped },
      reset s.watch ++ (swapped ∷ attach callback s.built),
      true,
    ))

-- `stop`, with whether it got the lock in time.
unfoldable pub stop : Supervisor → Bool → Outcome
stop s locked =
    if not locked
    then (s, [], false)
    else (record s { watch = none; stopped = true }, reset s.watch, true)

-- The exit handler, of the watch that is installed.
unfoldable pub on_exit : Supervisor → Outcome
on_exit s = (record s { watch_died = true }, [], true)

unfoldable pub is_watch_alive : Supervisor → Bool
is_watch_alive s = not s.watch_died && (is_some s.watch && not s.stopped)
