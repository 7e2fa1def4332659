-- ===== src/Service/Supervision/Escalation.antt =====
-- A watch that stays dead is replaced.
use rmc_fabric.Base.{
  ℕ, ◌+◌, ◌-◌, ◌≤◌, ◌<◌, ◌≡◌, refl, ap, ◌∙◌, true, false, List, [], ◌∷◌, Option, none, some, ltb,
  arith,
}
use rmc_fabric.Transports.Codec.Checks.{length}
use rmc_fabric.Service.Supervision.{
  LldpObserver, Supervision, reconnect_lldp, running_observer, supervise_observer, acquired, retry,
  give_up, repair, supervise_lldp,
}

-- Each time comes at least the retry interval after the one before.
abbrev pub AreSpaced : ℕ → List ℕ → Type 0
AreSpaced last [] = Unit
AreSpaced last (now ∷ times) = (last + 30000000000 ≤ now) × AreSpaced now times

abbrev pub last_time : ℕ → List ℕ → ℕ
last_time now [] = now
last_time now (t ∷ times) = last_time t times

module _ {O : Type 0} ⦃l : LldpObserver O⦄ where
  unfoldable pub supervise_all : List ℕ → Supervision O → Supervision O
  supervise_all [] s = s
  supervise_all (now ∷ times) s = supervise_all times (supervise_lldp now s).0

  -- An observer that runs, with a dead watch that no reconnect revives.
  pub record IsBroken (o : O) : Type 0 where
    pub running : (now : ℕ) → l.is_running now o ≡ true
    pub dead : (now : ℕ) → l.is_watch_alive now o ≡ false
    pub kept : (now : ℕ) → (l.refresh_all now o).0 ≡ o
    pub refused : (now : ℕ) → (l.refresh_all now o).1 ≡ false

  failed_once :
      (s : Supervision O) (o : O) (now : ℕ)
      → s.observer ≡ some o
      → IsBroken o
      → s.last_reconnect + 30000000000 ≤ now
      → s.reconnect_failures < 5
      → reconnect_lldp s o now ≡ (
        record s {
          observer = some o;
          last_reconnect = now;
          reconnect_failures = s.reconnect_failures + 1;
        },
        false,
        (l.refresh_all now o).2,
      )
  unfolding reconnect_lldp
  failed_once s o now e broken late few = rw (broken.kept now, broken.refused now) (ground arith)

  abbrev noted : Supervision O → O → ℕ → Supervision O
  noted s o now = record s {
    observer = some o;
    last_reconnect = now;
    reconnect_failures = s.reconnect_failures + 1;
  }

  -- The tick repairs a broken observer.
  supervise_lldp-repair :
      (s : Supervision O) (o : O) (now : ℕ)
      → s.observer ≡ some o
      → IsBroken o
      → supervise_lldp now s ≡ repair now s o
  unfolding supervise_lldp
  supervise_lldp-repair s o now e broken =
      let found : running_observer now s.observer ≡ some o = rw (e, broken.running now) refl in
      ap (supervise_observer now s) found ∙ rw (broken.dead now) refl

  supervise_lldp_fails :
      (s : Supervision O) (o : O) (now : ℕ)
      → s.observer ≡ some o
      → IsBroken o
      → s.last_reconnect + 30000000000 ≤ now
      → s.reconnect_failures + 1 < 5
      → supervise_lldp now s ≡ (noted s o now, (l.refresh_all now o).2)
  unfolding supervise_lldp repair
  supervise_lldp_fails s o now e broken late few =
      let small : ltb (s.reconnect_failures + 1) 5 ≡ true = ground arith in
      rw
        (
          supervise_lldp-repair s o now e broken,
          repair,
          failed_once s o now e broken late (omega arith),
          small,
        )
        refl

  observer-acquired :
      (now : ℕ) (s : Supervision O) (o : Option O)
      → s.observer ≡ none
      → (acquired now s o).observer ≡ o
  observer-acquired now s none e = e
  observer-acquired now s (some o) e = refl

  supervise_lldp_escalates :
      (s : Supervision O) (o : O) (now : ℕ)
      → s.observer ≡ some o
      → IsBroken o
      → s.last_reconnect + 30000000000 ≤ now
      → s.reconnect_failures ≡ 4
      → (supervise_lldp now s).0.observer ≡ (l.acquire now).0
  unfolding supervise_lldp repair retry give_up
  supervise_lldp_escalates s o now e broken late few =
      let large : ltb (s.reconnect_failures + 1) 5 ≡ false = ground arith in
      let old : ltb (now - 0) 30000000000 ≡ false = ground arith in
      rw
        (
          supervise_lldp-repair s o now e broken,
          repair,
          failed_once s o now e broken late (omega arith),
          large,
          old,
        )
        (observer-acquired now (give_up (noted s o now)) (l.acquire now).0 refl)

  -- If the observer runs, but its watch is dead and no reconnect revives it, then the tick that
  -- brings the failures in a row to five, at times at least 30 seconds apart, puts in its place
  -- what is acquired then.
  pub supervise_all-acquire :
      (times : List ℕ) (now : ℕ) (s : Supervision O) (o : O)
      → s.observer ≡ some o
      → IsBroken o
      → AreSpaced s.last_reconnect (now ∷ times)
      → s.reconnect_failures + length times ≡ 4
      → (supervise_all (now ∷ times) s).observer ≡ (l.acquire (last_time now times)).0
  unfolding supervise_all
  supervise_all-acquire [] now s o e broken spaced count =
      supervise_lldp_escalates s o now e broken spaced.0 (omega arith)
  supervise_all-acquire (t ∷ times) now s o e broken spaced count =
      rw (supervise_all, supervise_lldp_fails s o now e broken spaced.0 (omega arith))
        (supervise_all-acquire times t (noted s o now) o refl broken spaced.1 (omega arith))
