-- ===== src/Lldp/Watch/Dispatch.antt =====
-- At most one watch dispatches, and it is the installed one.
use rmc_fabric.Base.{
  ℕ, suc, ◌<◌, ◌==◌, ◌≡◌, refl, ap, ◌∙◌, Bool, true, false, not, ◌&&◌, List, [], ◌∷◌, ◌++◌, Option,
  none, some, is_some, if◌then◌else◌, arith, Bool-cases, inl, inr,
}
use rmc_fabric.Lldp.Watch.{
  Watch, Effect, attached, destroyed, swapped, Supervisor, new_supervisor, reset, attach, install,
  start, refresh, stop, on_exit,
}

-- The calls, with what the surroundings decide.
pub data Call : Type 0 where
  started : Bool → Bool → Call
  refreshed : Bool → Bool → Call
  halted : Bool → Call
  exited : Call

unfoldable pub step : Supervisor → Call → Supervisor × List Effect × Bool
step s (started builds callback) = start s builds callback
step s (refreshed builds callback) = refresh s builds callback
step s (halted locked) = stop s locked
step s exited = on_exit s

-- The watches that can call back, from what became of them.
abbrev pub without : ℕ → List ℕ → List ℕ
without n [] = []
without n (m ∷ ms) = let rest = without n ms in if m == n then rest else m ∷ rest

abbrev pub dispatching : List Effect → List ℕ → List ℕ
dispatching [] live = live
dispatching (attached n ∷ log) live = dispatching log (n ∷ live)
dispatching (destroyed n ∷ log) live = dispatching log (without n live)
dispatching (swapped ∷ log) live = dispatching log live

-- The one that should.
abbrev pub installed : Option Watch → List ℕ
installed none = []
installed (some w) = if w.has_callback then w.number ∷ [] else []

unfoldable pub run : Supervisor → List Call → Supervisor × List Effect
run s [] = (s, [])
run s (call ∷ calls) =
    let (s', effects, result) = step s call in
    let (s'', rest) = run s' calls in (s'', effects ++ rest)

abbrev IsBelow : ℕ → Option Watch → Type 0
IsBelow n none = Unit
IsBelow n (some w) = w.number < n

record Inv (s : Supervisor) : Type 0 where
  old : IsBelow s.built s.watch
  idle : s.stopped ≡ true → s.watch ≡ none

-- What a step does to the watches that dispatch.
record Keeps (s : Supervisor) (r : Supervisor × List Effect × Bool) : Type 0 where
  inv : Inv r.0
  same : dispatching r.1 (installed s.watch) ≡ installed r.0.watch

dispatching-append :
    (log rest : List Effect) (live : List ℕ)
    → dispatching (log ++ rest) live ≡ dispatching rest (dispatching log live)
dispatching-append [] rest live = refl
dispatching-append (attached n ∷ log) rest live = dispatching-append log rest (n ∷ live)
dispatching-append (destroyed n ∷ log) rest live = dispatching-append log rest (without n live)
dispatching-append (swapped ∷ log) rest live = dispatching-append log rest live

reset_all : (w : Option Watch) → dispatching (reset w) (installed w) ≡ []
reset_all none = refl
reset_all (some w) = ground arith

attach_all :
    (callback : Bool) (n : ℕ)
    → dispatching (attach callback n) []
      ≡ installed (some (record { number = n; has_callback = callback }))
attach_all true n = refl
attach_all false n = refl

without_fresh : (n : ℕ) (w : Option Watch) → IsBelow n w → without n (installed w) ≡ installed w
without_fresh n none h = refl
without_fresh n (some w) h = ground arith

IsBelow-suc : (n : ℕ) (w : Option Watch) → IsBelow n w → IsBelow (suc n) w
IsBelow-suc n none h = tt
IsBelow-suc n (some w) h = omega arith

-- A stopped supervisor has no watch.
abbrev pub is_idle : Supervisor → Bool
is_idle s = not (s.stopped && is_some s.watch)

idle_when_stopped : (s : Supervisor) → Inv s → is_idle s ≡ true
idle_when_stopped s v = elim (Bool-cases s.stopped) [
  | inl down ↦ rw (v.idle down, down) refl
  | inr going ↦ rw going refl
]

-- A built watch that is not installed changes nothing.
dropped-Keeps :
    (s : Supervisor)
    → Inv s
    → Keeps s (record s { built = suc s.built }, destroyed s.built ∷ [], false)
dropped-Keeps s v = record {
  inv = record { old = IsBelow-suc s.built s.watch v.old; idle = v.idle };
  same = without_fresh s.built s.watch v.old;
}

same-Keeps : (s : Supervisor) (result : Bool) → Inv s → Keeps s (s, [], result)
same-Keeps s result v = record { inv = v; same = refl }

installed_next :
    (s : Supervisor) (callback : Bool)
    → dispatching (reset s.watch ++ attach callback s.built) (installed s.watch)
      ≡ installed (install s callback).watch
installed_next s callback =
    dispatching-append (reset s.watch) (attach callback s.built) (installed s.watch)
    ∙ ap (dispatching (attach callback s.built)) (reset_all s.watch)
    ∙ attach_all callback s.built

swapped_next :
    (s : Supervisor) (callback : Bool)
    → dispatching (reset s.watch ++ (swapped ∷ attach callback s.built)) (installed s.watch)
      ≡ installed (install s callback).watch
swapped_next s callback =
    dispatching-append (reset s.watch) (swapped ∷ attach callback s.built) (installed s.watch)
    ∙ ap (dispatching (attach callback s.built)) (reset_all s.watch)
    ∙ attach_all callback s.built

Keeps-if :
    {s : Supervisor} (b : Bool) {x y : Supervisor × List Effect × Bool}
    → (b ≡ true → Keeps s x)
    → (b ≡ false → Keeps s y)
    → Keeps s (if b then x else y)
Keeps-if true hx hy = hx refl
Keeps-if false hx hy = hy refl

start-Keeps : (s : Supervisor) (builds callback : Bool) → Inv s → Keeps s (start s builds callback)
unfolding start
start-Keeps s false callback v = same-Keeps s false v
start-Keeps s true callback v =
    Keeps-if (is_some s.watch && not s.watch_died) (λ busy. dropped-Keeps s v)
      (λ free. record {
        inv = record { old = omega arith; idle = λ e. cc };
        same = installed_next s callback;
      })

refresh-Keeps :
    (s : Supervisor) (builds callback : Bool) → Inv s → Keeps s (refresh s builds callback)
unfolding refresh
refresh-Keeps s false callback v = same-Keeps s false v
refresh-Keeps s true callback v =
    Keeps-if s.stopped (λ down. dropped-Keeps s v)
      (λ going. record {
        inv = record { old = omega arith; idle = λ e. cc };
        same = swapped_next s callback;
      })

stop-Keeps : (s : Supervisor) (locked : Bool) → Inv s → Keeps s (stop s locked)
unfolding stop
stop-Keeps s false v = same-Keeps s false v
stop-Keeps s true v = record {
  inv = record { old = tt; idle = λ e. refl };
  same = reset_all s.watch;
}

step-Keeps : (s : Supervisor) (call : Call) → Inv s → Keeps s (step s call)
unfolding step on_exit
step-Keeps s (started builds callback) v = start-Keeps s builds callback v
step-Keeps s (refreshed builds callback) v = refresh-Keeps s builds callback v
step-Keeps s (halted locked) v = stop-Keeps s locked v
step-Keeps s exited v = record { inv = record { old = v.old; idle = v.idle }; same = refl }

run-installed :
    (calls : List Call) (s : Supervisor)
    → Inv s
    → (dispatching (run s calls).1 (installed s.watch) ≡ installed (run s calls).0.watch)
      × Inv (run s calls).0
unfolding run
run-installed [] s v = (refl, v)
run-installed (call ∷ calls) s v =
    let r = step s call in
    let k = step-Keeps s call v in
    let (rest, inv) = run-installed calls r.0 k.inv in
    (
      dispatching-append r.1 (run r.0 calls).1 (installed s.watch)
          ∙ ap (dispatching (run r.0 calls).1) k.same
          ∙ rest,
      inv,
    )

-- From a new supervisor, after any calls: of the watches whose callback was set, those that are not
-- destroyed are the installed one alone, or none if it has no callback or there is none; and while
-- the supervisor is stopped there is none.
pub dispatching-run :
    (calls : List Call)
    → (dispatching (run new_supervisor calls).1 [] ≡ installed (run new_supervisor calls).0.watch)
      × (is_idle (run new_supervisor calls).0 ≡ true)
unfolding new_supervisor
dispatching-run calls =
    let start_inv : Inv new_supervisor = record { old = tt; idle = λ e. refl } in
    let (same, inv) = run-installed calls new_supervisor start_inv in
    (same, idle_when_stopped (run new_supervisor calls).0 inv)
