-- ===== src/Model/Events/Client.antt =====
-- A client of the event sink that remembers, for each MAC address, what it last heard of it.
use rmc_fabric.Base.{
  ℕ, ◌≡◌, refl, Text, text_discrete, Bool, true, false, if◌then◌else◌, ite, List, [], ◌∷◌, ◌++◌,
  Option, some, arith,
}
use rmc_fabric.Containers.Set
use rmc_fabric.Model.Types.{
  text_ordered, ModelEvent, ModelEventKind, candidate_updated, candidate_removed,
}
use rmc_fabric.Model.Events.{PendingEvents, events_of, deliver_pending}

-- Whether the client holds the address for visible after one more event.
abbrev pub hear : Text → ModelEventKind → Option Text → Bool → Bool
hear mac candidate_updated (some k) seen = ite (text_discrete k mac) true seen
hear mac candidate_removed (some k) seen = ite (text_discrete k mac) false seen
hear mac _ _ seen = seen

unfoldable pub hear_all : Text → List ModelEvent → Bool → Bool
hear_all mac [] seen = seen
hear_all mac (ev ∷ evs) seen = hear_all mac evs (hear mac ev.kind ev.mac seen)

pub hear_all-append :
    (mac : Text) (xs ys : List ModelEvent) (seen : Bool)
    → hear_all mac (xs ++ ys) seen ≡ hear_all mac ys (hear_all mac xs seen)
unfolding hear_all
hear_all-append mac [] ys seen = refl
hear_all-append mac (x ∷ xs) ys seen = hear_all-append mac xs ys (hear mac x.kind x.mac seen)

module _ (mac : Text) (now : ℕ) where
  hear_updated :
      (macs : List Text) (seen : Bool)
      → hear_all mac (events_of candidate_updated now macs) seen
        ≡ (if Set.contains mac macs then true else seen)
  unfolding hear_all Set.contains
  hear_updated [] seen = refl
  hear_updated (k ∷ macs) seen =
      ground (arith, hear_updated macs (ite (text_discrete k mac) true seen))

  hear_removed :
      (macs : List Text) (seen : Bool)
      → hear_all mac (events_of candidate_removed now macs) seen
        ≡ (if Set.contains mac macs then false else seen)
  unfolding hear_all Set.contains
  hear_removed [] seen = refl
  hear_removed (k ∷ macs) seen =
      ground (arith, hear_removed macs (ite (text_discrete k mac) false seen))

  -- A set sink passes all pending events on: the removed candidates come last.
  pub hear_all-deliver :
      (sink : Bool) (p : PendingEvents) (seen : Bool)
      → sink ≡ true
      → hear_all mac (deliver_pending sink now p) seen ≡ (
          if Set.contains mac p.removed
          then false
          else (if Set.contains mac p.changed then true else seen))
  unfolding deliver_pending
  hear_all-deliver true p seen h =
      rw (hear_all-append mac (events_of candidate_updated now p.changed))
        (rw (hear_updated p.changed seen) (hear_removed p.removed _))
  hear_all-deliver false p seen h = cc
