-- ===== src/Model/Events.antt =====
-- PendingEvents and deliverPending of ObservationModelEngine.cpp: the candidate events that a
-- handler collects under the lock and delivers after it.
pub mod Client
use rmc_fabric.Base.{
  ℕ, ◌≡◌, refl, Text, text_discrete, Bool, true, false, ◌||◌, if◌then◌else◌, ite, List, [], ◌∷◌,
  ◌++◌, Option, none, some, Bool-cases, arith,
}
use rmc_fabric.Containers.Set
use rmc_fabric.Model.Types.{
  text_ordered, ModelEvent, ModelEventKind, candidate_updated, candidate_removed,
}

pub record PendingEvents : Type 0 where
  pub changed : List Text
  pub removed : List Text

abbrev pub no_events : PendingEvents
no_events = record { changed = []; removed = [] }

unfoldable pub record_event : Text → Bool → Bool → PendingEvents → PendingEvents
record_event mac was_publishable now_publishable p =
    if now_publishable
    then record p { changed = Set.insert mac p.changed }
    else (if was_publishable then record p { removed = Set.insert mac p.removed } else p)

unfoldable pub record_erased : Text → Bool → PendingEvents → PendingEvents
record_erased mac was_publishable p =
    if was_publishable then record p { removed = Set.insert mac p.removed } else p

abbrev pub candidate_event : ModelEventKind → ℕ → Text → ModelEvent
candidate_event kind now mac = record {
  kind = kind;
  timestamp = now;
  ifname = none;
  mac = some mac;
}

abbrev pub events_of : ModelEventKind → ℕ → List Text → List ModelEvent
events_of kind now [] = []
events_of kind now (mac ∷ macs) = candidate_event kind now mac ∷ events_of kind now macs

-- What the sink receives; without a sink, nothing.
unfoldable pub deliver_pending : Bool → ℕ → PendingEvents → List ModelEvent
deliver_pending sink now p =
    if sink
    then events_of candidate_updated now p.changed ++ events_of candidate_removed now p.removed
    else []
