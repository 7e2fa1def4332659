-- ===== src/Service/Publication.antt =====
-- services/network-observation/service/PublicationQueue.h and the event path of
-- ObservationService.cpp: from the events of the model to the calls of the transports. The storage,
-- `thread_safe::dirty_set`, is not part of the repository: it is a parameter.
pub mod Marks
use rmc_fabric.Base.{
  ◌≡◌, Text, text_discrete, Bool, true, false, List, [], ◌∷◌, ◌++◌, Option, none, some, ite,
}
use rmc_fabric.Containers.Map
use rmc_fabric.Model.Types.{
  ModelEvent, ModelEventKind, local_interface_changed, local_interface_removed,
  local_address_changed, candidate_added, candidate_updated, candidate_confirmed, candidate_aged,
  candidate_expired, candidate_removed, classification_changed,
}

pub data PublicationIntent : Type 0 where
  changed removed : PublicationIntent

pub data PublicationKey : Type 0 where
  interface : Text → PublicationKey
  local_state : PublicationKey
  candidate : Text → PublicationKey

unfoldable pub PublicationKey-discrete : Discrete PublicationKey
PublicationKey-discrete = hlevel text_discrete

abbrev pub PendingPublication : Type 0
PendingPublication = List (PublicationKey × PublicationIntent)

pub record DirtySet (Q : Type 0) : Type 0 where
  pub pending : Q → PendingPublication
  pub closed : Q → Bool
  pub mark : PublicationKey → PublicationIntent → Q → Q × Bool
  pub try_take : Q → Q × Option PendingPublication
  pub reopen : Q → Q

-- The last mark of a key wins; a closed set ignores a mark; what is taken is what was pending.
pub record IsDirtySet {Q : Type 0} (d : DirtySet Q) : Type 0 where
  pub lookup-mark :
      (j k : PublicationKey) (i : PublicationIntent) (q : Q)
      → d.closed q ≡ false
      → Map.lookup PublicationKey-discrete j (d.pending (d.mark k i q).0)
        ≡ ite
            (PublicationKey-discrete k j)
            (some i)
            (Map.lookup PublicationKey-discrete j (d.pending q))
  pub closed-mark :
      (k : PublicationKey) (i : PublicationIntent) (q : Q) → d.closed (d.mark k i q).0 ≡ d.closed q
  pub mark-closed :
      (k : PublicationKey) (i : PublicationIntent) (q : Q)
      → d.closed q ≡ true
      → (d.mark k i q).0 ≡ q
  pub closed-reopen : (q : Q) → d.closed (d.reopen q) ≡ false
  pub pending-reopen : (q : Q) → d.pending (d.reopen q) ≡ []

module _ {Q : Type 0} ⦃d : DirtySet Q⦄ where
  unfoldable pub mark_candidate_changed : Text → Q → Q × Bool
  mark_candidate_changed mac q = d.mark (candidate mac) changed q

  unfoldable pub mark_candidate_removed : Text → Q → Q × Bool
  mark_candidate_removed mac q = d.mark (candidate mac) removed q

  unfoldable pub mark_interface_changed : Text → Q → Q × Bool
  mark_interface_changed ifname q = d.mark (interface ifname) changed q

  unfoldable pub mark_interface_removed : Text → Q → Q × Bool
  mark_interface_removed ifname q = d.mark (interface ifname) removed q

  unfoldable pub mark_local_state_changed : Q → Q × Bool
  mark_local_state_changed q = d.mark local_state changed q

  -- `if (name) mark(*name);`
  abbrev pub mark_if : (Text → Q → Q × Bool) → Option Text → Q → Q
  mark_if mark none q = q
  mark_if mark (some name) q = (mark name q).0

  unfoldable pub on_event_of_kind : ModelEventKind → ModelEvent → Q → Q
  on_event_of_kind local_interface_changed event q =
      (mark_local_state_changed (mark_if mark_interface_changed event.ifname q)).0
  on_event_of_kind local_address_changed event q =
      (mark_local_state_changed (mark_if mark_interface_changed event.ifname q)).0
  on_event_of_kind local_interface_removed event q =
      (mark_local_state_changed (mark_if mark_interface_removed event.ifname q)).0
  on_event_of_kind candidate_expired event q = mark_if mark_candidate_removed event.mac q
  on_event_of_kind candidate_removed event q = mark_if mark_candidate_removed event.mac q
  on_event_of_kind candidate_added event q = mark_if mark_candidate_changed event.mac q
  on_event_of_kind candidate_updated event q = mark_if mark_candidate_changed event.mac q
  on_event_of_kind candidate_confirmed event q = mark_if mark_candidate_changed event.mac q
  on_event_of_kind candidate_aged event q = mark_if mark_candidate_changed event.mac q
  on_event_of_kind classification_changed event q = mark_if mark_candidate_changed event.mac q

  unfoldable pub on_model_event : ModelEvent → Q → Q
  on_model_event event q = on_event_of_kind event.kind event q

-- The handlers of `dispatchPublication`, as functions on the state that they change.
unfoldable pub dispatch_publication :
    {S : Type 0}
    → (Text → PublicationIntent → S → S)
    → (Text → PublicationIntent → S → S)
    → (S → S)
    → PendingPublication
    → S
    → S
dispatch_publication on_candidate on_interface on_local_state [] s = s
dispatch_publication on_candidate on_interface on_local_state ((candidate mac, intent) ∷ m) s =
    dispatch_publication on_candidate on_interface on_local_state m (on_candidate mac intent s)
dispatch_publication on_candidate on_interface on_local_state ((interface ifname, intent) ∷ m) s =
    dispatch_publication on_candidate on_interface on_local_state m (on_interface ifname intent s)
dispatch_publication on_candidate on_interface on_local_state ((local_state, intent) ∷ m) s =
    dispatch_publication on_candidate on_interface on_local_state m (on_local_state s)
