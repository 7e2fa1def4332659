-- ===== src/Inventory/Issues.antt =====
-- services/rmc-inventory/core/InventoryIssueUtil.cpp
use rmc_fabric.Base.{
  ◌≡◌, refl, ◌∙◌, Text, text_discrete, codes, Bool, true, false, ◌&&◌, not, if◌then◌else◌, List, [],
  ◌∷◌, Option, none, some, is_empty, arith,
}
use rmc_fabric.Containers.Map
use rmc_fabric.Inventory.Types.{
  string_value, InventoryFields, SourceHealth, healthy, degraded, failed, SourceState,
  SourceStateMap,
}
use rmc_fabric.Inventory.Manager.{is_healthy}

abbrev pub is_failed : SourceHealth → Bool
is_failed failed = true
is_failed _ = false

abbrev severity : SourceState → Text
severity state = if is_failed state.health && state.required then codes "error" else codes "warning"

abbrev message_or : Option Text → Bool → Text
message_or none stale = if stale then codes "source data is stale" else codes "source not healthy"
message_or (some error) stale =
    if not (is_empty error)
    then error
    else (if stale then codes "source data is stale" else codes "source not healthy")

abbrev origin_field : Option Text → InventoryFields
origin_field none = []
origin_field (some origin) = (codes "origin", string_value origin) ∷ []

-- The issue of a source; the keys are distinct, so each `emplace` adds one.
unfoldable pub issue_of : SourceState → InventoryFields
issue_of state =
    (codes "severity", string_value (severity state))
    ∷ (codes "message", string_value (message_or state.last_error state.stale))
    ∷ origin_field state.origin

abbrev pub is_quiet : SourceState → Bool
is_quiet state = is_healthy state.health && not state.stale

-- The keys of the states are distinct, so each `emplace` adds an issue.
unfoldable pub derive_issues : SourceStateMap → List (Text × InventoryFields)
derive_issues [] = []
derive_issues ((name, state) ∷ states) =
    let rest = derive_issues states in
    if is_quiet state then rest else (name, issue_of state) ∷ rest

abbrev pub issue_at : Option SourceState → Option InventoryFields
issue_at none = none
issue_at (some state) = if is_quiet state then none else some (issue_of state)

no_issue :
    (name : Text) (states : SourceStateMap)
    → Map.lookup text_discrete name states ≡ none
    → Map.lookup text_discrete name (derive_issues states) ≡ none
unfolding derive_issues Map.lookup
no_issue name [] h = refl
no_issue name ((n, state) ∷ states) h = ground (arith, no_issue name states)

lookup-derive_issues_at :
    (name : Text) (states : SourceStateMap)
    → Map.IsDistinct text_discrete states
    → Map.lookup text_discrete name (derive_issues states)
      ≡ issue_at (Map.lookup text_discrete name states)
unfolding derive_issues Map.lookup
lookup-derive_issues_at name [] d = refl
lookup-derive_issues_at name ((n, state) ∷ states) d =
    ground (arith, lookup-derive_issues_at name states d.1, no_issue name states, d.0)

-- The severity that is due, by the health of a source, whether its data are stale, and whether it is
-- required.
abbrev pub severity_due : SourceHealth → Bool → Bool → Option Text
severity_due healthy false required = none
severity_due healthy true required = some (codes "warning")
severity_due degraded stale required = some (codes "warning")
severity_due failed stale true = some (codes "error")
severity_due failed stale false = some (codes "warning")

-- The message that is due, by the last error and whether the data are stale.
abbrev pub message_due : Option Text → Bool → Text
message_due (some (c ∷ error)) stale = c ∷ error
message_due (some []) true = codes "source data is stale"
message_due (some []) false = codes "source not healthy"
message_due none true = codes "source data is stale"
message_due none false = codes "source not healthy"

-- The fields of an issue of that severity and message, with the origin, if there is one.
abbrev pub fields_due : Option Text → Text → Option Text → Option InventoryFields
fields_due none message origin = none
fields_due (some severity) message none =
    some ((codes "severity", string_value severity) ∷ (codes "message", string_value message) ∷ [])
fields_due (some severity) message (some origin) = some (
    (codes "severity", string_value severity)
    ∷ (codes "message", string_value message)
    ∷ (codes "origin", string_value origin)
    ∷ [])

abbrev pub issue_due : Option SourceState → Option InventoryFields
issue_due none = none
issue_due (some state) =
    fields_due (severity_due state.health state.stale state.required)
      (message_due state.last_error state.stale) state.origin

state_due : (state : SourceState) → issue_at (some state) ≡ issue_due (some state)
unfolding issue_of
state_due state = ground arith

due : (o : Option SourceState) → issue_at o ≡ issue_due o
due none = refl
due (some state) = state_due state

-- With distinct sources, there is an issue for a source exactly if it is degraded or failed or its
-- data are stale. It is an error if the source has failed and is required, and else a warning; its
-- message is the last error, if it has a text, or else that the data are stale, or that the source
-- is not healthy; and it has the origin, if there is one.
pub lookup-derive_issues :
    (name : Text) (states : SourceStateMap)
    → Map.IsDistinct text_discrete states
    → Map.lookup text_discrete name (derive_issues states)
      ≡ issue_due (Map.lookup text_discrete name states)
lookup-derive_issues name states d =
    lookup-derive_issues_at name states d ∙ due (Map.lookup text_discrete name states)
