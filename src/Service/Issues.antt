-- ===== src/Service/Issues.antt =====
-- services/network-observation/service/ObservationService.cpp: the issues that the service keeps,
-- the exits of its workers, the publication to the transports and the phase. `sanitizeField` and
-- `sanitizeMessage` are not part of the repository: they are parameters; the logging is left out.
pub mod Fields
pub mod Health
use rmc_fabric.Base.{
  ◌≡◌, Text, text_discrete, codes, Bool, true, false, List, [], ◌∷◌, ◌++◌, Option, none, some, ite,
  if◌then◌else◌,
}
use rmc_fabric.Containers.Map
use rmc_fabric.Model.Types.{LocalInterfaceState, LocalNetworkSnapshot}
use rmc_fabric.Transports.Codec.Issues.{Issues, IssueFields}
use rmc_fabric.Transports.Codec.Loops.{emplace}

unfoldable pub IssueFields-discrete : Discrete IssueFields
IssueFields-discrete = hlevel text_discrete

pub record Diagnostics : Type 0 where
  pub sanitize_field : Text → Text
  pub sanitize_message : Text → Text

-- What `reportIssue` is given beside the code.
pub record Report : Type 0 where
  pub severity : Text
  pub component : Text
  pub operation : Text
  pub category : Text
  pub identity : Text
  pub message : Text

-- How a worker of `ManagedWorker` ended: by itself, or with an exception, which may not be a
-- `std::exception`.
pub data WorkerExit : Type 0 where
  finished : WorkerExit
  exception : Option Text → WorkerExit

pub record ObservationRuntimeHealth : Type 0 where
  pub running : Bool
  pub lldp_available : Bool

abbrev pub runtime_report : Report
runtime_report = record {
  severity = codes "error";
  component = codes "runtime";
  operation = codes "poll_health";
  category = codes "runtime_stopped";
  identity = codes "runtime";
  message = codes "runtime is not running";
}

abbrev pub lldp_report : Report
lldp_report = record {
  severity = codes "warning";
  component = codes "input.lldp";
  operation = codes "poll_health";
  category = codes "input_degraded";
  identity = codes "lldp";
  message = codes "LLDP observer is unavailable";
}

module _ (d : Diagnostics) where
  unfoldable pub issue_fields : Report → IssueFields
  issue_fields r = emplace (codes "message") (d.sanitize_message r.message) (
      emplace (codes "identity") (d.sanitize_field r.identity) (
        emplace (codes "category") (d.sanitize_field r.category) (
          emplace (codes "operation") (d.sanitize_field r.operation) (
            emplace (codes "component") (d.sanitize_field r.component)
              (emplace (codes "severity") (d.sanitize_field r.severity) [])))))

  abbrev pub same_fields : Option IssueFields → IssueFields → Bool
  same_fields none fields = false
  same_fields (some old) fields = ite (IssueFields-discrete old fields) true false

  unfoldable pub report_issue : Text → Report → Issues → Issues
  report_issue code r issues =
      if same_fields (Map.lookup text_discrete code issues) (issue_fields r)
      then issues
      else Map.insert text_discrete code (issue_fields r) issues

  unfoldable pub clear_issue : Text → Issues → Issues
  clear_issue code issues = Map.erase text_discrete code issues

  unfoldable pub make_transport_issue_code : Text → Text → Text
  make_transport_issue_code name operation =
      codes "observation.transport."
      ++ (d.sanitize_field name ++ (codes "." ++ (d.sanitize_field operation ++ codes ".failed")))

  unfoldable pub note_transport_publish_failure : Text → Text → Text → Issues → Issues
  note_transport_publish_failure name operation message issues =
      report_issue (make_transport_issue_code name operation)
        (record {
          severity = codes "warning";
          component = codes "transport." ++ d.sanitize_field name;
          operation = operation;
          category = codes "transport_publish_failed";
          identity = name;
          message = message;
        })
        issues

  unfoldable pub clear_transport_publish_failure : Text → Text → Issues → Issues
  clear_transport_publish_failure name operation issues =
      clear_issue (make_transport_issue_code name operation) issues

  abbrev pub detail_of : Option Text → Text
  detail_of none = codes "unknown exception"
  detail_of (some what) = what

  -- One turn of the loop of `publishToAll`: a publication throws, or it does not.
  abbrev pub published : Text → Text → Option (Option Text) → Issues → Issues
  published operation name none issues = clear_transport_publish_failure name operation issues
  published operation name (some what) issues =
      note_transport_publish_failure name operation (detail_of what) issues

  -- The transports by name, with what their publication threw.
  unfoldable pub publish_to_all : Text → List (Text × Option (Option Text)) → Issues → Issues
  publish_to_all operation [] issues = issues
  publish_to_all operation ((name, thrown) ∷ transports) issues =
      publish_to_all operation transports (published operation name thrown issues)

  abbrev pub loop_failed : Text → Text → Text → Text → WorkerExit → Issues → Issues
  loop_failed code component operation identity finished issues = issues
  loop_failed code component operation identity (exception what) issues =
      report_issue code
        (record {
          severity = codes "error";
          component = component;
          operation = operation;
          category = codes "worker_loop_failed";
          identity = identity;
          message = detail_of what;
        })
        issues

  unfoldable pub on_publication_worker_exit : WorkerExit → Issues → Issues
  on_publication_worker_exit exit issues =
      loop_failed (codes "observation.worker.publication.stopped") (codes "worker.publication")
        (codes "publish") (codes "publication") exit issues

  unfoldable pub on_aging_worker_exit : WorkerExit → Issues → Issues
  on_aging_worker_exit exit issues =
      loop_failed (codes "observation.worker.aging.stopped") (codes "worker.aging") (codes "age")
        (codes "aging") exit issues

  unfoldable pub on_supervision_worker_exit : WorkerExit → Issues → Issues
  on_supervision_worker_exit exit issues =
      loop_failed (codes "observation.worker.supervision.stopped") (codes "worker.supervision")
        (codes "tick") (codes "supervision") exit issues

  abbrev pub report_unless : Bool → Text → Report → Issues → Issues
  report_unless healthy code report issues =
      if healthy then clear_issue code issues else report_issue code report issues

  unfoldable pub refresh_runtime_issues : ObservationRuntimeHealth → Issues → Issues
  refresh_runtime_issues health issues =
      report_unless health.lldp_available (codes "observation.input.lldp.unavailable") lldp_report
        (report_unless health.running (codes "observation.runtime.stopped") runtime_report issues)

unfoldable pub get_interface : LocalNetworkSnapshot → Text → Option LocalInterfaceState
get_interface snapshot ifname = Map.lookup text_discrete ifname snapshot.interfaces

unfoldable pub get_phase : Bool → Bool → Text
get_phase running ready =
    if running then (if ready then codes "live" else codes "initializing") else codes "stopped"
