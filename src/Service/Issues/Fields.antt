-- ===== src/Service/Issues/Fields.antt =====
-- Every issue that the service keeps has the fields that the codec asks for.
use rmc_fabric.Base.{
  ◌≡◌, refl, Text, text_discrete, Bool, true, false, List, [], ◌∷◌, Option, none, some, arith,
}
use rmc_fabric.Base.Result.{ok}
use rmc_fabric.Containers.Map
use rmc_fabric.Transports.Codec.Issues.{Issues, IssueFields, validate_required_issue_fields}
use rmc_fabric.Transports.Codec.Loops.{emplace}
use rmc_fabric.Service.Issues.{
  Diagnostics, Report, WorkerExit, finished, exception, ObservationRuntimeHealth, issue_fields,
  report_issue, clear_issue, published, publish_to_all, loop_failed, on_publication_worker_exit,
  on_aging_worker_exit, on_supervision_worker_exit, refresh_runtime_issues,
  note_transport_publish_failure, clear_transport_publish_failure, report_unless, runtime_report,
  lldp_report,
}

-- The calls that change the issues.
pub data Call : Type 0 where
  reported : Text → Report → Call
  cleared : Text → Call
  published_to : Text → List (Text × Option (Option Text)) → Call
  publication_ended aging_ended supervision_ended : WorkerExit → Call
  polled : ObservationRuntimeHealth → Call

module _ (d : Diagnostics) where
  unfoldable pub apply : Call → Issues → Issues
  apply (reported code r) issues = report_issue d code r issues
  apply (cleared code) issues = clear_issue d code issues
  apply (published_to operation transports) issues = publish_to_all d operation transports issues
  apply (publication_ended exit) issues = on_publication_worker_exit d exit issues
  apply (aging_ended exit) issues = on_aging_worker_exit d exit issues
  apply (supervision_ended exit) issues = on_supervision_worker_exit d exit issues
  apply (polled health) issues = refresh_runtime_issues d health issues

  unfoldable pub run : List Call → Issues → Issues
  run [] issues = issues
  run (call ∷ calls) issues = run calls (apply call issues)

-- The codec accepts the fields.
abbrev pub AreReports : Issues → Type 0
AreReports [] = Unit
AreReports ((code, fields) ∷ issues) =
    (validate_required_issue_fields fields ≡ ok tt) × AreReports issues

insert-AreReports :
    (code : Text) (fields : IssueFields) (issues : Issues)
    → validate_required_issue_fields fields ≡ ok tt
    → AreReports issues
    → AreReports (Map.insert text_discrete code fields issues)
unfolding Map.insert
insert-AreReports code fields [] h all = (h, tt)
insert-AreReports code fields ((j, old) ∷ issues) h all =
    let rest = insert-AreReports code fields issues h all.1 in ground arith

erase-AreReports :
    (code : Text) (issues : Issues)
    → AreReports issues
    → AreReports (Map.erase text_discrete code issues)
unfolding Map.erase
erase-AreReports code [] all = tt
erase-AreReports code ((j, old) ∷ issues) all =
    let rest = erase-AreReports code issues all.1 in ground arith

module _ (d : Diagnostics) where
  issue_fields-ok : (r : Report) → validate_required_issue_fields (issue_fields d r) ≡ ok tt
  unfolding issue_fields validate_required_issue_fields Map.lookup emplace text_discrete
  issue_fields-ok r = refl

  report_issue-AreReports :
      (code : Text) (r : Report) (issues : Issues)
      → AreReports issues
      → AreReports (report_issue d code r issues)
  unfolding report_issue
  report_issue-AreReports code r issues all =
      ground (arith, insert-AreReports code (issue_fields d r) issues (issue_fields-ok r) all)

  clear_issue-AreReports :
      (code : Text) (issues : Issues) → AreReports issues → AreReports (clear_issue d code issues)
  unfolding clear_issue
  clear_issue-AreReports code issues all = erase-AreReports code issues all

  published-AreReports :
      (operation name : Text) (thrown : Option (Option Text)) (issues : Issues)
      → AreReports issues
      → AreReports (published d operation name thrown issues)
  unfolding note_transport_publish_failure clear_transport_publish_failure
  published-AreReports operation name none issues all = clear_issue-AreReports _ issues all
  published-AreReports operation name (some what) issues all =
      report_issue-AreReports _ _ issues all

  publish_to_all-AreReports :
      (operation : Text) (transports : List (Text × Option (Option Text))) (issues : Issues)
      → AreReports issues
      → AreReports (publish_to_all d operation transports issues)
  unfolding publish_to_all
  publish_to_all-AreReports operation [] issues all = all
  publish_to_all-AreReports operation ((name, thrown) ∷ transports) issues all =
      publish_to_all-AreReports operation transports (published d operation name thrown issues)
        (published-AreReports operation name thrown issues all)

  loop_failed-AreReports :
      (code component operation identity : Text) (exit : WorkerExit) (issues : Issues)
      → AreReports issues
      → AreReports (loop_failed d code component operation identity exit issues)
  loop_failed-AreReports code component operation identity finished issues all = all
  loop_failed-AreReports code component operation identity (exception what) issues all =
      report_issue-AreReports code _ issues all

  report_unless-AreReports :
      (healthy : Bool) (code : Text) (r : Report) (issues : Issues)
      → AreReports issues
      → AreReports (report_unless d healthy code r issues)
  report_unless-AreReports true code r issues all = clear_issue-AreReports code issues all
  report_unless-AreReports false code r issues all = report_issue-AreReports code r issues all

  apply-AreReports :
      (call : Call) (issues : Issues) → AreReports issues → AreReports (apply d call issues)
  unfolding apply on_publication_worker_exit on_aging_worker_exit on_supervision_worker_exit
      refresh_runtime_issues
  apply-AreReports (reported code r) issues all = report_issue-AreReports code r issues all
  apply-AreReports (cleared code) issues all = clear_issue-AreReports code issues all
  apply-AreReports (published_to operation transports) issues all =
      publish_to_all-AreReports operation transports issues all
  apply-AreReports (publication_ended exit) issues all =
      loop_failed-AreReports _ _ _ _ exit issues all
  apply-AreReports (aging_ended exit) issues all = loop_failed-AreReports _ _ _ _ exit issues all
  apply-AreReports (supervision_ended exit) issues all =
      loop_failed-AreReports _ _ _ _ exit issues all
  apply-AreReports (polled health) issues all =
      report_unless-AreReports health.lldp_available _ lldp_report _
        (report_unless-AreReports health.running _ runtime_report issues all)

  -- After any calls that report, clear, publish, poll or end a worker, every issue that the service
  -- keeps passes the check of the codec for the required fields.
  pub run-AreReports :
      (calls : List Call) (issues : Issues) → AreReports issues → AreReports (run d calls issues)
  unfolding run
  run-AreReports [] issues all = all
  run-AreReports (call ∷ calls) issues all =
      run-AreReports calls (apply d call issues) (apply-AreReports call issues all)
