-- ===== src/Service/Issues/Health.antt =====
-- What a poll of the runtime's health, and a publication, leave in the issues.
use rmc_fabric.Base.{
  ◌≡◌, refl, Text, text_discrete, codes, Bool, true, false, Option, none, some, ite, if◌then◌else◌,
  arith, Bool-cases, inl, inr,
}
use rmc_fabric.Containers.Map
use rmc_fabric.Transports.Codec.Issues.{Issues, IssueFields}
use rmc_fabric.Service.Issues.{
  Diagnostics, Report, ObservationRuntimeHealth, issue_fields, same_fields, report_issue,
  clear_issue, report_unless, runtime_report, lldp_report, refresh_runtime_issues,
}

module _ (d : Diagnostics) where
  same_fields-some :
      (o : Option IssueFields) (fields : IssueFields)
      → same_fields d o fields ≡ true
      → o ≡ some fields
  same_fields-some none fields h = cc
  same_fields-some (some old) fields h = ground arith

  pub lookup-report_issue :
      (j code : Text) (r : Report) (issues : Issues)
      → Map.lookup text_discrete j (report_issue d code r issues)
        ≡ ite (text_discrete code j) (some (issue_fields d r)) (Map.lookup text_discrete j issues)
  unfolding report_issue
  lookup-report_issue j code r issues =
      elim (Bool-cases (same_fields d (Map.lookup text_discrete code issues) (issue_fields d r))) [
        | inl same ↦
            let old =
              same_fields-some (Map.lookup text_discrete code issues) (issue_fields d r) same in
            rw same (kept j (text_discrete code j) old)
        | inr new ↦ rw new (Map.lookup-insert text_discrete j code (issue_fields d r) issues)
      ]
    where
      kept :
          (j : Text) (e : Dec (code ≡ j))
          → Map.lookup text_discrete code issues ≡ some (issue_fields d r)
          → Map.lookup text_discrete j issues
            ≡ ite e (some (issue_fields d r)) (Map.lookup text_discrete j issues)
      kept j (yes e) old = rw (← e) old
      kept j (no n) old = refl

  pub lookup-clear_issue :
      (j code : Text) (issues : Issues)
      → Map.lookup text_discrete j (clear_issue d code issues)
        ≡ ite (text_discrete code j) none (Map.lookup text_discrete j issues)
  unfolding clear_issue
  lookup-clear_issue j code issues = Map.lookup-erase text_discrete j code issues

  lookup-report_unless :
      (healthy : Bool) (j code : Text) (r : Report) (issues : Issues)
      → Map.lookup text_discrete j (report_unless d healthy code r issues)
        ≡ ite
            (text_discrete code j)
            (if healthy then none else some (issue_fields d r))
            (Map.lookup text_discrete j issues)
  lookup-report_unless true j code r issues = lookup-clear_issue j code issues
  lookup-report_unless false j code r issues = lookup-report_issue j code r issues

  -- What should stand under a code after a poll.
  abbrev pub after_poll : ObservationRuntimeHealth → Text → Option IssueFields → Option IssueFields
  after_poll health code old =
      ite (text_discrete (codes "observation.input.lldp.unavailable") code)
        (if health.lldp_available then none else some (issue_fields d lldp_report))
        (ite (text_discrete (codes "observation.runtime.stopped") code)
          (if health.running then none else some (issue_fields d runtime_report)) old)

  -- After a poll, the issue of a stopped runtime and that of an absent LLDP observer are there exactly
  -- when the health says so, whatever stood there before; every other issue is as it was.
  pub lookup-refresh_runtime_issues :
      (health : ObservationRuntimeHealth) (issues : Issues) (code : Text)
      → Map.lookup text_discrete code (refresh_runtime_issues d health issues)
        ≡ after_poll health code (Map.lookup text_discrete code issues)
  unfolding refresh_runtime_issues
  lookup-refresh_runtime_issues health issues code =
      rw
        (
          lookup-report_unless health.lldp_available code
              (codes "observation.input.lldp.unavailable") lldp_report
              (report_unless d health.running (codes "observation.runtime.stopped") runtime_report
                issues),
          lookup-report_unless health.running code (codes "observation.runtime.stopped")
              runtime_report issues,
        )
        refl
