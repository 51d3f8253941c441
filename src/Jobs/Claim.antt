-- ===== src/Jobs/Claim.antt =====
-- backend/routers/jobs.py: `claim_job`, which hands one pending job to one runner.
use vardr_map.Base.{
  ℕ, Bool, not, ◌&&◌, ◌||◌, Option, none, some, List, ◌==◌, if◌then◌else◌, str_eq, is_some, first,
}
use vardr_map.Text.{eqb}
use vardr_map.Json.{Value}
use vardr_map.Policy.Decision.{Reason, aware}
use vardr_map.Store.{
  AuthorizationTestCase, Engagement, ScanJob, JobExecution, TargetBinding, pending, running, Db,
  save_job, save_engagement, not_found, conflict, Result, ok, ◌>>=◌, ◌>>◌, raise_if, or_raise,
  Handler, transaction,
}
use vardr_map.Access.{CurrentUser}
use vardr_map.Enforcement.{check, as_warnings}
use vardr_map.Budget.{
  ClaimControl, DurationReceipt, TargetReceipt, before_claim, allocate, charge, vardrgate,
}
use vardr_map.Execution.{Request, accessible_job, issue}
use vardr_map.Jobs.Targets.{resolve_targets, case_ref}
use vardr_map.Jobs.Update.{writable_engagement, status_eq}

-- A job that only the managed issuer may hand out.
abbrev pub is_managed : ScanJob → Bool
is_managed job = job.authorization_contract_required || is_some job.managed_approval_id

abbrev pub spec_of : Option AuthorizationTestCase → Option Value
spec_of none = none
spec_of (some case) = some case.spec

unfoldable pub stored_case : ScanJob → Db → Option AuthorizationTestCase
stored_case job db =
    first (λ c. eqb c.id (case_ref job.config) && (c.program_id == job.program_id)) db.test_cases

-- The spec of a Gate job, frozen at the claim.
unfoldable pub take_snapshot : ScanJob → Db → Result (Option Value)
take_snapshot job db =
    if str_eq job.tool_type vardrgate
    then (do case ← or_raise (stored_case job db) not_found; ok (some case.spec))
    else ok none

pub record Claimed : Type 0 where
  pub job : ScanJob
  pub warnings : List Reason

module _ (sha256 : ℕ → ℕ) (binding : Value → Option TargetBinding) where
  abbrev pub issue_for :
      Option ClaimControl
      → CurrentUser
      → Request
      → ℕ
      → ℕ
      → Option TargetReceipt
      → Option DurationReceipt
      → Result (Option JobExecution)
  issue_for none user request token now target duration = ok none
  issue_for (some body) user request token now target duration = do
    x ← issue sha256 user request body token now target duration
    ok (some x)

  -- The claim of a pending job of an engagement.
  unfoldable pub claim_pending :
      ScanJob
      → Engagement
      → Option ClaimControl
      → CurrentUser
      → Request
      → ℕ
      → ℕ
      → Db
      → Result (Claimed × Engagement)
  claim_pending job e body user request token now db = do
    before_claim db.jobs e body
    finding ←
        check db e job.tool_type (resolve_targets job.program_id job.target_source job.config db)
          (aware now)
    snapshot ← take_snapshot job db
    raise_if (is_some e.stop_work_at) conflict
    (e', target) ← charge binding e job snapshot body
    (e'', duration) ← allocate e' body
    execution ← issue_for body user request token now target duration
    ok (
      record {
        job = record job {
          status = running;
          started_at = some now;
          case_snapshot = snapshot;
          execution = execution;
        };
        warnings = as_warnings finding;
      },
      e'',
    )

  -- `POST /jobs/{job_id}/claim`
  unfoldable pub claim_job :
      ℕ → Option ClaimControl → CurrentUser → Request → ℕ → ℕ → Handler Claimed
  claim_job id body user request token now db = transaction db do
    job ← or_raise (accessible_job id user db) not_found
    e ← writable_engagement job user db
    raise_if (is_managed job) conflict
    raise_if (not (status_eq job.status pending)) conflict
    (claimed, e') ← claim_pending job e body user request token now db
    ok (
      claimed,
      record db {
        jobs = save_job id claimed.job db.jobs;
        engagements = save_engagement job.program_id e' db.engagements;
      },
    )
