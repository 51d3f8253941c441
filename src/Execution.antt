-- ===== src/Execution.antt =====
-- backend/execution_control.py: the lease of one owned attempt.
use vardr_map.Base.{ℕ, ◌+◌, not, ◌||◌, Option, none, some, List, ◌==◌, if◌then◌else◌}
use vardr_map.Text.{eqb}
use vardr_map.Store.{
  ScanJob, JobExecution, TargetBinding, active, Db, not_found, forbidden, Result, ok, ◌>>=◌, ◌>>◌,
  raise_if, or_raise, find_job,
}
use vardr_map.Access.{CurrentUser, contains_id, accessible_engagement_ids}
use vardr_map.Budget.{ClaimControl, DurationReceipt, TargetReceipt}

-- The hash of the request's API key, or `none` where the request carries none.
pub record Request : Type 0 where
  pub api_key_hash : Option ℕ

-- `principal`
abbrev pub principal : Request → Result ℕ
principal request = or_raise request.api_key_hash forbidden

-- `ControlRequest`: a claim's body and the token that the claim returned.
pub record ControlRequest : Type 0 where
  pub claim : ClaimControl
  pub token : ℕ

abbrev pub lease_seconds : ℕ
lease_seconds = 10

abbrev pub charged_of : Option TargetReceipt → ℕ
charged_of none = 0
charged_of (some r) = r.charged

abbrev pub bound_of : Option TargetReceipt → Option TargetBinding
bound_of none = none
bound_of (some r) = some r.binding

abbrev pub allocated_of : Option DurationReceipt → ℕ
allocated_of none = 0
allocated_of (some r) = r.allocated_seconds

abbrev pub if_accessible : List ℕ → Option ScanJob → Option ScanJob
if_accessible ids none = none
if_accessible ids (some j) = if contains_id j.program_id ids then some j else none

-- The job that a caller may see: the row with the id, its primary key, if its engagement is among
-- the caller's.
unfoldable pub accessible_job : ℕ → CurrentUser → Db → Option ScanJob
accessible_job id user db =
    if_accessible (accessible_engagement_ids user.github_id db) (find_job id db.jobs)

-- `hashlib.sha256` of a token is a parameter.
module _ (sha256 : ℕ → ℕ) where
  -- `issue`, with the token that `secrets` drew.
  unfoldable pub issue :
      CurrentUser
      → Request
      → ClaimControl
      → ℕ
      → ℕ
      → Option TargetReceipt
      → Option DurationReceipt
      → Result JobExecution
  issue user request body token now target duration = do
    p ← principal request
    ok (record {
      runner_id = body.runner_id;
      origin = body.origin;
      owner = user.github_id;
      principal_hash = p;
      token_hash = sha256 token;
      expires_at = now + lease_seconds;
      state = active;
      capacity_reserved = body.concurrency_budget;
      target_charge = charged_of target;
      target_binding = bound_of target;
      duration_seconds = allocated_of duration;
    })

  -- The checks of `owned` on the job's row, in their order.
  unfoldable pub check_owned :
      JobExecution → CurrentUser → Request → ControlRequest → Result JobExecution
  check_owned row user request body = do
    raise_if
        (not (row.owner == user.github_id)
          || not (row.runner_id == body.claim.runner_id)
          || not (eqb row.origin body.claim.origin))
        not_found
    p ← principal request
    raise_if (not (row.principal_hash == p) || not (row.token_hash == sha256 body.token)) not_found
    ok row

  unfoldable pub owned :
      ℕ → CurrentUser → Request → ControlRequest → Db → Result (ScanJob × JobExecution)
  owned id user request body db = do
    job ← or_raise (accessible_job id user db) not_found
    row ← or_raise job.execution not_found
    checked ← check_owned row user request body
    ok (job, checked)
