-- ===== src/Jobs/Update.antt =====
-- backend/routers/jobs.py: `update_job`, by which a job is released, completed, failed or
-- cancelled, and `delete_job`.
use vardr_map.Base.{
  ℕ, String, Bool, true, false, not, ◌&&◌, Option, none, some, if◌then◌else◌, str_eq,
}
use vardr_map.Text.{Text}
use vardr_map.Store.{
  Engagement, ScanJob, JobExecution, Status, pending, running, done, failed, ExecutionState, active,
  cancel_requested, Db, save_job, delete_job_row, bad_request, not_found, conflict, Result, ok, err,
  ◌>>=◌, ◌>>◌, raise_if, or_raise, Handler, transaction,
}
use vardr_map.Access.{CurrentUser, get_engagement_or_404, require_member_write, require_full_scope}
use vardr_map.Budget.{reserves}
use vardr_map.Execution.{accessible_job}

-- `_writable_engagement`
unfoldable pub writable_engagement : ScanJob → CurrentUser → Db → Result Engagement
writable_engagement job user db = do
  e ← get_engagement_or_404 job.program_id user db
  require_member_write e user db
  ok e

unfoldable pub parse_status : String → Option Status
parse_status s =
    if str_eq s "pending"
    then some pending
    else if str_eq s "running"
    then some running
    else if str_eq s "done"
    then some done
    else if str_eq s "failed"
    then some failed
    else none

-- `_PATCH_TRANSITIONS`
unfoldable pub may_become : Status → Status → Bool
may_become pending done = true
may_become pending failed = true
may_become running pending = true
may_become running done = true
may_become running failed = true
may_become _ _ = false

abbrev pub status_eq : Status → Status → Bool
status_eq pending pending = true
status_eq running running = true
status_eq done done = true
status_eq failed failed = true
status_eq _ _ = false

abbrev pub is_final : Status → Bool
is_final done = true
is_final failed = true
is_final _ = false

-- The reply: the job, and the state of its execution where the call requested a cancellation.
abbrev pub JobReply : Type 0
JobReply = ScanJob × Option ExecutionState

abbrev pub cancel_state : ExecutionState → ExecutionState
cancel_state active = cancel_requested
cancel_state state = state

abbrev pub cancel : JobExecution → JobExecution
cancel x = record x { state = cancel_state x.state }

-- A job with an execution: a running one may be asked to stop, and nothing else may change.
unfoldable pub cancel_execution : ScanJob → JobExecution → Status → Result ScanJob
cancel_execution job x status =
    if status_eq status failed && status_eq job.status running
    then ok (record job { execution = some (cancel x) })
    else err conflict

abbrev pub or_text : Option Text → Text → Text
or_text none t = t
or_text (some s) t = s

-- A job without one, by the table of transitions. Repeating the status, but for `running`, changes
-- nothing.
unfoldable pub change_status : ScanJob → Status → Option Text → ℕ → Result ScanJob
change_status job status message now =
    if status_eq status job.status && not (status_eq status running)
    then ok job
    else if not (may_become job.status status)
    then err conflict
    else ok (record job {
      status = status;
      completed_at = if is_final status then some now else job.completed_at;
      error_message = or_text message job.error_message;
    })

abbrev pub update_row :
    Option JobExecution → ScanJob → CurrentUser → Status → Option Text → ℕ → Result JobReply
update_row none job user status message now = do
  job' ← change_status job status message now
  ok (job', none)
update_row (some x) job user status message now = do
  require_full_scope user
  job' ← cancel_execution job x status
  ok (job', some (cancel x).state)

-- `PATCH /jobs/{job_id}`
unfoldable pub update_job : ℕ → String → Option Text → ℕ → CurrentUser → Handler JobReply
update_job id body_status message now user db = transaction db do
  job ← or_raise (accessible_job id user db) not_found
  status ← or_raise (parse_status body_status) bad_request
  writable_engagement job user db
  reply ← update_row job.execution job user status message now
  ok (reply, record db { jobs = save_job id reply.0 db.jobs })

-- `DELETE /jobs/{job_id}`
unfoldable pub delete_job : ℕ → CurrentUser → Handler (Unit {0})
delete_job id user db = transaction db do
  require_full_scope user
  job ← or_raise (accessible_job id user db) not_found
  raise_if (reserves job.execution) conflict
  writable_engagement job user db
  ok (tt, record db { jobs = delete_job_row id db.jobs })
