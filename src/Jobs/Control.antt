-- ===== src/Jobs/Control.antt =====
-- backend/routers/jobs.py: `refresh_execution` and `finish_execution`, by which the owner of an
-- attempt renews its lease and reports its end.
use vardr_map.Base.{
  ℕ, ◌+◌, Bool, true, false, not, ◌&&◌, ◌||◌, some, [], leb, if◌then◌else◌, is_some,
}
use vardr_map.Text.{Text, text}
use vardr_map.Store.{
  Engagement, ScanJob, JobExecution, Status, running, done, ExecutionState, active,
  cancel_requested, Db, save_job, conflict, Result, ok, err, ◌>>=◌, ◌>>◌, raise_if, Handler,
  transaction,
}
use vardr_map.Access.{CurrentUser}
use vardr_map.Execution.{Request, ControlRequest, owned, lease_seconds}
use vardr_map.Jobs.Update.{writable_engagement, status_eq}
use vardr_map.Jobs.Claim.{is_managed}

abbrev pub is_active : ExecutionState → Bool
is_active active = true
is_active _ = false

abbrev pub is_terminal : ExecutionState → Bool
is_terminal ExecutionState.completed = true
is_terminal ExecutionState.failed = true
is_terminal ExecutionState.cancelled = true
is_terminal _ = false

abbrev pub state_eq : ExecutionState → ExecutionState → Bool
state_eq active active = true
state_eq cancel_requested cancel_requested = true
state_eq ExecutionState.completed ExecutionState.completed = true
state_eq ExecutionState.failed ExecutionState.failed = true
state_eq ExecutionState.cancelled ExecutionState.cancelled = true
state_eq ExecutionState.uncertain ExecutionState.uncertain = true
state_eq _ _ = false

-- The state of a lease at a refresh: a stop cancels it and the end of its time makes it uncertain.
unfoldable pub observed_state : ExecutionState → Bool → Bool → ExecutionState
observed_state active true expired = cancel_requested
observed_state active false true = ExecutionState.uncertain
observed_state state stopped expired = state

-- What the runner is told: to go on, or to stop.
pub data Action : Type 0 where
  continue cancel : Action

unfoldable pub refresh : JobExecution → Status → Bool → ℕ → JobExecution × Action
refresh x status stopped now =
    let state = observed_state x.state stopped (leb x.expires_at now) in
    if is_active state && status_eq status running
    then (record x { state = state; expires_at = now + lease_seconds }, continue)
    else (record x { state = state }, cancel)

-- `FinishControl.outcome`
pub data Outcome : Type 0 where
  completed failed cancelled uncertain : Outcome

abbrev pub state_of : Outcome → ExecutionState
state_of Outcome.completed = ExecutionState.completed
state_of Outcome.failed = ExecutionState.failed
state_of Outcome.cancelled = ExecutionState.cancelled
state_of Outcome.uncertain = ExecutionState.uncertain

abbrev pub is_completed : Outcome → Bool
is_completed Outcome.completed = true
is_completed _ = false

abbrev pub is_uncertain : Outcome → Bool
is_uncertain Outcome.uncertain = true
is_uncertain _ = false

abbrev pub outcome_text : Outcome → Text
outcome_text Outcome.completed = []
outcome_text Outcome.failed = text "failed"
outcome_text Outcome.cancelled = text "cancelled"
outcome_text Outcome.uncertain = text "uncertain"

-- The attempt and its job after a report that is accepted.
unfoldable pub settle : ScanJob → JobExecution → Outcome → ℕ → ScanJob
settle job x outcome now =
    if is_uncertain outcome
    then record job { execution = some (record x { state = state_of outcome }) }
    else record job {
      execution = some (record x { state = state_of outcome; capacity_reserved = false });
      status = if is_completed outcome then done else Status.failed;
      completed_at = some now;
      error_message = outcome_text outcome;
    }

-- The result of a report, and the job as it is left. A report of success that comes too late is
-- refused, and the refusal leaves a request to cancel behind.
unfoldable pub finish :
    ScanJob → JobExecution → Outcome → Bool → ℕ → Result ExecutionState × ScanJob
finish job x outcome stopped now =
    if is_terminal x.state
    then (if state_eq x.state (state_of outcome) then ok x.state else err conflict, job)
    else if is_completed outcome && (not (is_active x.state) || leb x.expires_at now || stopped)
    then (err conflict, record job { execution = some (record x { state = cancel_requested }) })
    else (ok (state_of outcome), settle job x outcome now)

-- The rows that both handlers need, after their checks.
module _ (sha256 : ℕ → ℕ) where
  unfoldable pub owned_writable :
      ℕ → CurrentUser → Request → ControlRequest → Db → Result (ScanJob × JobExecution × Engagement)
  owned_writable id user request body db = do
    (job, x) ← owned sha256 id user request body db
    e ← writable_engagement job user db
    raise_if (is_managed job) conflict
    ok (job, x, e)

  -- `POST /jobs/{job_id}/control`
  unfoldable pub refresh_execution : ℕ → CurrentUser → Request → ControlRequest → ℕ → Handler Action
  refresh_execution id user request body now db = transaction db do
    (job, x, e) ← owned_writable id user request body db
    let (x', action) = refresh x job.status (is_some e.stop_work_at) now
    ok (action, record db { jobs = save_job id (record job { execution = some x' }) db.jobs })

  abbrev pub finish_owned :
      ℕ
      → Outcome
      → ℕ
      → Db
      → Result (ScanJob × JobExecution × Engagement)
      → Result ExecutionState × Db
  finish_owned id outcome now db (err e) = (err e, db)
  finish_owned id outcome now db (ok (job, x, e)) =
      let (reply, job') = finish job x outcome (is_some e.stop_work_at) now in
      (reply, record db { jobs = save_job id job' db.jobs })

  -- `POST /jobs/{job_id}/execution-finish`
  unfoldable pub finish_execution :
      ℕ → Outcome → CurrentUser → Request → ControlRequest → ℕ → Handler ExecutionState
  finish_execution id outcome user request body now db =
      finish_owned id outcome now db (owned_writable id user request body db)
