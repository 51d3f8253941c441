-- ===== src/Lifecycle/Calls.antt =====
-- The calls of routers/jobs.py and routers/engagements.py that write a job's status, attempt or
-- place, or an engagement's budgets and stop, as one type, and a run of them one after the other.
-- Each call commits before the next one reads, as the row locks of the source make it. Not among
-- them are `upload_job_result`, which writes of a job the column `assessment` alone (Results), the
-- posting of events, which writes a table of its own, and the creation and the change of an
-- engagement's other columns.
use vardr_map.Base.{ℕ, String, Bool, false, Option, List, [], ◌∷◌, ◌==◌}
use vardr_map.Text.{Text}
use vardr_map.Json.{Value}
use vardr_map.Store.{Db, ScanJob, TargetBinding}
use vardr_map.Access.{CurrentUser}
use vardr_map.Budget.{ClaimControl}
use vardr_map.Execution.{Request, ControlRequest}
use vardr_map.Jobs.Create.{JobCreate, create_job}
use vardr_map.Jobs.Pending.{get_pending_jobs}
use vardr_map.Jobs.Pipeline.{PipelineCreate, create_pipeline}
use vardr_map.Jobs.Update.{update_job, delete_job}
use vardr_map.Jobs.Claim.{claim_job}
use vardr_map.Jobs.Control.{refresh_execution, finish_execution, Outcome}
use vardr_map.Engagements.{
  engage_stop_work, release_stop_work, configure_concurrency, configure_targets, configure_duration,
  delete_engagement,
}

pub data Call : Type 0 where
  create : ℕ → ℕ → JobCreate → Call
  pipeline : ℕ → (ℕ → ℕ) → PipelineCreate → Call
  poll : Call
  patch : ℕ → String → Option Text → Call
  remove : ℕ → Call
  claim : ℕ → Option ClaimControl → ℕ → Call
  control : ℕ → ControlRequest → Call
  report : ℕ → Outcome → ControlRequest → Call
  stop_work : ℕ → Call
  resume_work : ℕ → Call
  set_concurrency : ℕ → Option ℕ → Call
  set_targets : ℕ → Option ℕ → Call
  set_duration : ℕ → Option ℕ → Call
  remove_engagement : ℕ → Call

-- A call, who makes it, and when. A claim carries the token that is drawn for it.
pub record Event : Type 0 where
  pub call : Call
  pub user : CurrentUser
  pub request : Request
  pub now : ℕ

-- The jobs that a call may delete.
abbrev pub deletes : Call → ScanJob → Bool
deletes (remove id) j = j.id == id
deletes (remove_engagement program) j = j.program_id == program
deletes _ j = false

module _ (repr : Value → Text) (sha256 : ℕ → ℕ) (binding : Value → Option TargetBinding) where
  unfoldable pub perform : Call → CurrentUser → Request → ℕ → Db → Db
  perform (create program id body) user request now db =
      (create_job repr program id body now user db).1
  perform (pipeline program ids body) user request now db =
      (create_pipeline repr program ids body user db).1
  perform poll user request now db = (get_pending_jobs now user db).1
  perform (patch id status message) user request now db =
      (update_job id status message now user db).1
  perform (remove id) user request now db = (delete_job id user db).1
  perform (claim id body token) user request now db =
      (claim_job sha256 binding id body user request token now db).1
  perform (control id body) user request now db =
      (refresh_execution sha256 id user request body now db).1
  perform (report id outcome body) user request now db =
      (finish_execution sha256 id outcome user request body now db).1
  perform (stop_work program) user request now db = (engage_stop_work program now user db).1
  perform (resume_work program) user request now db = (release_stop_work program user db).1
  perform (set_concurrency program limit) user request now db =
      (configure_concurrency program limit user db).1
  perform (set_targets program limit) user request now db =
      (configure_targets program limit user db).1
  perform (set_duration program limit) user request now db =
      (configure_duration program limit user db).1
  perform (remove_engagement program) user request now db = (delete_engagement program user db).1

  abbrev pub run : List Event → Db → Db
  run [] db = db
  run (e ∷ es) db = run es (perform e.call e.user e.request e.now db)
