-- ===== src/Lifecycle/Control.antt =====
-- backend/routers/jobs.py: what the two calls that control an attempt answer.
use vardr_map.Base.{ℕ, ◌<◌, ◌≡◌, ◌↔◌, ◌⊎◌, refl, ap, Bool, false, arith, is_some}
use vardr_map.Store.{
  Db, Engagement, ScanJob, JobExecution, Status, running, ExecutionState, active, Result, ok, err,
  err-ne-ok, transaction, ok-injective,
}
use vardr_map.Access.{CurrentUser}
use vardr_map.Execution.{Request, ControlRequest}
use vardr_map.Jobs.Control.{
  continue, observed_state, refresh, Outcome, settle, finish, owned_writable, refresh_execution,
  finish_execution,
}
use vardr_map.Lifecycle.Controller.{IsController, owned_writable_sound, owned_writable_complete}

module _ (sha256 : ℕ → ℕ) (id : ℕ) (user : CurrentUser) (request : Request) (body : ControlRequest)
    (db : Db) where
  refresh-continue_iff :
      (x : JobExecution) (status : Status) (stopped : Bool) (now : ℕ)
      → ((refresh x status stopped now).1 ≡ continue)
        ↔ ((x.state ≡ active) × (now < x.expires_at) × (stopped ≡ false) × (status ≡ running))
  unfolding refresh observed_state
  refresh-continue_iff x status stopped now = ground arith

  -- `POST /jobs/{job_id}/control` answers `continue` exactly when the caller controls the attempt of
  -- an unmanaged job that the caller may write to, the attempt is active and unexpired, its
  -- engagement is not stopped and its job is running.
  pub refresh_execution-continue_iff :
      (now : ℕ)
      → ((refresh_execution sha256 id user request body now db).0 ≡ ok continue) ↔ (
          (job : ScanJob) × (x : JobExecution) × (e : Engagement) × IsController sha256 id user
            request body db job x e
          × (x.state ≡ active)
          × (now < x.expires_at)
          × (is_some e.stop_work_at ≡ false)
          × (job.status ≡ running))
  unfolding refresh_execution transaction
  refresh_execution-continue_iff now = (
    forward (owned_writable sha256 id user request body db) refl,
    λ (job, x, e, control, active_, in_time, open_, running_).
        let told =
          (refresh-continue_iff x job.status (is_some e.stop_work_at) now).1
            (active_, in_time, open_, running_) in
        rw (owned_writable_complete sha256 id user request body db job x e control) (ap ok told),
  )
    where
      forward :
          (r : Result (ScanJob × JobExecution × Engagement))
          → owned_writable sha256 id user request body db ≡ r
          → (refresh_execution sha256 id user request body now db).0 ≡ ok continue
          → (job : ScanJob) × (x : JobExecution) × (e : Engagement) × IsController sha256 id user
              request body db job x e
            × (x.state ≡ active)
            × (now < x.expires_at)
            × (is_some e.stop_work_at ≡ false)
            × (job.status ≡ running)
      forward (err f) h k = absurd (err-ne-ok (rw h at k))
      forward (ok (job, x, e)) h k =
          let told : (refresh x job.status (is_some e.stop_work_at) now).1 ≡ continue =
            ok-injective (rw h at k) in
          let (active_, in_time, open_, running_) =
            (refresh-continue_iff x job.status _ now).0 told in
          (
            job,
            x,
            e,
            owned_writable_sound sha256 id user request body db h,
            active_,
            in_time,
            open_,
            running_,
          )

  finish-completed_iff :
      (j : ScanJob) (x : JobExecution) (stopped : Bool) (now : ℕ)
      → ((finish j x Outcome.completed stopped now).0 ≡ ok ExecutionState.completed) ↔ (
          (x.state ≡ ExecutionState.completed)
          ⊎ ((x.state ≡ active) × (now < x.expires_at) × (stopped ≡ false)))
  unfolding finish settle
  finish-completed_iff j x stopped now = ground arith

  -- `POST /jobs/{job_id}/execution-finish` accepts a report of success exactly when the caller
  -- controls the attempt of an unmanaged job that the caller may write to, and the attempt has
  -- completed already, or is active with an unexpired lease in an engagement that is not stopped.
  pub finish_execution-completed_iff :
      (now : ℕ)
      → ((finish_execution sha256 id Outcome.completed user request body now db).0
          ≡ ok ExecutionState.completed)
        ↔ ((job : ScanJob) × (x : JobExecution) × (e : Engagement) × IsController sha256 id user
              request body db job x e
            × ((x.state ≡ ExecutionState.completed)
                ⊎ ((x.state ≡ active) × (now < x.expires_at) × (is_some e.stop_work_at ≡ false))))
  unfolding finish_execution
  finish_execution-completed_iff now = (
    forward (owned_writable sha256 id user request body db) refl,
    λ (job, x, e, control, in_order).
        let accepted = (finish-completed_iff job x (is_some e.stop_work_at) now).1 in_order in
        rw (owned_writable_complete sha256 id user request body db job x e control) accepted,
  )
    where
      forward :
          (r : Result (ScanJob × JobExecution × Engagement))
          → owned_writable sha256 id user request body db ≡ r
          → (finish_execution sha256 id Outcome.completed user request body now db).0
            ≡ ok ExecutionState.completed
          → (job : ScanJob) × (x : JobExecution) × (e : Engagement) × IsController sha256 id user
              request body db job x e
            × ((x.state ≡ ExecutionState.completed)
                ⊎ ((x.state ≡ active) × (now < x.expires_at) × (is_some e.stop_work_at ≡ false)))
      forward (err f) h k = absurd (err-ne-ok (rw h at k))
      forward (ok (job, x, e)) h k = (
        job,
        x,
        e,
        owned_writable_sound sha256 id user request body db h,
        (finish-completed_iff job x _ now).0 (rw h at k),
      )
