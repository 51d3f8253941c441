-- ===== src/Lifecycle/Run.antt =====
-- Any sequence of the calls of `Call`, from routers/jobs.py and routers/engagements.py, by any
-- callers.
use vardr_map.Base.{ℕ, ◌≡◌, true, false, Option, List, [], ◌∷◌, All, ◌∈◌}
use vardr_map.Text.{Text}
use vardr_map.Json.{Value}
use vardr_map.Store.{Db, ScanJob, TargetBinding}
use vardr_map.Access.{CurrentUser}
use vardr_map.Execution.{Request}
use vardr_map.Jobs.Update.{is_final}
use vardr_map.Lifecycle.Row.{IsSound}
use vardr_map.Lifecycle.Table.{Change-IsSound, Change-final}
use vardr_map.Lifecycle.Effect.{Effect, Effect-Change, Within, Effect-Within}
use vardr_map.Lifecycle.Bounds.{WithinCapacity, Effect-WithinCapacity}
use vardr_map.Lifecycle.Calls.{
  Call, create, pipeline, poll, patch, remove, claim, control, report, stop_work, resume_work,
  set_concurrency, set_targets, set_duration, remove_engagement, Event, deletes, perform, run,
}
use vardr_map.Lifecycle.Handlers.{
  create_job-Effect, update_job-Effect, delete_job-Effect, claim_job-Effect,
  refresh_execution-Effect, finish_execution-Effect,
}
use vardr_map.Lifecycle.Queue.{create_pipeline-Effect, get_pending_jobs-Effect}
use vardr_map.Lifecycle.Policies.{
  engage_stop_work-Effect, release_stop_work-Effect, configure_concurrency-Effect,
  configure_targets-Effect, configure_duration-Effect, delete_engagement-Effect,
}

module _ (repr : Value → Text) (sha256 : ℕ → ℕ) (binding : Value → Option TargetBinding) where
  perform-Effect :
      (c : Call) (user : CurrentUser) (request : Request) (now : ℕ) (db : Db)
      → Effect (deletes c) db (perform repr sha256 binding c user request now db)
  unfolding perform
  perform-Effect (create program id body) user request now db =
      create_job-Effect repr program id body now user db
  perform-Effect (pipeline program ids body) user request now db =
      create_pipeline-Effect repr program ids body user db
  perform-Effect poll user request now db = get_pending_jobs-Effect now user db
  perform-Effect (patch id status message) user request now db =
      update_job-Effect id status message now user db
  perform-Effect (remove id) user request now db = delete_job-Effect id user db
  perform-Effect (claim id body token) user request now db =
      claim_job-Effect sha256 binding id body user request token now db
  perform-Effect (control id body) user request now db =
      refresh_execution-Effect sha256 id user request body now db
  perform-Effect (report id outcome body) user request now db =
      finish_execution-Effect sha256 id outcome user request body now db
  perform-Effect (stop_work program) user request now db =
      engage_stop_work-Effect program now user db
  perform-Effect (resume_work program) user request now db =
      release_stop_work-Effect program user db
  perform-Effect (set_concurrency program limit) user request now db =
      configure_concurrency-Effect program limit user db
  perform-Effect (set_targets program limit) user request now db =
      configure_targets-Effect program limit user db
  perform-Effect (set_duration program limit) user request now db =
      configure_duration-Effect program limit user db
  perform-Effect (remove_engagement program) user request now db =
      delete_engagement-Effect program user db

  -- If in every job the attempt has ended exactly when the job has, belongs to a claimed job and,
  -- once ended, holds no capacity, then so it is after any sequence of the calls of `Call`.
  pub run-IsSound :
      (es : List Event) (db : Db)
      → All IsSound db.jobs
      → All IsSound (run repr sha256 binding es db).jobs
  run-IsSound [] db h = h
  run-IsSound (e ∷ es) db h =
      run-IsSound es _
        (Change-IsSound (Effect-Change (perform-Effect e.call e.user e.request e.now db)) h)

  -- In a database whose jobs are sound, the row of a job that is done or failed, as `ScanJob` has it
  -- (with its status, times, error and attempt, and without the column `assessment`), is still in
  -- the table, unchanged, after any sequence of the calls of `Call` none of which deletes it or its
  -- engagement.
  pub run-final :
      (es : List Event) (db : Db) (j : ScanJob)
      → All IsSound db.jobs
      → j ∈ db.jobs
      → is_final j.status ≡ true
      → All (λ e. deletes e.call j ≡ false) es
      → j ∈ (run repr sha256 binding es db).jobs
  run-final [] db j h m f k = m
  run-final (e ∷ es) db j h m f (k, ks) =
      let change = Effect-Change (perform-Effect e.call e.user e.request e.now db) in
      run-final es _ j (Change-IsSound change h) (Change-final change h m f k) f ks

  -- If no engagement with a concurrency limit has more attempts holding capacity than its limit,
  -- then none has after any sequence of calls.
  pub run-WithinCapacity :
      (es : List Event) (db : Db)
      → WithinCapacity db.jobs db.engagements
      → WithinCapacity
          (run repr sha256 binding es db).jobs
          (run repr sha256 binding es db).engagements
  run-WithinCapacity [] db h = h
  run-WithinCapacity (e ∷ es) db h =
      run-WithinCapacity es _
        (Effect-WithinCapacity (perform-Effect e.call e.user e.request e.now db) h)

  -- If every engagement has spent no more targets and allocated no more seconds than its limits
  -- allow, then so it is after any sequence of calls.
  pub run-Within :
      (es : List Event) (db : Db)
      → All Within db.engagements
      → All Within (run repr sha256 binding es db).engagements
  run-Within [] db h = h
  run-Within (e ∷ es) db h =
      run-Within es _ (Effect-Within (perform-Effect e.call e.user e.request e.now db) h)
