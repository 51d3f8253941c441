-- ===== src/Lifecycle/Claims.antt =====
-- backend/routers/jobs.py and backend/routers/engagements.py: what a granted claim and an accepted
-- stop-work leave.
use mathlib.Core.Path.{subst}
use vardr_map.Base.{
  ℕ, ◌≡◌, refl, ap, sym, ◌∙◌, true, false, not, Option, none, some, List, [], ◌∷◌, arith, ◌==◌, map,
  is_some, All, ◌∈◌, at-All,
}
use vardr_map.Json.{Value}
use vardr_map.Store.{
  Db, Engagement, ScanJob, JobExecution, TargetBinding, Status, pending, running, ExecutionState,
  find_job, find_engagement, save_job, save_engagement, Error, not_found, conflict, Result, ok, err,
  raise_if, or_raise, transaction, ok-injective, err-ne-ok, bind_passed,
}
use vardr_map.Store.Laws.{first-mem, first-write_first, transaction-eq_ok}
use vardr_map.Access.{CurrentUser, get_engagement_or_404, require_member_write}
use vardr_map.Budget.{ClaimControl}
use vardr_map.Execution.{Request, accessible_job}
use vardr_map.Jobs.Update.{writable_engagement, status_eq, cancel_state}
use vardr_map.Jobs.Claim.{claim_job, claim_pending, Claimed, is_managed}
use vardr_map.Jobs.Control.{is_active}
use vardr_map.Engagements.{engage_stop_work, cancel_in, cancel_active, or_now}
use vardr_map.Lifecycle.Granting.{Granted, claim_pending-Granted}
use vardr_map.Lifecycle.Inversion.{
  raise_if-eq_ok, accessible_job-found, writable_engagement-found, get_engagement-found,
}

pending-eq : (s : Status) → not (status_eq s pending) ≡ false → s ≡ pending
pending-eq s h = ground arith

-- The rows that a granted claim has read and written.
pub record ClaimedRow (id : ℕ) (c : Claimed) (db db' : Db) : Type 0 where
  pub job : ScanJob
  pub engagement : Engagement
  pub found : find_job id db.jobs ≡ some job
  pub was_pending : job.status ≡ pending
  pub own : find_engagement job.program_id db.engagements ≡ some engagement
  pub not_stopped : is_some engagement.stop_work_at ≡ false
  pub now_running : c.job.status ≡ running
  pub left : find_job id db'.jobs ≡ some c.job

-- A transaction that fails leaves the database as it was.
transaction-kept :
    {A : Type 0} (db : Db) (m : Result (A × Db)) {e : Error} {db' : Db}
    → transaction db m ≡ (err e, db')
    → db' ≡ db
unfolding transaction
transaction-kept db (ok (x, d)) h = let p = ap (λ r. r.0) h in absurd (err-ne-ok (sym p))
transaction-kept db (err e) h = sym (ap (λ r. r.1) h)

module _ (sha256 : ℕ → ℕ) (binding : Value → Option TargetBinding) where
  failed-kept :
      (id : ℕ) (body : Option ClaimControl) (user : CurrentUser) (request : Request) (token now : ℕ)
      (db : Db) {e : Error} {db' : Db}
      → claim_job sha256 binding id body user request token now db ≡ (err e, db')
      → db' ≡ db
  unfolding claim_job
  failed-kept id body user request token now db h = transaction-kept db _ h

  -- A claim that is granted found the job pending and its engagement without stop-work, and left
  -- the job, which it returns, running in the table.
  pub claim_job-granted :
      (id : ℕ) (body : Option ClaimControl) (user : CurrentUser) (request : Request) (token now : ℕ)
      (db : Db) (c : Claimed) (db' : Db)
      → claim_job sha256 binding id body user request token now db ≡ (ok c, db')
      → ClaimedRow id c db db'
  unfolding claim_job find_job save_job
  claim_job-granted id body user request token now db c db' h =
      let h0 = transaction-eq_ok db _ h in
      let (job, seen, h1) = bind_passed (or_raise (accessible_job id user db) not_found) _ h0 in
      let (e, got, h2) = bind_passed (writable_engagement job user db) _ h1 in
      let (_, _, h3) = bind_passed (raise_if (is_managed job) conflict) _ h2 in
      let (_, open_, h4) =
        bind_passed (raise_if (not (status_eq job.status pending)) conflict) _ h3 in
      let (r, granted, h5) =
        bind_passed (claim_pending sha256 binding job e body user request token now db) _ h4 in
      let g : Granted job e db.jobs r.0.job r.1 =
        claim_pending-Granted sha256 binding job e body user request token now db granted in
      let found : find_job id db.jobs ≡ some job = accessible_job-found id user db seen in
      let own_id = (first-mem (λ x. x.id == id) db.jobs found).1 in
      let kept : (r.0.job.id == id) ≡ true = ground (arith, g.same_id, own_id) in
      subst (λ (r : Claimed × Db). ClaimedRow id r.0 db r.1) (ok-injective h5)
        (record {
          job = job;
          engagement = e;
          found = found;
          was_pending = pending-eq job.status (raise_if-eq_ok _ conflict open_);
          own = writable_engagement-found job user db got;
          not_stopped = g.not_stopped;
          now_running = g.is_running_now;
          left = first-write_first (λ x. x.id == id) r.0.job job db.jobs found kept;
        })

  -- After a claim of a job is granted, the next claim of it fails and changes nothing, whoever makes
  -- it, whatever it offers and whenever it comes.
  pub claim_job-once :
      (id : ℕ) (body body' : Option ClaimControl) (user user' : CurrentUser)
      (request request' : Request) (token token' now now' : ℕ) (db : Db) (c : Claimed) (db' : Db)
      → claim_job sha256 binding id body user request token now db ≡ (ok c, db')
      → (e : Error) × (claim_job sha256 binding id body' user' request' token' now' db'
          ≡ (err e, db'))
  claim_job-once id body body' user user' request request' token token' now now' db c db' h =
      outcome_of (claim_job sha256 binding id body' user' request' token' now' db') refl
    where
      same : {A : Type 0} {o : Option A} {a b : A} → o ≡ some a → o ≡ some b → a ≡ b
      same h k = cc (h, k)

      running-not_pending : running ≡ pending → ⊥
      running-not_pending h = cc h

      outcome_of :
          (r : Result Claimed × Db)
          → claim_job sha256 binding id body' user' request' token' now' db' ≡ r
          → (e : Error) × (claim_job sha256 binding id body' user' request' token' now' db'
              ≡ (err e, db'))
      outcome_of (err e, d) k = (
        e,
        k ∙ ap (λ (x : Db). (err e, x)) (failed-kept id body' user' request' token' now' db' k),
      )
      outcome_of (ok c', d) k =
          let a = claim_job-granted id body user request token now db c db' h in
          let b = claim_job-granted id body' user' request' token' now' db' c' d k in
          absurd (
            running-not_pending (
              sym a.now_running
              ∙ ap (λ (j : ScanJob). j.status) (same a.left b.found)
              ∙ b.was_pending))

-- An attempt that no longer runs freely.
abbrev pub IsHalted : Option JobExecution → Type 0
IsHalted none = Unit
IsHalted (some x) = is_active x.state ≡ false

-- After an accepted stop-work the engagement has its stop time and no attempt of any of its jobs is
-- active.
pub engage_stop_work-halts :
    (program now : ℕ) (user : CurrentUser) (db : Db) (e : Engagement) (db' : Db) (j : ScanJob)
    → engage_stop_work program now user db ≡ (ok e, db')
    → j ∈ db'.jobs
    → (j.program_id == program) ≡ true
    → (is_some e.stop_work_at ≡ true)
      × (find_engagement program db'.engagements ≡ some e)
      × IsHalted j.execution
unfolding engage_stop_work find_engagement save_engagement
engage_stop_work-halts program now user db e db' j h m own =
    let (a, b, c) = stopped in (a, b, at-All IsHaltedIn m c own)
  where
    -- A job that the stop-work has reached.
    IsHaltedIn : ScanJob → Type 0
    IsHaltedIn j = (j.program_id == program) ≡ true → IsHalted j.execution

    or_now-is_some : (o : Option ℕ) → is_some (or_now o now) ≡ true
    or_now-is_some none = refl
    or_now-is_some (some t) = refl

    halted_state : (s : ExecutionState) → is_active (cancel_state s) ≡ false
    halted_state s = ground arith

    halts : (o : Option JobExecution) → IsHalted (cancel_active o)
    halts none = tt
    halts (some x) = halted_state x.state

    all_halted : (js : List ScanJob) → All IsHaltedIn (map (cancel_in program) js)
    all_halted [] = tt
    all_halted (j ∷ js) = (λ t. rw t (halts j.execution), all_halted js)

    stopped :
        (is_some e.stop_work_at ≡ true)
        × (find_engagement program db'.engagements ≡ some e)
        × All IsHaltedIn db'.jobs
    stopped =
        let h0 = transaction-eq_ok db _ h in
        let (x, got, h1) = bind_passed (get_engagement_or_404 program user db) _ h0 in
        let (_, _, h2) = bind_passed (require_member_write x user db) _ h1 in
        let found = get_engagement-found program user db got in
        subst
          (λ (r : Engagement × Db).
            (is_some r.0.stop_work_at ≡ true)
            × (find_engagement program r.1.engagements ≡ some r.0)
            × All IsHaltedIn r.1.jobs)
          (ok-injective h2)
          (
            or_now-is_some x.stop_work_at,
            first-write_first (λ y. y.id == program) _ x db.engagements found
                (first-mem (λ y. y.id == program) db.engagements found).1,
            all_halted db.jobs,
          )
