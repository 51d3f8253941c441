-- ===== src/Lifecycle/Handlers.antt =====
-- Each call of routers/jobs.py as an effect on the database.
use mathlib.Core.Path.{subst}
use vardr_map.Base.{
  ℕ, suc, ◌≤◌, ◌≡◌, refl, ap, ◌∙◌, Bool, false, not, ◌&&◌, ◌||◌, Option, some, List, [], ◌∷◌,
  str_eq, arith, ◌==◌, String, if◌then◌else◌, is_some,
}
use vardr_map.Text.{Text, eqb}
use vardr_map.Json.{Value}
use vardr_map.Store.{
  Db, Engagement, ScanJob, JobExecution, TargetBinding, Status, pending, find_job, find_engagement,
  bad_request, not_found, conflict, Result, ok, err, raise_if, or_raise, ok-injective, bind_passed,
}
use vardr_map.Store.Laws.{first-mem}
use vardr_map.Access.{CurrentUser, get_engagement_or_404, require_member_write, require_full_scope}
use vardr_map.Policy.Decision.{Reason, aware}
use vardr_map.Enforcement.{check}
use vardr_map.Jobs.Targets.{resolve_targets}
use vardr_map.Jobs.Create.{
  JobCreate, create_job, is_valid_tool, is_valid_source, job_config, validate_test_case_ref,
  validate_dependency, new_job,
}
use vardr_map.Budget.{vardrgate, ClaimControl, reserves, reserved}
use vardr_map.Execution.{principal, Request, ControlRequest, accessible_job, owned, check_owned}
use vardr_map.Jobs.Update.{
  update_job, delete_job, writable_engagement, update_row, parse_status, JobReply, status_eq,
  is_final,
}
use vardr_map.Jobs.Claim.{claim_job, claim_pending, Claimed, is_managed}
use vardr_map.Jobs.Control.{
  refresh_execution, finish_execution, finish_owned, Outcome, Action, owned_writable,
}
use vardr_map.Lifecycle.Row.{update_row-Keeps}
use vardr_map.Lifecycle.Lease.{refresh-Keeps, finish-Keeps}
use vardr_map.Lifecycle.Effect.{Effect, unchanged, row, claims, adds, removes}
use vardr_map.Lifecycle.Granting.{Granted, claim_pending-Granted}
use vardr_map.Lifecycle.Inversion.{
  transaction-cases, raise_if-eq_ok, or_raise-eq_ok, accessible_job-found,
  writable_engagement-found,
}

pub create_job-Effect :
    {gone : ScanJob → Bool} (repr : Value → Text) (program id : ℕ) (body : JobCreate) (now : ℕ)
    (user : CurrentUser) (db : Db)
    → Effect gone db (create_job repr program id body now user db).1
unfolding create_job
create_job-Effect {gone} repr program id body now user db =
    transaction-cases (Effect gone db) db _ (unchanged refl) λ a h.
      let (e, _, h1) = bind_passed (get_engagement_or_404 program user db) _ h in
      let (_, _, h2) = bind_passed (require_member_write e user db) _ h1 in
      let (_, _, h3) =
        bind_passed (raise_if (not (is_valid_tool body.tool_type)) bad_request) _ h2 in
      let (_, _, h4) =
        bind_passed
          (raise_if (body.authorization_contract_required && not (str_eq body.tool_type vardrgate))
            bad_request)
          _ h3 in
      let (_, _, h5) =
        bind_passed (raise_if (not (is_valid_source body.target_source)) bad_request) _ h4 in
      let (config, _, h6) =
        bind_passed (job_config repr e.max_request_rate body.tool_type body.config) _ h5 in
      let (_, _, h7) =
        bind_passed
          (if str_eq body.tool_type vardrgate
            then validate_test_case_ref repr program config db
            else ok tt)
          _ h6 in
      let (_, _, h8) = bind_passed (validate_dependency body.depends_on program user db) _ h7 in
      let (finding, _, h9) =
        bind_passed
          (check db e body.tool_type (resolve_targets program body.target_source config db)
            (aware now))
          _ h8 in
      subst (λ (r : (ScanJob × List Reason) × Db). Effect gone db r.1) (ok-injective h9)
        (adds (new_job repr id program body config ∷ []) (tt, tt) (refl, tt) refl)

pub update_job-Effect :
    {gone : ScanJob → Bool} (id : ℕ) (status : String) (message : Option Text) (now : ℕ)
    (user : CurrentUser) (db : Db)
    → Effect gone db (update_job id status message now user db).1
unfolding update_job
update_job-Effect {gone} id status message now user db =
    transaction-cases (Effect gone db) db _ (unchanged refl) λ a h.
      let (job, seen, h1) = bind_passed (or_raise (accessible_job id user db) not_found) _ h in
      let (status', _, h2) = bind_passed (or_raise (parse_status status) bad_request) _ h1 in
      let (_, _, h3) = bind_passed (writable_engagement job user db) _ h2 in
      let (reply, written, h4) =
        bind_passed (update_row job.execution job user status' message now) _ h3 in
      subst (λ (r : JobReply × Db). Effect gone db r.1) (ok-injective h4)
        (row id job reply.0 (accessible_job-found id user db seen)
          (update_row-Keeps job user status' message now written) refl)

pub delete_job-Effect :
    (id : ℕ) (user : CurrentUser) (db : Db) → Effect (λ j. j.id == id) db (delete_job id user db).1
unfolding delete_job
delete_job-Effect id user db =
    transaction-cases (Effect (λ j. j.id == id) db) db _ (unchanged refl) λ a h.
      let (_, _, h1) = bind_passed (require_full_scope user) _ h in
      let (job, _, h2) = bind_passed (or_raise (accessible_job id user db) not_found) _ h1 in
      let (_, _, h3) = bind_passed (raise_if (reserves job.execution) conflict) _ h2 in
      let (_, _, h4) = bind_passed (writable_engagement job user db) _ h3 in
      subst (λ (r : Unit {0} × Db). Effect (λ j. j.id == id) db r.1) (ok-injective h4)
        (removes id refl refl)

pending-open : (s : Status) → not (status_eq s pending) ≡ false → is_final s ≡ false
pending-open s h = ground arith

module _ (sha256 : ℕ → ℕ) (binding : Value → Option TargetBinding) where
  pub claim_job-Effect :
      {gone : ScanJob → Bool} (id : ℕ) (body : Option ClaimControl) (user : CurrentUser)
      (request : Request) (token now : ℕ) (db : Db)
      → Effect gone db (claim_job sha256 binding id body user request token now db).1
  unfolding claim_job find_engagement
  claim_job-Effect {gone} id body user request token now db =
      transaction-cases (Effect gone db) db _ (unchanged refl) λ a h.
        let (job, seen, h1) = bind_passed (or_raise (accessible_job id user db) not_found) _ h in
        let (e, got, h2) = bind_passed (writable_engagement job user db) _ h1 in
        let (_, _, h3) = bind_passed (raise_if (is_managed job) conflict) _ h2 in
        let (_, open_, h4) =
          bind_passed (raise_if (not (status_eq job.status pending)) conflict) _ h3 in
        let (r, granted, h5) =
          bind_passed (claim_pending sha256 binding job e body user request token now db) _ h4 in
        let g : Granted job e db.jobs r.0.job r.1 =
          claim_pending-Granted sha256 binding job e body user request token now db granted in
        let found = writable_engagement-found job user db got in
        let is_own : e.id ≡ job.program_id =
          let t = (first-mem (λ x. x.id == job.program_id) db.engagements found).1 in
          ground arith in
        subst (λ (r : Claimed × Db). Effect gone db r.1) (ok-injective h5)
          (claims id job r.0.job e r.1 (accessible_job-found id user db seen) found
            (record {
              same_program = g.same_program;
              open_before = pending-open job.status (raise_if-eq_ok _ conflict open_);
              sound = g.sound;
            })
            (λ limit c. subst (λ p. suc (reserved db.jobs p) ≤ limit) is_own (g.room limit c))
            g.charged.same_id g.charged.same_limit g.charged.within refl)

-- The job and the attempt that an owner addresses.
check_owned-eq :
    (sha256 : ℕ → ℕ) (x : JobExecution) (user : CurrentUser) (request : Request)
    (body : ControlRequest) {y : JobExecution}
    → check_owned sha256 x user request body ≡ ok y
    → x ≡ y
unfolding check_owned
check_owned-eq sha256 x user request body h =
    let (_, _, h1) =
      bind_passed
        (raise_if
          (not (x.owner == user.github_id)
            || not (x.runner_id == body.claim.runner_id)
            || not (eqb x.origin body.claim.origin))
          not_found)
        _ h in
    let (p, _, h2) = bind_passed (principal request) _ h1 in
    let (_, _, h3) =
      bind_passed
        (raise_if (not (x.principal_hash == p) || not (x.token_hash == sha256 body.token))
          not_found)
        _ h2 in
    ok-injective h3

abbrev Addressed : ℕ → Db → ScanJob × JobExecution × Engagement → Type 0
Addressed id db (job, x, e) = (find_job id db.jobs ≡ some job) × (job.execution ≡ some x)

owned-found :
    (sha256 : ℕ → ℕ) (id : ℕ) (user : CurrentUser) (request : Request) (body : ControlRequest)
    (db : Db) {r : ScanJob × JobExecution × Engagement}
    → owned_writable sha256 id user request body db ≡ ok r
    → Addressed id db r
unfolding owned_writable owned
owned-found sha256 id user request body db h =
    let (pair, got, h1) = bind_passed (owned sha256 id user request body db) _ h in
    let (job, seen, k1) = bind_passed (or_raise (accessible_job id user db) not_found) _ got in
    let (x, has, k2) = bind_passed (or_raise job.execution not_found) _ k1 in
    let (checked, passed, k3) = bind_passed (check_owned sha256 x user request body) _ k2 in
    let (e, _, h2) = bind_passed (writable_engagement pair.0 user db) _ h1 in
    let (_, _, h3) = bind_passed (raise_if (is_managed pair.0) conflict) _ h2 in
    let found = accessible_job-found id user db seen in
    let same : some x ≡ some checked =
      ap (λ (y : JobExecution). some y) (check_owned-eq sha256 x user request body passed) in
    let here_ : Addressed id db (job, checked, e) =
      (found, or_raise-eq_ok job.execution not_found has ∙ same) in
    let pair_ : Addressed id db (pair.0, pair.1, e) =
      subst (λ (q : ScanJob × JobExecution). Addressed id db (q.0, q.1, e)) (ok-injective k3)
        here_ in
    subst (Addressed id db) (ok-injective h3) pair_

module _ (sha256 : ℕ → ℕ) where
  pub refresh_execution-Effect :
      {gone : ScanJob → Bool} (id : ℕ) (user : CurrentUser) (request : Request)
      (body : ControlRequest) (now : ℕ) (db : Db)
      → Effect gone db (refresh_execution sha256 id user request body now db).1
  unfolding refresh_execution
  refresh_execution-Effect {gone} id user request body now db =
      transaction-cases (Effect gone db) db _ (unchanged refl) λ a h.
        let (r, got, h1) = bind_passed (owned_writable sha256 id user request body db) _ h in
        let (job, x, e) = r in
        let (found, has) = owned-found sha256 id user request body db got in
        subst (λ (r : Action × Db). Effect gone db r.1) (ok-injective h1)
          (row id job _ found (refresh-Keeps job x (is_some e.stop_work_at) now has) refl)

  finish_owned-Effect :
      {gone : ScanJob → Bool} (id : ℕ) (outcome : Outcome) (now : ℕ) (db : Db)
      (r : Result (ScanJob × JobExecution × Engagement))
      → ((t : ScanJob × JobExecution × Engagement) → r ≡ ok t → Addressed id db t)
      → Effect gone db (finish_owned sha256 id outcome now db r).1
  finish_owned-Effect id outcome now db (err e) h = unchanged refl
  finish_owned-Effect id outcome now db (ok (job, x, e)) h =
      let (found, has) = h (job, x, e) refl in
      row id job _ found (finish-Keeps job x outcome (is_some e.stop_work_at) now has) refl

  pub finish_execution-Effect :
      {gone : ScanJob → Bool} (id : ℕ) (outcome : Outcome) (user : CurrentUser) (request : Request)
      (body : ControlRequest) (now : ℕ) (db : Db)
      → Effect gone db (finish_execution sha256 id outcome user request body now db).1
  unfolding finish_execution
  finish_execution-Effect id outcome user request body now db =
      finish_owned-Effect id outcome now db _ (λ t. owned-found sha256 id user request body db)
