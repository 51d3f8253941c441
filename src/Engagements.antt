-- ===== src/Engagements.antt =====
-- backend/routers/engagements.py: stop-work, the three budget policies and deletion.
use vardr_map.Base.{
  ℕ, suc, Bool, true, false, not, ◌||◌, Option, none, some, ◌==◌, ltb, map, if◌then◌else◌, is_some,
  select,
}
use vardr_map.Store.{
  Engagement, ScanJob, JobExecution, Db, save_engagement, erase_first, conflict, Result, ok, ◌>>=◌,
  ◌>>◌, raise_if, Handler, transaction,
}
use vardr_map.Access.{
  CurrentUser, get_engagement_or_404, require_engagement_owner, require_member_write,
  require_full_scope,
}
use vardr_map.Budget.{require_idle, reserved}
use vardr_map.Jobs.Update.{cancel}

abbrev pub cancel_active : Option JobExecution → Option JobExecution
cancel_active none = none
cancel_active (some x) = some (cancel x)

-- Every active attempt of the engagement is asked to stop.
abbrev pub cancel_in : ℕ → ScanJob → ScanJob
cancel_in program j = record j {
  execution = if j.program_id == program then cancel_active j.execution else j.execution;
}

abbrev pub or_now : Option ℕ → ℕ → Option ℕ
or_now none now = some now
or_now (some t) now = some t

abbrev pub bump_unless : Bool → ℕ → ℕ
bump_unless b n = if b then n else suc n

-- `POST /engagements/{program_id}/stop-work`
unfoldable pub engage_stop_work : ℕ → ℕ → CurrentUser → Handler Engagement
engage_stop_work program now user db = transaction db do
  e ← get_engagement_or_404 program user db
  require_member_write e user db
  let e' = record e {
    stop_work_at = or_now e.stop_work_at now;
    managed_authority_revision = bump_unless (is_some e.stop_work_at) e.managed_authority_revision;
  }
  ok (
    e',
    record db {
      engagements = save_engagement program e' db.engagements;
      jobs = map (cancel_in program) db.jobs;
    },
  )

-- `DELETE /engagements/{program_id}/stop-work`
unfoldable pub release_stop_work : ℕ → CurrentUser → Handler Engagement
release_stop_work program user db = transaction db do
  e ← get_engagement_or_404 program user db
  require_engagement_owner e user
  let e' = record e {
    stop_work_at = none;
    managed_authority_revision =
        bump_unless (not (is_some e.stop_work_at)) e.managed_authority_revision;
  }
  ok (e', record db { engagements = save_engagement program e' db.engagements })

abbrev pub limit_eq : Option ℕ → Option ℕ → Bool
limit_eq none none = true
limit_eq (some a) (some b) = a == b
limit_eq _ _ = false

-- What is spent already may not pass the new limit, and forbids to have none.
abbrev pub falls_short : Option ℕ → ℕ → Bool
falls_short none used = not (used == 0)
falls_short (some limit) used = ltb limit used

-- The checks that the three policies share.
unfoldable pub idle_engagement : ℕ → CurrentUser → Db → Result Engagement
idle_engagement program user db = do
  require_full_scope user
  e ← get_engagement_or_404 program user db
  require_engagement_owner e user
  require_idle db.jobs program
  ok e

-- `PUT /engagements/{program_id}/concurrency-policy`
unfoldable pub configure_concurrency : ℕ → Option ℕ → CurrentUser → Handler Engagement
configure_concurrency program limit user db = transaction db do
  e ← idle_engagement program user db
  let e' = record e {
    managed_authority_revision =
        bump_unless (limit_eq e.concurrency_limit limit) e.managed_authority_revision;
    concurrency_limit = limit;
  }
  ok (e', record db { engagements = save_engagement program e' db.engagements })

-- `PUT /engagements/{program_id}/target-policy`
unfoldable pub configure_targets : ℕ → Option ℕ → CurrentUser → Handler Engagement
configure_targets program limit user db = transaction db do
  e ← idle_engagement program user db
  raise_if (falls_short limit e.targets_spent) conflict
  let e' = record e {
    managed_authority_revision =
        bump_unless (limit_eq e.target_limit limit) e.managed_authority_revision;
    target_limit = limit;
  }
  ok (e', record db { engagements = save_engagement program e' db.engagements })

-- `PUT /engagements/{program_id}/duration-policy`
unfoldable pub configure_duration : ℕ → Option ℕ → CurrentUser → Handler Engagement
configure_duration program limit user db = transaction db do
  e ← idle_engagement program user db
  raise_if (falls_short limit e.duration_allocated) conflict
  let e' = record e {
    managed_authority_revision =
        bump_unless (limit_eq e.duration_limit limit) e.managed_authority_revision;
    duration_limit = limit;
  }
  ok (e', record db { engagements = save_engagement program e' db.engagements })

-- The database without an engagement and the rows that its relationships delete along with it.
abbrev pub without_engagement : ℕ → Db → Db
without_engagement program db = record db {
  engagements = erase_first (λ x. x.id == program) db.engagements;
  jobs = select (λ row. not (row.program_id == program)) db.jobs;
  members = select (λ row. not (row.program_id == program)) db.members;
  authorizations = select (λ row. not (row.program_id == program)) db.authorizations;
  scope_items = select (λ row. not (row.program_id == program)) db.scope_items;
  recon_items = select (λ row. not (row.program_id == program)) db.recon_items;
  test_cases = select (λ row. not (row.program_id == program)) db.test_cases;
}

-- `DELETE /engagements/{program_id}`
unfoldable pub delete_engagement : ℕ → CurrentUser → Handler (Unit {0})
delete_engagement program user db = transaction db do
  e ← get_engagement_or_404 program user db
  require_engagement_owner e user
  if is_some e.concurrency_limit || ltb 0 (reserved db.jobs program)
      then require_idle db.jobs program
      else ok tt
  raise_if (ltb 0 e.targets_spent) conflict
  raise_if (ltb 0 e.duration_allocated) conflict
  ok (tt, without_engagement program db)
