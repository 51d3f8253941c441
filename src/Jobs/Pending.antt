-- ===== src/Jobs/Pending.antt =====
-- backend/routers/jobs.py: `get_pending_jobs`, which hands the runner the jobs it may execute now
-- and fails those that never can. The table holds the newest job first.
use vardr_map.Base.{
  ℕ, Bool, true, false, not, ◌&&◌, Option, none, some, List, [], ◌∷◌, ◌++◌, ◌==◌, any, first, map,
  select, if◌then◌else◌, str_eq, is_some,
}
use vardr_map.Text.{Text, text, eqb}
use vardr_map.Json.{Value, truthy}
use vardr_map.Store.{
  AuthorizationTestCase, ScanJob, Status, pending, running, done, failed, Db, find_job,
}
use vardr_map.Access.{CurrentUser, accessible_engagement_ids}
use vardr_map.Budget.{vardrgate}
use vardr_map.Jobs.Targets.{case_ref}

-- What its parent says of a job.
pub data Dependency : Type 0 where
  satisfied waiting : Dependency
  broken : Text → Dependency

abbrev pub of_status : Status → Dependency
of_status done = satisfied
of_status failed = broken (text "upstream pipeline stage failed")
of_status pending = waiting
of_status running = waiting

abbrev pub of_parent : Option ScanJob → Dependency
of_parent none = broken (text "upstream pipeline stage not found")
of_parent (some parent) = of_status parent.status

-- One step of the loop of `_filter_by_dependencies`, with the table as it was queried before.
abbrev pub dependency_of : List ScanJob → Option ℕ → Dependency
dependency_of jobs none = satisfied
dependency_of jobs (some parent) = of_parent (find_job parent jobs)

abbrev pub fail_job : ℕ → Text → ScanJob → ScanJob
fail_job now message job = record job {
  status = failed;
  completed_at = some now;
  error_message = message;
}

abbrev pub is_pending : Status → Bool
is_pending pending = true
is_pending _ = false

-- The rows of the query of `get_pending_jobs`.
abbrev pub is_queried : List ℕ → ScanJob → Bool
is_queried programs job = any (λ p. p == job.program_id) programs && is_pending job.status

abbrev pub is_satisfied : Dependency → Bool
is_satisfied satisfied = true
is_satisfied _ = false

abbrev pub break_job : ℕ → Dependency → ScanJob → ScanJob
break_job now (broken message) job = fail_job now message job
break_job now _ job = job

-- `_filter_by_dependencies`: the jobs that may run, and the table with the broken ones failed.
abbrev pub settle_dependency : ℕ → List ℕ → List ScanJob → ScanJob → ScanJob
settle_dependency now programs jobs job =
    if is_queried programs job then break_job now (dependency_of jobs job.depends_on) job else job

abbrev pub is_eligible : List ℕ → List ScanJob → ScanJob → Bool
is_eligible programs jobs job =
    is_queried programs job && is_satisfied (dependency_of jobs job.depends_on)

-- `str((j.config or {}).get("test_case_id") or "")`, for the text that the config holds
abbrev pub stored_spec : List AuthorizationTestCase → ScanJob → Option Value
stored_spec cases job = case_spec (
    first
      (λ c.
        not (eqb c.id []) && (eqb c.id (case_ref job.config) && (c.program_id == job.program_id)))
      cases)
  where
    case_spec : Option AuthorizationTestCase → Option Value
    case_spec none = none
    case_spec (some c) = if truthy c.spec then some c.spec else none

abbrev pub is_gate : ScanJob → Bool
is_gate job = str_eq job.tool_type vardrgate

-- A job of the Gate whose case is gone.
abbrev pub is_orphan : List AuthorizationTestCase → ScanJob → Bool
is_orphan cases job = is_gate job && not (is_some (stored_spec cases job))

abbrev pub orphan_message : ScanJob → Text
orphan_message job =
    text "authorization test case "
    ++ ((if eqb (case_ref job.config) [] then text "(unset)" else case_ref job.config)
        ++ text " no longer exists")

-- One step of the loop of `_resolve_test_cases`.
abbrev pub settle_case : ℕ → List ℕ → List ScanJob → List AuthorizationTestCase → ScanJob → ScanJob
settle_case now programs jobs cases job =
    if is_eligible programs jobs job && is_orphan cases job
    then fail_job now (orphan_message job) job
    else job

-- A job as it is handed over, with the spec of its case.
pub record Handed : Type 0 where
  pub job : ScanJob
  pub spec : Option Value

abbrev pub handed_spec : List AuthorizationTestCase → ScanJob → Option Value
handed_spec cases job = if is_gate job then stored_spec cases job else none

abbrev pub oldest_first : List ScanJob → List ScanJob
oldest_first [] = []
oldest_first (j ∷ js) = oldest_first js ++ (j ∷ [])

-- `GET /jobs/pending`
unfoldable pub get_pending_jobs : ℕ → CurrentUser → Db → List Handed × Db
unfolding case_ref
get_pending_jobs now user db =
    let programs = accessible_engagement_ids user.github_id db in
    let eligible = select (is_eligible programs db.jobs) (oldest_first db.jobs) in
    (
      map (λ job. record { job = job; spec = handed_spec db.test_cases job })
          (select (λ job. not (is_orphan db.test_cases job)) eligible),
      record db {
        jobs =
            map
              (λ job.
                settle_case now programs db.jobs db.test_cases
                  (settle_dependency now programs db.jobs job))
              db.jobs;
      },
    )
