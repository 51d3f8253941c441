-- ===== src/Lifecycle/Tests.antt =====
-- Runs of routers/jobs.py and routers/engagements.py on a small database.
use vardr_map.Base.{
  ℕ, ◌+◌, ◌≤◌, ◌<◌, ◌≡◌, ◌↔◌, ◌⊎◌, refl, true, false, Option, none, some, List, [], ◌∷◌, arith,
  is_some, All, ◌∈◌, here, there, map,
}
use vardr_map.Text.{Text, text}
use vardr_map.Policy.Decision.{
  evaluate_all, evaluate_engagement, check_authorization, evaluate_targets, as_utc,
}
use vardr_map.Enforcement.{
  check, outcome, build_input, authorization, latest, scope_rules, as_warnings,
}
use vardr_map.Jobs.Targets.{resolve_targets, scope_targets, recon_targets, limited, dedup_texts}
use vardr_map.Json.{Value, Fields}
use vardr_map.Store.{
  Db, Engagement, ScanJob, JobExecution, TargetBinding, Status, pending, running, done,
  ExecutionState, active, find_engagement, find_job, Error, not_found, ok, err, transaction,
  save_job, save_engagement,
}
use vardr_map.Access.{CurrentUser, accessing, get_engagement_or_404, require_member_write}
use vardr_map.Budget.{
  ClaimControl, reserved, before_claim, allocate, allocate_seconds, charge, charge_bound,
}
use vardr_map.Budget.Binding.{binding}
use vardr_map.Execution.{Request, ControlRequest, accessible_job, issue, owned, check_owned}
use vardr_map.Jobs.Update.{writable_engagement, update_job, parse_status, change_status, may_become}
use vardr_map.Jobs.Claim.{claim_job, claim_pending, Claimed, take_snapshot}
use vardr_map.Jobs.Control.{
  Action, Outcome, finish, refresh, continue, refresh_execution, observed_state, finish_execution,
  owned_writable, settle,
}
use vardr_map.Engagements.{engage_stop_work}
use vardr_map.Lifecycle.Row.{IsSound}
use vardr_map.Lifecycle.Effect.{Within}
use vardr_map.Lifecycle.Bounds.{WithinCapacity}
use vardr_map.Lifecycle.Calls.{Call, claim, report, stop_work, patch, Event, perform, run}
use vardr_map.Lifecycle.Run.{run-IsSound, run-final, run-WithinCapacity, run-Within}
use vardr_map.Lifecycle.Claims.{
  claim_job-granted, ClaimedRow, claim_job-once, IsHalted, engage_stop_work-halts,
}
use vardr_map.Lifecycle.Controller.{IsController}
use vardr_map.Lifecycle.Control.{refresh_execution-continue_iff, finish_execution-completed_iff}

abbrev hash : ℕ → ℕ
hash token = token + 1

abbrev pub no_repr : Value → Text
no_repr v = []

abbrev case_binding : Value → Option TargetBinding
case_binding = binding (λ case. text "sha256:0")

abbrev pub engagement : Engagement
engagement = record {
  id = 1;
  owner_github_id = 7;
  org_id = none;
  engagement_type = "bug_bounty";
  engagement_status = "active";
  stop_work_at = none;
  max_request_rate = none;
  concurrency_limit = some 1;
  target_limit = none;
  targets_spent = 0;
  duration_limit = some 100;
  duration_allocated = 0;
  managed_authority_revision = 0;
}

abbrev pub job : ℕ → Status → ScanJob
job id status = record {
  id = id;
  program_id = 1;
  tool_type = "httpx";
  target_source = "scope";
  config = Fields.end;
  case_snapshot = none;
  managed_approval_id = none;
  authorization_contract_required = false;
  status = status;
  depends_on = none;
  started_at = none;
  completed_at = none;
  error_message = [];
  execution = none;
}

abbrev pub start : Db
start = record {
  org_members = [];
  members = [];
  authorizations = [];
  scope_items = [];
  recon_items = [];
  test_cases = [];
  engagements = engagement ∷ [];
  jobs = job 10 pending ∷ job 11 pending ∷ job 12 done ∷ [];
}

abbrev pub owner : CurrentUser
owner = record { github_id = 7; scope = "full" }

abbrev request : Request
request = record { api_key_hash = some 5 }

abbrev body : ClaimControl
body = record {
  runner_id = 3;
  origin = text "http://127.0.0.1:9000";
  concurrency_budget = true;
  target_binding = none;
  duration_seconds = some 30;
}

abbrev attempt : JobExecution
attempt = record {
  runner_id = 3;
  origin = text "http://127.0.0.1:9000";
  owner = 7;
  principal_hash = 5;
  token_hash = 43;
  expires_at = 110;
  state = active;
  capacity_reserved = true;
  target_charge = 0;
  target_binding = none;
  duration_seconds = 30;
}

abbrev claimed_job : ScanJob
claimed_job = record (job 10 pending) {
  status = running;
  started_at = some 100;
  execution = some attempt;
}

abbrev after_claim : Db
after_claim = record start {
  engagements = record engagement { duration_allocated = 30 } ∷ [];
  jobs = claimed_job ∷ job 11 pending ∷ job 12 done ∷ [];
}

abbrev at : ℕ → Call → Event
at now call = record { call = call; user = owner; request = request; now = now }

abbrev events : List Event
events =
    at 100 (claim 10 (some body) 42)
    ∷ at 101 (claim 11 (some body) 43)
    ∷ at 105 (report 10 Outcome.completed (record { claim = body; token = 42 }))
    ∷ at 106 (claim 11 (some body) 44)
    ∷ at 107 (stop_work 1)
    ∷ at 108 (patch 12 "pending" none)
    ∷ []

-- The bundle that a claim evaluates.
unfoldable pub claiming : Unit {0}
unfolding accessing transaction find_job find_engagement save_job save_engagement accessible_job
    get_engagement_or_404 require_member_write writable_engagement claim_job claim_pending
    before_claim reserved take_snapshot charge charge_bound allocate allocate_seconds issue
    resolve_targets scope_targets recon_targets limited dedup_texts check outcome evaluate_all
    evaluate_engagement check_authorization evaluate_targets build_input authorization latest
    scope_rules as_utc as_warnings
claiming = tt

abbrev pub map_states : List ScanJob → List Status
map_states js = map (λ j. j.status) js

abbrev granted : Claimed
granted = record { job = claimed_job; warnings = [] }

claims_pending :
    claim_job hash case_binding 10 (some body) owner request 42 100 start
    ≡ (ok granted, after_claim)
unfolding claiming
claims_pending = refl

-- Two claims run into the limit of one attempt, a report frees its place, and stop-work refuses.
runs_events :
    map_states (run no_repr hash case_binding events start).jobs ≡ done ∷ running ∷ done ∷ []
unfolding claiming perform finish_execution owned_writable owned check_owned finish settle
    engage_stop_work update_job parse_status change_status may_become
runs_events = refl

start-IsSound : All IsSound start.jobs
start-IsSound = (tt, (tt, (tt, tt)))

start-Within : All Within start.engagements
start-Within = (record { targets = λ limit h. omega arith; duration = λ limit h. omega arith }, tt)

none_reserved : (program limit : ℕ) → reserved start.jobs program ≤ limit
unfolding reserved
none_reserved program limit = ground arith

start-WithinCapacity : WithinCapacity start.jobs start.engagements
start-WithinCapacity = record { bound = λ program e limit found h. none_reserved program limit }

run-WithinCapacity_example :
    WithinCapacity
      (run no_repr hash case_binding events start).jobs
      (run no_repr hash case_binding events start).engagements
run-WithinCapacity_example =
    run-WithinCapacity no_repr hash case_binding events start start-WithinCapacity

run-Within_example : All Within (run no_repr hash case_binding events start).engagements
run-Within_example = run-Within no_repr hash case_binding events start start-Within

run-IsSound_example : All IsSound (run no_repr hash case_binding events start).jobs
run-IsSound_example = run-IsSound no_repr hash case_binding events start start-IsSound

run-final_example : job 12 done ∈ (run no_repr hash case_binding events start).jobs
run-final_example =
    run-final no_repr hash case_binding events start (job 12 done) start-IsSound
      (there (there here)) refl (refl, (refl, (refl, (refl, (refl, (refl, tt))))))

claim_job-granted_example : ClaimedRow 10 granted start after_claim
claim_job-granted_example =
    claim_job-granted hash case_binding 10 (some body) owner request 42 100 start granted
      after_claim claims_pending

claim_job-once_example :
    (e : Error) × (claim_job hash case_binding 10 none owner request 44 101 after_claim
      ≡ (err e, after_claim))
claim_job-once_example =
    claim_job-once hash case_binding 10 (some body) none owner owner request request 42 44 100 101
      start granted after_claim claims_pending

abbrev stopped_engagement : Engagement
stopped_engagement = record engagement {
  stop_work_at = some 107;
  duration_allocated = 30;
  managed_authority_revision = 1;
}

abbrev halted_job : ScanJob
halted_job = record claimed_job {
  execution = some (record attempt { state = ExecutionState.cancel_requested });
}

abbrev after_stop : Db
after_stop = record after_claim {
  engagements = stopped_engagement ∷ [];
  jobs = halted_job ∷ job 11 pending ∷ job 12 done ∷ [];
}

stops : engage_stop_work 1 107 owner after_claim ≡ (ok stopped_engagement, after_stop)
unfolding claiming engage_stop_work
stops = refl

engage_stop_work-halts_example :
    (is_some stopped_engagement.stop_work_at ≡ true)
    × (find_engagement 1 after_stop.engagements ≡ some stopped_engagement)
    × IsHalted halted_job.execution
engage_stop_work-halts_example =
    engage_stop_work-halts 1 107 owner after_claim stopped_engagement after_stop halted_job stops
      here refl

abbrev control_body : ControlRequest
control_body = record { claim = body; token = 42 }

-- The lease goes on before its end, and not with another token or after it.
refreshes :
    ((refresh_execution hash 10 owner request control_body 109 after_claim).0 ≡ ok continue)
    × ((refresh_execution hash 10 owner request
          (record control_body { token = 43 })
          109
          after_claim).0
        ≡ err not_found)
    × ((refresh_execution hash 10 owner request control_body 110 after_claim).0 ≡ ok Action.cancel)
unfolding claiming refresh_execution owned_writable owned check_owned refresh observed_state
refreshes = (refl, refl, refl)

refresh_execution-continue_iff_example :
    ((refresh_execution hash 10 owner request control_body 109 after_claim).0 ≡ ok continue) ↔ (
      (j : ScanJob) × (x : JobExecution) × (e : Engagement) × IsController hash 10 owner request
        control_body after_claim j x e
      × (x.state ≡ active)
      × (109 < x.expires_at)
      × (is_some e.stop_work_at ≡ false)
      × (j.status ≡ running))
refresh_execution-continue_iff_example =
    refresh_execution-continue_iff hash 10 owner request control_body after_claim 109

finish_execution-completed_iff_example :
    ((finish_execution hash 10 Outcome.completed owner request control_body 109 after_claim).0
      ≡ ok ExecutionState.completed)
    ↔ ((j : ScanJob) × (x : JobExecution) × (e : Engagement) × IsController hash 10 owner request
          control_body after_claim j x e
        × ((x.state ≡ ExecutionState.completed)
            ⊎ ((x.state ≡ active) × (109 < x.expires_at) × (is_some e.stop_work_at ≡ false))))
finish_execution-completed_iff_example =
    finish_execution-completed_iff hash 10 owner request control_body after_claim 109
