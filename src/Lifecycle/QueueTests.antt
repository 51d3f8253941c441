-- ===== src/Lifecycle/QueueTests.antt =====
-- A pipeline and a poll of routers/jobs.py, on the database of the other runs.
use vardr_map.Base.{
  ℕ, ◌+◌, ◌≡◌, ◌↔◌, ◌⊎◌, refl, false, none, some, [], ◌∷◌, ◌++◌, String, ◌∈◌, here, there,
}
use vardr_map.Json.{Fields}
use vardr_map.Store.{Db, Engagement, ScanJob, Status, pending, done, find_engagement, ok}
use vardr_map.Jobs.Create.{is_valid_tool, job_config}
use vardr_map.Jobs.Config.Rate.{enforce_rate_ceiling}
use vardr_map.Jobs.Pending.{oldest_first, get_pending_jobs}
use vardr_map.Jobs.Pipeline.{
  PipelineStage, PipelineCreate, validate_stages, stage_jobs, create_pipeline,
}
use vardr_map.Lifecycle.Ready.{jobs_of, IsAccessible, IsReady, IsWaiting}
use vardr_map.Lifecycle.Handoff.{get_pending_jobs-IsReady_iff, get_pending_jobs-settled}
use vardr_map.Lifecycle.Stages.{Chain, StandAll, create_pipeline-Chain}
use vardr_map.Lifecycle.Tests.{no_repr, job, start, owner, map_states, claiming}

-- A chain of two stages, one job whose parent failed, and a poll.
abbrev stage : String → PipelineStage
stage tool = record {
  tool_type = tool;
  target_source = "scope";
  config = Fields.end;
  authorization_contract_required = false;
}

abbrev chain : PipelineCreate
chain = record {
  stages = stage "subfinder" ∷ stage "httpx" ∷ [];
  authorization_contract_required = false;
}

abbrev ids : ℕ → ℕ
ids n = 20 + n

abbrev stage_20 : ScanJob
stage_20 = record (job 20 pending) { tool_type = "subfinder" }

abbrev stage_21 : ScanJob
stage_21 = record (job 21 pending) { depends_on = some 20 }

abbrev after_chain : Db
after_chain = record start { jobs = stage_21 ∷ stage_20 ∷ start.jobs }

creates_chain :
    create_pipeline no_repr 1 ids chain owner start ≡ (ok (stage_20 ∷ stage_21 ∷ []), after_chain)
unfolding claiming create_pipeline validate_stages stage_jobs is_valid_tool job_config
    enforce_rate_ceiling
creates_chain = refl

create_pipeline-Chain_example :
    Chain 1 none (stage_20 ∷ stage_21 ∷ [])
    × (after_chain ≡ record start { jobs = oldest_first (stage_20 ∷ stage_21 ∷ []) ++ start.jobs })
    × ((e : Engagement) × (find_engagement 1 start.engagements ≡ some e)
        × StandAll no_repr e.max_request_rate chain.stages (stage_20 ∷ stage_21 ∷ []))
create_pipeline-Chain_example =
    create_pipeline-Chain no_repr 1 ids chain owner start after_chain (stage_20 ∷ stage_21 ∷ [])
      creates_chain

abbrev orphaned : ScanJob
orphaned = record (job 22 pending) { depends_on = some 99 }

abbrev before_poll : Db
before_poll = record after_chain { jobs = orphaned ∷ after_chain.jobs }

-- The poll hands out the oldest first, holds the second stage, and fails the job without a parent.
polls :
    (jobs_of (get_pending_jobs 100 owner before_poll).0
      ≡ job 11 pending ∷ job 10 pending ∷ stage_20 ∷ [])
    × (map_states (get_pending_jobs 100 owner before_poll).1.jobs
        ≡ Status.failed ∷ pending ∷ pending ∷ pending ∷ pending ∷ done ∷ [])
unfolding claiming get_pending_jobs
polls = (refl, refl)

get_pending_jobs-IsReady_iff_example :
    (stage_20 ∈ jobs_of (get_pending_jobs 100 owner before_poll).0)
    ↔ ((stage_20 ∈ before_poll.jobs) × IsReady owner before_poll stage_20)
get_pending_jobs-IsReady_iff_example = get_pending_jobs-IsReady_iff owner before_poll 100 stage_20

stage_21-stays : stage_21 ∈ (get_pending_jobs 100 owner before_poll).1.jobs
unfolding claiming get_pending_jobs
stage_21-stays = there here

stage_21-seen : IsAccessible owner before_poll stage_21
unfolding claiming
stage_21-seen = refl

get_pending_jobs-settled_example :
    (stage_21 ∈ before_poll.jobs)
    × ((stage_21 ∈ jobs_of (get_pending_jobs 100 owner before_poll).0)
        ⊎ IsWaiting before_poll stage_21)
get_pending_jobs-settled_example =
    get_pending_jobs-settled owner before_poll 100 stage_21 stage_21-stays refl stage_21-seen
