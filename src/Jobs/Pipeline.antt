-- ===== src/Jobs/Pipeline.antt =====
-- backend/routers/jobs.py: `create_pipeline`, which queues a chain of jobs.
use vardr_map.Base.{
  ℕ, suc, String, Bool, false, not, ◌&&◌, ◌||◌, Option, none, some, List, [], ◌∷◌, ◌++◌, leb, any,
  length, if◌then◌else◌, str_eq,
}
use vardr_map.Text.{Text}
use vardr_map.Json.{Value, Fields}
use vardr_map.Store.{
  ScanJob, Db, bad_request, unprocessable, Result, ok, ◌>>=◌, ◌>>◌, raise_if, Handler, transaction,
}
use vardr_map.Access.{CurrentUser, get_engagement_or_404, require_member_write}
use vardr_map.Budget.{vardrgate}
use vardr_map.Jobs.Create.{
  is_valid_tool, is_valid_source, validate_test_case_ref, job_config, new_job,
}
use vardr_map.Jobs.Pending.{oldest_first}

pub record PipelineStage : Type 0 where
  pub tool_type : String
  pub target_source : String
  pub config : Fields
  pub authorization_contract_required : Bool

pub record PipelineCreate : Type 0 where
  pub stages : List PipelineStage
  pub authorization_contract_required : Bool

module _ (repr : Value → Text) where
  abbrev pub validate_gate_stage : ℕ → String → Fields → Db → Result (Unit {0})
  validate_gate_stage program tool config db =
      if str_eq tool vardrgate then validate_test_case_ref repr program config db else ok tt

  -- The first loop: each stage with the config that will be stored.
  unfoldable pub validate_stages :
      ℕ → Option ℕ → Db → List PipelineStage → Result (List (PipelineStage × Fields))
  validate_stages program ceiling db [] = ok []
  validate_stages program ceiling db (stage ∷ stages) = do
    raise_if (not (is_valid_tool stage.tool_type)) bad_request
    raise_if (not (is_valid_source stage.target_source)) bad_request
    config ← job_config repr ceiling stage.tool_type stage.config
    validate_gate_stage program stage.tool_type config db
    others ← validate_stages program ceiling db stages
    ok ((stage, config) ∷ others)

  abbrev pub stage_job : ℕ → ℕ → PipelineStage → Fields → Option ℕ → ScanJob
  stage_job id program stage config previous =
      new_job repr id program
        (record {
          tool_type = stage.tool_type;
          target_source = stage.target_source;
          config = stage.config;
          depends_on = previous;
          authorization_contract_required = false;
        })
        config

  -- The second loop: each stage waits on the one before it. `ids` are the identifiers that the
  -- table draws, by the number of the stage.
  unfoldable pub stage_jobs :
      (ℕ → ℕ) → ℕ → ℕ → Option ℕ → List (PipelineStage × Fields) → List ScanJob
  stage_jobs ids n program previous [] = []
  stage_jobs ids n program previous ((stage, config) ∷ stages) =
      stage_job (ids n) program stage config previous
      ∷ stage_jobs ids (suc n) program (some (ids n)) stages

  -- `POST /engagements/{program_id}/pipelines`; the lengths are the request model's.
  unfoldable pub create_pipeline :
      ℕ → (ℕ → ℕ) → PipelineCreate → CurrentUser → Handler (List ScanJob)
  create_pipeline program ids body user db = transaction db do
    raise_if (not (leb 1 (length body.stages) && leb (length body.stages) 8)) unprocessable
    e ← get_engagement_or_404 program user db
    require_member_write e user db
    raise_if
        (body.authorization_contract_required
          || any (λ stage. stage.authorization_contract_required) body.stages)
        bad_request
    configs ← validate_stages program e.max_request_rate db body.stages
    let created = stage_jobs ids 0 program none configs
    ok (created, record db { jobs = oldest_first created ++ db.jobs })
