-- ===== src/Lifecycle/Stages.antt =====
-- The chain of jobs that `create_pipeline` of backend/routers/jobs.py makes.
use mathlib.Core.Path.{subst}
use vardr_map.Base.{
  ℕ, suc, ◌≡◌, refl, not, ◌&&◌, ◌||◌, Option, none, some, List, [], ◌∷◌, ◌++◌, any, length, leb,
}
use vardr_map.Json.{Value, Fields}
use vardr_map.Text.{Text}
use vardr_map.Store.{
  Db, Engagement, ScanJob, pending, bad_request, unprocessable, ok, raise_if, find_engagement,
  ok-injective, bind_passed,
}
use vardr_map.Access.{CurrentUser, get_engagement_or_404, require_member_write}
use vardr_map.Jobs.Create.{is_valid_tool, is_valid_source, job_config}
use vardr_map.Jobs.Pending.{oldest_first}
use vardr_map.Jobs.Pipeline.{
  PipelineStage, PipelineCreate, validate_gate_stage, validate_stages, stage_jobs, create_pipeline,
}
use vardr_map.Store.Laws.{transaction-eq_ok}
use vardr_map.Lifecycle.Inversion.{get_engagement-found}

-- A chain of new jobs: each is pending, unclaimed, of the engagement, and waits on the one before.
pub data Chain (program : ℕ) : Option ℕ → List ScanJob → Type 0 where
  stop : {previous : Option ℕ} → Chain program previous []
  link :
      {previous : Option ℕ} {j : ScanJob} {js : List ScanJob}
      → j.program_id ≡ program
      → j.status ≡ pending
      → j.execution ≡ none
      → j.depends_on ≡ previous
      → Chain program (some j.id) js
      → Chain program previous (j ∷ js)

module _ (repr : Value → Text) where
  stage_jobs-Chain :
      (ids : ℕ → ℕ) (n program : ℕ) (previous : Option ℕ) (stages : List (PipelineStage × Fields))
      → Chain program previous (stage_jobs repr ids n program previous stages)
  unfolding stage_jobs
  stage_jobs-Chain ids n program previous [] = stop
  stage_jobs-Chain ids n program previous ((stage, config) ∷ stages) =
      link refl refl refl refl (stage_jobs-Chain ids (suc n) program (some (ids n)) stages)

  -- A job and the stage that it stands for, in an engagement with this ceiling.
  abbrev pub Stands : Option ℕ → PipelineStage → ScanJob → Type 0
  Stands ceiling stage job =
      (job.tool_type ≡ stage.tool_type)
      × (job.target_source ≡ stage.target_source)
      × (job_config repr ceiling stage.tool_type stage.config ≡ ok job.config)

  abbrev pub StandAll : Option ℕ → List PipelineStage → List ScanJob → Type 0
  StandAll ceiling [] [] = Unit
  StandAll ceiling (stage ∷ stages) (job ∷ jobs) =
      Stands ceiling stage job × StandAll ceiling stages jobs
  StandAll ceiling _ _ = ⊥

  validate_stages-StandAll :
      (ids : ℕ → ℕ) (n program : ℕ) (previous ceiling : Option ℕ) (db : Db)
      (stages : List PipelineStage) {configs : List (PipelineStage × Fields)}
      → validate_stages repr program ceiling db stages ≡ ok configs
      → StandAll ceiling stages (stage_jobs repr ids n program previous configs)
  unfolding validate_stages stage_jobs
  validate_stages-StandAll ids n program previous ceiling db [] h =
      subst (λ c. StandAll ceiling [] (stage_jobs repr ids n program previous c)) (ok-injective h)
        tt
  validate_stages-StandAll ids n program previous ceiling db (stage ∷ stages) h =
      let (_, _, h1) =
        bind_passed (raise_if (not (is_valid_tool stage.tool_type)) bad_request) _ h in
      let (_, _, h2) =
        bind_passed (raise_if (not (is_valid_source stage.target_source)) bad_request) _ h1 in
      let (config, made, h3) =
        bind_passed (job_config repr ceiling stage.tool_type stage.config) _ h2 in
      let (_, _, h4) =
        bind_passed (validate_gate_stage repr program stage.tool_type config db) _ h3 in
      let (others, rest, h5) = bind_passed (validate_stages repr program ceiling db stages) _ h4 in
      subst (λ c. StandAll ceiling (stage ∷ stages) (stage_jobs repr ids n program previous c))
        (ok-injective h5)
        (
          (refl, refl, made),
          validate_stages-StandAll ids (suc n) program (some (ids n)) ceiling db stages rest,
        )

  -- A pipeline that is accepted adds one job for each of its stages, in the order of the stages,
  -- and changes nothing else: each job has its stage's tool and source and the config that
  -- `create_job` would store for it there, is pending and unclaimed, and waits on the job before it, the
  -- first one on none.
  pub create_pipeline-Chain :
      (program : ℕ) (ids : ℕ → ℕ) (body : PipelineCreate) (user : CurrentUser) (db db' : Db)
      (created : List ScanJob)
      → create_pipeline repr program ids body user db ≡ (ok created, db')
      → Chain program none created
        × (db' ≡ record db { jobs = oldest_first created ++ db.jobs })
        × ((e : Engagement) × (find_engagement program db.engagements ≡ some e)
            × StandAll e.max_request_rate body.stages created)
  unfolding create_pipeline
  create_pipeline-Chain program ids body user db db' created h0 =
      let h = transaction-eq_ok db _ h0 in
      let (_, _, h1) =
        bind_passed
          (raise_if (not (leb 1 (length body.stages) && leb (length body.stages) 8)) unprocessable)
          _ h in
      let (e, got, h2) = bind_passed (get_engagement_or_404 program user db) _ h1 in
      let (_, _, h3) = bind_passed (require_member_write e user db) _ h2 in
      let (_, _, h4) =
        bind_passed
          (raise_if
            (body.authorization_contract_required
              || any (λ stage. stage.authorization_contract_required) body.stages)
            bad_request)
          _ h3 in
      let (configs, valid, h5) =
        bind_passed (validate_stages repr program e.max_request_rate db body.stages) _ h4 in
      subst
        (λ (r : List ScanJob × Db).
          Chain program none r.0
          × (r.1 ≡ record db { jobs = oldest_first r.0 ++ db.jobs })
          × ((e : Engagement) × (find_engagement program db.engagements ≡ some e)
              × StandAll e.max_request_rate body.stages r.0))
        (ok-injective h5)
        (
          stage_jobs-Chain ids 0 program none configs,
          refl,
          (
            e,
            get_engagement-found program user db got,
            validate_stages-StandAll ids 0 program none e.max_request_rate db body.stages valid,
          ),
        )
