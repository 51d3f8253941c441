-- ===== src/Jobs/Create.antt =====
-- backend/routers/jobs.py: `create_job`, which queues one job.
pub mod Ceiling
use vardr_map.Base.{
  ℕ, String, Bool, true, false, not, ◌&&◌, ◌||◌, Option, none, some, List, [], ◌∷◌, ◌==◌, any,
  first, if◌then◌else◌, is_some, str_eq,
}
use vardr_map.Text.{Text, text, eqb, strip}
use vardr_map.Json.{Value, Fields, end, field, get, str_or}
use vardr_map.Policy.Decision.{Reason, DateTime, aware}
use vardr_map.Store.{
  AuthorizationTestCase, Engagement, ScanJob, Status, pending, Db, Error, bad_request, not_found,
  Result, ok, err, ◌>>=◌, ◌>>◌, raise_if, or_raise, Handler, transaction,
}
use vardr_map.Access.{CurrentUser, get_engagement_or_404, require_member_write}
use vardr_map.Enforcement.{check, as_warnings}
use vardr_map.Budget.{vardrgate}
use vardr_map.Execution.{accessible_job}
use vardr_map.Jobs.Targets.{resolve_targets}
use vardr_map.Jobs.Config.{validate_job_config}
use vardr_map.Jobs.Config.Rate.{enforce_rate_ceiling}

pub record JobCreate : Type 0 where
  pub tool_type : String
  pub target_source : String
  pub config : Fields
  pub depends_on : Option ℕ
  pub authorization_contract_required : Bool

unfoldable pub is_valid_tool : String → Bool
is_valid_tool tool =
    any (λ t. str_eq tool t)
      ("httpx" ∷ "nuclei" ∷ "subfinder" ∷ "nmap" ∷ "dnsx" ∷ "naabu" ∷ "katana" ∷ "gau" ∷ "ffuf"
        ∷ "dalfox" ∷ vardrgate ∷ [])

abbrev pub is_valid_source : String → Bool
is_valid_source source = str_eq source "scope" || str_eq source "recon"

abbrev pub is_given : Fields → Bool
is_given end = false
is_given (field _ _ _) = true

-- `_validate_test_case_ref`, where `repr` is `str` on a value that is no text.
unfoldable pub validate_test_case_ref : (Value → Text) → ℕ → Fields → Db → Result (Unit {0})
unfolding strip
validate_test_case_ref repr program config db = do
  let id = strip (str_or repr [] (get (text "test_case_id") config))
  raise_if (eqb id []) bad_request
  raise_if (not (any (λ c. eqb c.id id && (c.program_id == program)) db.test_cases)) not_found

-- A parent that the caller may see, in the same engagement.
abbrev pub in_program : ℕ → Option ScanJob → Bool
in_program program none = false
in_program program (some j) = j.program_id == program

-- `_validate_dependency`, where there is a dependency
unfoldable pub validate_dependency : Option ℕ → ℕ → CurrentUser → Db → Result (Unit {0})
validate_dependency none program user db = ok tt
validate_dependency (some parent) program user db =
    raise_if (not (in_program program (accessible_job parent user db))) bad_request

module _ (repr : Value → Text) where
  -- The config that is stored: validated where it is not empty, and capped.
  unfoldable pub job_config : Option ℕ → String → Fields → Result Fields
  job_config ceiling tool config = do
    if is_given config then validate_job_config repr tool config else ok tt
    enforce_rate_ceiling ceiling tool config

  abbrev pub new_job : ℕ → ℕ → JobCreate → Fields → ScanJob
  new_job id program body config = record {
    id = id;
    program_id = program;
    tool_type = body.tool_type;
    target_source = body.target_source;
    config = config;
    case_snapshot = none;
    managed_approval_id = none;
    authorization_contract_required = body.authorization_contract_required;
    status = pending;
    depends_on = body.depends_on;
    started_at = none;
    completed_at = none;
    error_message = [];
    execution = none;
  }

  -- `POST /engagements/{program_id}/jobs`, with the identifier that the table draws.
  unfoldable pub create_job : ℕ → ℕ → JobCreate → ℕ → CurrentUser → Handler (ScanJob × List Reason)
  create_job program id body now user db = transaction db do
    e ← get_engagement_or_404 program user db
    require_member_write e user db
    raise_if (not (is_valid_tool body.tool_type)) bad_request
    raise_if (body.authorization_contract_required && not (str_eq body.tool_type vardrgate))
        bad_request
    raise_if (not (is_valid_source body.target_source)) bad_request
    config ← job_config e.max_request_rate body.tool_type body.config
    if str_eq body.tool_type vardrgate then validate_test_case_ref repr program config db else ok tt
    validate_dependency body.depends_on program user db
    finding ←
        check db e body.tool_type (resolve_targets program body.target_source config db) (aware now)
    let job = new_job id program body config
    ok ((job, as_warnings finding), record db { jobs = job ∷ db.jobs })
