-- ===== src/Store.antt =====
-- backend/models.py: the rows that the modelled code reads and writes. A query is a search of a
-- list; `first` is the first row that fits. Identifiers are only compared, so they are numbers, and
-- an absent or empty one is `none`. Times are seconds.
pub mod Laws
use vardr_map.Base.{
  ◌≡◌, refl, ℕ, String, Bool, Option, none, some, List, [], ◌∷◌, true, false, ◌==◌, if◌then◌else◌,
  first, select, not,
}
use vardr_map.Text.{Text}
use vardr_map.Json.{Value, Fields}
use vardr_map.Policy.Decision.{DateTime}

pub record OrganizationMember : Type 0 where
  pub org_id : ℕ
  pub github_id : ℕ
  pub role : String

pub record EngagementMember : Type 0 where
  pub program_id : ℕ
  pub member_github_id : ℕ
  pub role : String

pub record Authorization : Type 0 where
  pub program_id : ℕ
  pub status : String
  pub window_start : Option DateTime
  pub window_end : Option DateTime
  pub created_at : ℕ

pub record ScopeItem : Type 0 where
  pub program_id : ℕ
  pub scope_type : String
  pub value : Text
  pub kind : String

pub record ReconItem : Type 0 where
  pub program_id : ℕ
  pub url : Text
  pub host : Text

pub record AuthorizationTestCase : Type 0 where
  pub id : Text
  pub program_id : ℕ
  pub name : Text
  pub test_case_id : Text
  pub description : Text
  pub spec : Value
  pub updated_at : Option ℕ

pub record Engagement : Type 0 where
  pub id : ℕ
  pub owner_github_id : ℕ
  pub org_id : Option ℕ
  pub engagement_type : String
  pub engagement_status : String
  pub stop_work_at : Option ℕ
  pub max_request_rate : Option ℕ
  pub concurrency_limit : Option ℕ
  pub target_limit : Option ℕ
  pub targets_spent : ℕ
  pub duration_limit : Option ℕ
  pub duration_allocated : ℕ
  pub managed_authority_revision : ℕ

-- The values that `ScanJob.status` and `JobExecution.state` take.
pub data Status : Type 0 where
  pending running done failed : Status

pub data ExecutionState : Type 0 where
  active cancel_requested completed failed cancelled uncertain : ExecutionState

-- What a target charge is bound to.
pub record TargetBinding : Type 0 where
  pub case_sha256 : Text
  pub origins : List Text

pub record JobExecution : Type 0 where
  pub runner_id : ℕ
  pub origin : Text
  pub owner : ℕ
  pub principal_hash : ℕ
  pub token_hash : ℕ
  pub expires_at : ℕ
  pub state : ExecutionState
  pub capacity_reserved : Bool
  pub target_charge : ℕ
  pub target_binding : Option TargetBinding
  pub duration_seconds : ℕ

-- A row of `job_executions` has its job's id for its primary key and goes with its job, so it is
-- kept in the job. The column `assessment`, which only an upload of a result writes, is in
-- Results.Upload; the time of creation is the order of the table.
pub record ScanJob : Type 0 where
  pub id : ℕ
  pub program_id : ℕ
  pub tool_type : String
  pub target_source : String
  pub config : Fields
  pub case_snapshot : Option Value
  pub managed_approval_id : Option ℕ
  pub authorization_contract_required : Bool
  pub status : Status
  pub depends_on : Option ℕ
  pub started_at : Option ℕ
  pub completed_at : Option ℕ
  pub error_message : Text
  pub execution : Option JobExecution

pub record Db : Type 0 where
  pub org_members : List OrganizationMember
  pub members : List EngagementMember
  pub authorizations : List Authorization
  pub scope_items : List ScopeItem
  pub recon_items : List ReconItem
  pub test_cases : List AuthorizationTestCase
  pub engagements : List Engagement
  pub jobs : List ScanJob

-- The row with an id, and a write to that row.
unfoldable pub find_engagement : ℕ → List Engagement → Option Engagement
find_engagement id es = first (λ e. e.id == id) es

unfoldable pub find_job : ℕ → List ScanJob → Option ScanJob
find_job id js = first (λ j. j.id == id) js

abbrev pub write_first {ℓ} : {A : Type ℓ} → (A → Bool) → A → List A → List A
write_first p a [] = []
write_first p a (x ∷ xs) = let rest = write_first p a xs in if p x then a ∷ xs else x ∷ rest

abbrev pub erase_first {ℓ} : {A : Type ℓ} → (A → Bool) → List A → List A
erase_first p [] = []
erase_first p (x ∷ xs) = let rest = erase_first p xs in if p x then xs else x ∷ rest

unfoldable pub save_engagement : ℕ → Engagement → List Engagement → List Engagement
save_engagement id e es = write_first (λ x. x.id == id) e es

unfoldable pub save_job : ℕ → ScanJob → List ScanJob → List ScanJob
save_job id j js = write_first (λ x. x.id == id) j js

unfoldable pub delete_job_row : ℕ → List ScanJob → List ScanJob
delete_job_row id js = select (λ x. not (x.id == id)) js

-- The state of an HTTP error; the messages are left out. `internal` is an exception that nothing
-- catches.
pub data Error : Type 0 where
  bad_request unauthorized forbidden not_found conflict payload_too_large unprocessable internal :
      Error

-- What a handler, or one of its steps, comes to.
pub data Result {ℓ} (Reply : Type ℓ) : Type ℓ where
  err : Error → Result Reply
  ok : Reply → Result Reply

module _ {ℓ κ} {A : Type ℓ} {B : Type κ} where
  infixl 5 ◌>>◌ ◌>>=◌
  -- The next step runs if no exception was raised.
  abbrev pub ◌>>=◌ : Result A → (A → Result B) → Result B
  err raised >>= next = err raised
  ok reply >>= next = next reply

  abbrev pub ◌>>◌ : Result A → Result B → Result B
  step >> next = step >>= (λ ignored. next)

-- `if b: raise HTTPException(e)`
abbrev pub raise_if : Bool → Error → Result (Unit {0})
raise_if true e = err e
raise_if false e = ok tt

abbrev pub or_raise {ℓ} : {A : Type ℓ} → Option A → Error → Result A
or_raise none e = err e
or_raise (some a) e = ok a

-- A handler that raises before it commits leaves the database as it was.
abbrev pub Handler : Type 0 → Type 0
Handler A = Db → Result A × Db

unfoldable pub transaction : {A : Type 0} → Db → Result (A × Db) → Result A × Db
transaction db (ok (a, db')) = (ok a, db')
transaction db (err e) = (err e, db)

pub ok-injective {ℓ} : {A : Type ℓ} {a b : A} → ok a ≡ ok b → a ≡ b
ok-injective h = cc h

pub err-ne-ok {ℓ} : {A : Type ℓ} {e : Error} {a : A} → err e ≡ ok a → ⊥
err-ne-ok h = cc h

module _ {ℓ κ} {A : Type ℓ} {B : Type κ} where
  -- What a successful chain of steps has passed through.
  pub bind_passed :
      (step : Result A) (next : A → Result B) {reply : B}
      → (step >>= next) ≡ ok reply
      → (between : A) × (step ≡ ok between) × (next between ≡ ok reply)
  bind_passed (err raised) next h = absurd (err-ne-ok h)
  bind_passed (ok between) next h = (between, refl, h)
