-- ===== src/Budget.antt =====
-- backend/concurrency_budget.py, backend/duration_budget.py and backend/target_budget.py: what an
-- engagement allows its attempts to hold and to spend.
pub mod Binding
use vardr_map.Base.{
  ℕ, ◌+◌, String, Bool, true, false, not, ◌&&◌, ◌||◌, Option, none, some, List, [], ◌∷◌, ◌==◌, ltb,
  leb, length, any, count, str_eq,
}
use vardr_map.Text.{Text, eqb}
use vardr_map.Json.{Value}
use vardr_map.Store.{
  Engagement, ScanJob, JobExecution, TargetBinding, Status, running, conflict, Result, ok, err,
  ◌>>=◌, ◌>>◌, raise_if, or_raise,
}

-- `execution_control.ClaimControl`, after its validation.
pub record ClaimControl : Type 0 where
  pub runner_id : ℕ
  pub origin : Text
  pub concurrency_budget : Bool
  pub target_binding : Option TargetBinding
  pub duration_seconds : Option ℕ

abbrev pub is_running : Status → Bool
is_running running = true
is_running _ = false

abbrev pub reserves : Option JobExecution → Bool
reserves none = false
reserves (some x) = x.capacity_reserved

abbrev pub reserves_in : ℕ → ScanJob → Bool
reserves_in program j = (j.program_id == program) && reserves j.execution

unfoldable pub reserved : List ScanJob → ℕ → ℕ
reserved jobs program = count (reserves_in program) jobs

unfoldable pub require_idle : List ScanJob → ℕ → Result (Unit {0})
unfolding reserved
require_idle jobs program =
    raise_if
      (ltb 0 (reserved jobs program)
        || any (λ j. (j.program_id == program) && is_running j.status) jobs)
      conflict

abbrev pub opted_in : Option ClaimControl → Bool
opted_in none = false
opted_in (some body) = body.concurrency_budget

unfoldable pub before_claim : List ScanJob → Engagement → Option ClaimControl → Result (Unit {0})
unfolding reserved
before_claim jobs e body = elim e.concurrency_limit [
  | none ↦ raise_if (opted_in body) conflict
  | some limit ↦ do
    raise_if (not (opted_in body)) conflict
    raise_if (leb limit (reserved jobs e.id)) conflict
]

pub record DurationReceipt : Type 0 where
  pub allocated_seconds : ℕ
  pub total_allocated_seconds : ℕ
  pub limit_seconds : ℕ

abbrev pub seconds_of : Option ClaimControl → Option ℕ
seconds_of none = none
seconds_of (some body) = body.duration_seconds

unfoldable pub allocate_seconds :
    Engagement → Option ℕ → Option ℕ → Result (Engagement × Option DurationReceipt)
allocate_seconds e none none = ok (e, none)
allocate_seconds e none (some seconds) = err conflict
allocate_seconds e (some limit) none = err conflict
allocate_seconds e (some limit) (some seconds) = do
  let total = e.duration_allocated + seconds
  raise_if (ltb limit total) conflict
  ok (
    record e { duration_allocated = total },
    some (record {
      allocated_seconds = seconds;
      total_allocated_seconds = total;
      limit_seconds = limit;
    }),
  )

-- `duration_budget.allocate`
unfoldable pub allocate :
    Engagement → Option ClaimControl → Result (Engagement × Option DurationReceipt)
unfolding allocate_seconds
allocate e body = allocate_seconds e e.duration_limit (seconds_of body)

pub record TargetReceipt : Type 0 where
  pub binding : TargetBinding
  pub charged : ℕ
  pub spent : ℕ
  pub limit : ℕ

abbrev pub binding_of : Option ClaimControl → Option TargetBinding
binding_of none = none
binding_of (some body) = body.target_binding

abbrev pub texts_eq : List Text → List Text → Bool
texts_eq [] [] = true
texts_eq (s ∷ ss) (t ∷ ts) = eqb s t && texts_eq ss ts
texts_eq _ _ = false

abbrev pub binding_eq : TargetBinding → TargetBinding → Bool
binding_eq a b = eqb a.case_sha256 b.case_sha256 && texts_eq a.origins b.origins

abbrev pub vardrgate : String
vardrgate = "vardrgate_api_test"

-- The origins that a case addresses: `target_budget.binding`, which the caller supplies.
module _ (binding : Value → Option TargetBinding) where
  unfoldable pub spend :
      Engagement
      → ScanJob
      → Option Value
      → ℕ
      → TargetBinding
      → Result (Engagement × Option TargetReceipt)
  spend e job none limit supplied = err conflict
  spend e job (some case) limit supplied = do
    raise_if (not (str_eq job.tool_type vardrgate)) conflict
    expected ← or_raise (binding case) conflict
    raise_if (not (binding_eq supplied expected)) conflict
    let charged = length expected.origins
    let spent = e.targets_spent + charged
    raise_if (ltb limit spent) conflict
    ok (
      record e { targets_spent = spent },
      some (record { binding = expected; charged = charged; spent = spent; limit = limit }),
    )

  unfoldable pub charge_bound :
      Engagement
      → ScanJob
      → Option Value
      → Option ℕ
      → Option TargetBinding
      → Result (Engagement × Option TargetReceipt)
  unfolding spend
  charge_bound e job case none none = ok (e, none)
  charge_bound e job case none (some supplied) = err conflict
  charge_bound e job case (some limit) none = err conflict
  charge_bound e job case (some limit) (some supplied) = spend e job case limit supplied

  -- `target_budget.charge`
  unfoldable pub charge :
      Engagement
      → ScanJob
      → Option Value
      → Option ClaimControl
      → Result (Engagement × Option TargetReceipt)
  unfolding charge_bound
  charge e job case body = charge_bound e job case e.target_limit (binding_of body)
