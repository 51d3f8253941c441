-- ===== src/Assessment/Judge.antt =====
-- backend/assessments.py: what the reported execution of an identity shows, in `assess`.
use vardr_map.Base.{
  ℕ, Bool, false, not, ◌&&◌, ◌||◌, Option, none, some, List, [], ◌∷◌, ◌==◌, any, if◌then◌else◌,
}
use vardr_map.Text.{Text, text, eqb}
use vardr_map.Json.{
  Value, Fields, get, list_at, as_text, natural, in_range, has_value, truthy, str_or,
}
use vardr_map.Assessment.Case.{
  State, evaluated, inconclusive, missing, skipped, Item, id_of, status_code, has_error,
  expected_for, reported_for,
}
use vardr_map.Assessment.Semantics.{is_success}

abbrev pub holds_code : (ℕ → Bool) → Option ℕ → Bool
holds_code p none = false
holds_code p (some n) = p n

-- The code stands for a denial in this case.
abbrev pub is_denial : Fields → ℕ → Bool
is_denial spec code =
    code == 401
    || code == 403
    || any (λ v. has_value (natural v) code) (list_at (text "deny_status") spec)
    || (is_success code && truthy (get (text "deny_when") spec))

abbrev pub is_allow : Fields → Text → Bool
is_allow row outcome = holds_code is_success (status_code row) && eqb outcome (text "allow")

abbrev pub is_deny : Fields → Fields → Text → Bool
is_deny spec row outcome =
    in_range 100 599 (status_code row)
    && eqb outcome (text "deny")
    && holds_code (is_denial spec) (status_code row)

-- What the one execution of an identity shows.
unfoldable pub judge_row : Fields → Text → Text → Fields → State × Text
judge_row spec decision outcome row =
    if has_error row
    then (inconclusive, text "execution_error")
    else if not (is_allow row outcome || is_deny spec row outcome)
    then (inconclusive, text "ambiguous_response")
    else if eqb decision (text "allow") && not (is_allow row outcome)
    then (inconclusive, text "legitimate_baseline_denied")
    else (evaluated, text "reported_allow_or_deny")

abbrev pub judge_rows : Fields → Text → Text → List Fields → State × Text
judge_rows spec decision outcome [] = (missing, text "execution_missing")
judge_rows spec decision outcome (row ∷ []) = judge_row spec decision outcome row
judge_rows spec decision outcome (_ ∷ _ ∷ _) = (inconclusive, text "duplicate_execution")

unfoldable pub judge : Fields → Text → Text → List Fields → State × Text
unfolding judge_row
judge spec decision outcome rows =
    if eqb decision (text "skip") || eqb decision (text "unknown")
    then (skipped, text "no_reviewed_expectation")
    else judge_rows spec decision outcome rows

module _ (repr : Value → Text) where
  abbrev pub outcome_of : List Fields → Text
  outcome_of (row ∷ []) = str_or repr (text "unknown") (get (text "observed_outcome") row)
  outcome_of _ = text "unknown"

  abbrev pub decision_for : List Fields → Text
  decision_for (e ∷ []) = as_text (get (text "decision") e)
  decision_for _ = text "unknown"

  -- The loop over the identities, before the scanner's rows are read.
  unfoldable pub first_item : Fields → List Fields → Fields → Item
  unfolding judge
  first_item spec executions identity =
      let rows = reported_for repr (id_of identity) executions in
      let decision = decision_for (expected_for (id_of identity) spec) in
      let outcome = outcome_of rows in
      let (state, reason) = judge spec decision outcome rows in
      record {
        identity_id = id_of identity;
        expected_decision = decision;
        observed_outcome = outcome;
        state = state;
        reason = reason;
        reported_decision = none;
        source = [];
        credential_status = [];
        write_verification = [];
        matched_assertions = [];
        verification = none;
      }
