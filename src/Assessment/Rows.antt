-- ===== src/Assessment/Rows.antt =====
-- backend/assessment_evidence.py: `safe_semantic_row`, which drops all but the declared metadata of
-- a scanner's row.
use vardr_map.Base.{
  ℕ, ◌&&◌, Option, none, some, List, [], ◌∷◌, leb, ltb, any, length, if◌then◌else◌,
}
use vardr_map.Text.{Text, text, eqb}
use vardr_map.Json.{Value, str, arr, obj, Fields, get, items, natural}
use vardr_map.Assessment.Case.{Verification}

pub record SemanticRow : Type 0 where
  pub identity_id : Text
  pub expected_access : Text
  pub decision : Text
  pub source : Text
  pub reason : Text
  pub credential_status : Text
  pub write_verification : Text
  pub matched_assertions : List ℕ
  pub execution_index : Option ℕ
  pub verification : Option Verification

-- `REASONS`
abbrev pub reasons : List Text
reasons =
    text "status_only"
    ∷ text "ambiguous_http_outcome"
    ∷ text "execution_error"
    ∷ text "no_expectation"
    ∷ text "explicit_skip"
    ∷ text "assertion_matched"
    ∷ text "no_assertion_matched"
    ∷ text "conflicting_assertions"
    ∷ text "invalid_or_unsupported_json"
    ∷ text "credential_rejected"
    ∷ text "state_changed"
    ∷ text "state_unchanged"
    ∷ text "verifier_read_failed"
    ∷ text "verifier_denied"
    ∷ text "verifier_value_unavailable"
    ∷ text "verifier_baseline_missing"
    ∷ text "state_changing_concurrently"
    ∷ text "target_value_already_present"
    ∷ text "state_changed_unexpectedly"
    ∷ text "verifier_unexpected_status"
    ∷ text "write_execution_error"
    ∷ text "no_positive_control"
    ∷ text "positive_control_failed"
    ∷ text "write_completion_unconfirmed"
    ∷ text "write_environment_unverified"
    ∷ text "verifier_reset_failed"
    ∷ text "reset_baseline_mismatch"
    ∷ text "execution_cancelled"
    ∷ text "identity_preflight_failed"
    ∷ []

-- `CREDENTIALS`
abbrev pub credentials : List Text
credentials =
    text "anonymous_identity"
    ∷ text "not_checked"
    ∷ text "preflight_passed"
    ∷ text "preflight_failed"
    ∷ text "preflight_passed_resource_401"
    ∷ text "resource_401_unverified"
    ∷ []

-- `WRITES`
abbrev pub writes : List Text
writes =
    text "not_configured"
    ∷ text "not_applied"
    ∷ text "inconclusive"
    ∷ text "verified_effect"
    ∷ text "verified_no_effect"
    ∷ []

abbrev pub expected_values : List Text
expected_values = text "allow" ∷ text "deny" ∷ text "skip" ∷ []

abbrev pub decision_values : List Text
decision_values = text "allowed" ∷ text "denied" ∷ text "inconclusive" ∷ text "skipped" ∷ []

abbrev pub source_values : List Text
source_values =
    text "none" ∷ text "http_status" ∷ text "response_assertion" ∷ text "write_verification" ∷ []

abbrev pub strategy_values : List Text
strategy_values = text "changed" ∷ text "created" ∷ text "deleted" ∷ text "legacy_change" ∷ []

abbrev pub environment_values : List Text
environment_values = text "unknown" ∷ text "synchronous_isolated" ∷ text "legacy" ∷ []

-- `enum_value`
unfoldable pub enum_value : Value → List Text → Text → Text
enum_value (str s) allowed fallback = if any (λ t. eqb t s) allowed then s else fallback
enum_value v allowed fallback = fallback

-- `safe_identity`
unfoldable pub safe_identity : Value → Text
safe_identity (str s) = if ltb 0 (length s) && leb (length s) 200 then s else []
safe_identity v = []

-- The numbers of a list, if it is a list of at most `most` numbers from 0 to `high`.
abbrev pub numbers_or_none : ℕ → List Value → Option (List ℕ)
numbers_or_none high [] = some []
numbers_or_none high (v ∷ vs) =
    let rest = numbers_or_none high vs in
    elim (natural v) [
      | none ↦ none
      | some n ↦ if leb n high then elim rest [ none ↦ none | some ns ↦ some (n ∷ ns) ] else none
    ]

abbrev pub or_empty : Option (List ℕ) → List ℕ
or_empty none = []
or_empty (some ns) = ns

unfoldable pub numbers : ℕ → ℕ → Value → List ℕ
numbers most high (arr vs) =
    if leb (length (items vs)) most then or_empty (numbers_or_none high (items vs)) else []
numbers most high v = []

-- A status from 0 to 599, or 0.
abbrev pub status_or_zero : Option ℕ → ℕ
status_or_zero none = 0
status_or_zero (some n) = if leb n 599 then n else 0

abbrev pub index_below : Option ℕ → Option ℕ
index_below none = none
index_below (some n) = if ltb n 100 then some n else none

unfoldable pub safe_verification : Value → Option Verification
unfolding enum_value safe_identity numbers
safe_verification (obj v) = some (record {
  strategy = enum_value (get (text "strategy") v) strategy_values (text "unknown");
  environment = enum_value (get (text "environment") v) environment_values (text "unknown");
  reader_identity_id = safe_identity (get (text "reader_identity_id") v);
  reader_credential_status =
      enum_value (get (text "reader_credential_status") v) credentials (text "not_recorded");
  before_statuses = numbers 2 599 (get (text "before_statuses") v);
  after_status = status_or_zero (natural (get (text "after_status") v));
  reset_status = status_or_zero (natural (get (text "reset_status") v));
})
safe_verification v = none

-- `safe_semantic_row`
unfoldable pub safe_semantic_row : Fields → SemanticRow
unfolding enum_value safe_identity numbers safe_verification
safe_semantic_row row = record {
  identity_id = safe_identity (get (text "identity_id") row);
  expected_access = enum_value (get (text "expected_access") row) expected_values (text "unknown");
  decision = enum_value (get (text "decision") row) decision_values (text "inconclusive");
  source = enum_value (get (text "source") row) source_values (text "none");
  reason = enum_value (get (text "reason") row) reasons (text "unrecognized_assessment_reason");
  credential_status =
      enum_value (get (text "credential_status") row) credentials (text "not_recorded");
  write_verification =
      enum_value (get (text "write_verification") row) writes (text "not_recorded");
  matched_assertions = numbers 32 31 (get (text "matched_assertions") row);
  execution_index = index_below (natural (get (text "execution_index") row));
  verification = safe_verification (get (text "verification") row);
}
