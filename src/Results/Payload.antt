-- ===== src/Results/Payload.antt =====
-- backend/routers/jobs.py: the upload of a result, and the payload that its receipt is made of.
use vardr_map.Base.{ℕ, Option, none, some, List, [], ◌∷◌, map, if◌then◌else◌}
use vardr_map.Text.{Text, text, eqb}
use vardr_map.Json.{Value, str, num, obj, arr, pos, Fields, field, end, Items, cons, nil}
use vardr_map.Assessment.Case.{Verification}
use vardr_map.Assessment.Rows.{SemanticRow, safe_semantic_row}

-- `IdentityPreflightResult`
pub record PreflightResult : Type 0 where
  pub identity_id : Text
  pub status : Text
  pub reason : Text
  pub status_code : ℕ

-- `VardrGateUpload`
pub record VardrGateUpload : Type 0 where
  pub case_hash : Text
  pub test_case_id : Text
  pub executions : List Fields
  pub findings : List Fields
  pub preflight : List PreflightResult
  pub assessments : List Fields

abbrev pub array : List Value → Items
array [] = nil
array (v ∷ vs) = cons v (array vs)

abbrev pub number : ℕ → Value
number n = num (pos n)

-- `model_dump` of a preflight
abbrev pub dump_preflight : PreflightResult → Fields
dump_preflight p = field (text "identity_id") (str p.identity_id) (
    field (text "status") (str p.status) (
      field (text "reason") (str p.reason) (field (text "status_code") (number p.status_code) end)))

abbrev pub optional_number : Text → Option ℕ → Fields → Fields
optional_number k none others = others
optional_number k (some n) others = field k (number n) others

abbrev pub verification_fields : Option Verification → Fields
verification_fields none = end
verification_fields (some v) =
    field (text "verification")
      (obj (
        field (text "strategy") (str v.strategy) (
          field (text "environment") (str v.environment) (
            field (text "reader_identity_id") (str v.reader_identity_id) (
              field (text "reader_credential_status") (str v.reader_credential_status) (
                field (text "before_statuses") (arr (array (map number v.before_statuses))) (
                  field (text "after_status") (number v.after_status)
                    (field (text "reset_status") (number v.reset_status) end))))))))
      end

-- The dictionary that `safe_semantic_row` returns.
abbrev pub row_fields : SemanticRow → Fields
row_fields row = field (text "identity_id") (str row.identity_id) (
    field (text "expected_access") (str row.expected_access) (
      field (text "decision") (str row.decision) (
        field (text "source") (str row.source) (
          field (text "reason") (str row.reason) (
            field (text "credential_status") (str row.credential_status) (
              field (text "write_verification") (str row.write_verification) (
                field (text "matched_assertions") (arr (array (map number row.matched_assertions)))
                  (optional_number (text "execution_index") row.execution_index
                    (verification_fields row.verification)))))))))

abbrev pub objects : List Fields → Value
objects rows = arr (array (map obj rows))

-- An empty part is left out, so that the receipts of older results stay valid.
abbrev pub with_rows : Text → List Fields → Fields → Fields
with_rows k [] others = others
with_rows k (row ∷ rows) others = field k (objects (row ∷ rows)) others

abbrev pub with_hash : Text → Fields → Fields
with_hash hash others = if eqb hash [] then others else field (text "case_hash") (str hash) others

-- `receipt_payload` with these rows for its assessments
abbrev pub payload_of : VardrGateUpload → List Fields → Fields
payload_of body rows = with_hash body.case_hash (
    field (text "test_case_id") (str body.test_case_id) (
      field (text "executions") (objects body.executions) (
        field (text "findings") (objects body.findings) (
          with_rows (text "preflight") (map dump_preflight body.preflight)
            (with_rows (text "assessments") rows end)))))

unfoldable pub safe_rows : VardrGateUpload → List Fields
unfolding safe_semantic_row
safe_rows body = map (λ a. row_fields (safe_semantic_row a)) body.assessments

unfoldable pub receipt_payload : VardrGateUpload → Fields
unfolding safe_rows
receipt_payload body = payload_of body (safe_rows body)

-- The payload that a receiver that ignored the assessments has hashed.
abbrev pub legacy_payload : VardrGateUpload → Fields
legacy_payload body = payload_of body []
