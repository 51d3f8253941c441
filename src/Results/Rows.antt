-- ===== src/Results/Rows.antt =====
-- backend/routers/jobs.py: the scan items and the evidence that a result becomes. Constant columns,
-- the hash of a body and the times are left out.
use vardr_map.Base.{
  ℕ, Bool, true, false, not, Option, none, some, List, [], ◌∷◌, ◌++◌, any, leb, length, map, select,
  take, if◌then◌else◌,
}
use vardr_map.Text.{Text, text, eqb, lower, strip}
use vardr_map.Json.{
  Value, null, str, bool, obj, arr, Fields, field, end, get, items, is_text, to_str, str_or, truthy,
  value_eq, set_field,
}
use vardr_map.Store.{ScanJob}
use vardr_map.Redaction.{redact_mapping}
use vardr_map.Assessment.Case.{Item}
use vardr_map.Assessment.Rows.{safe_semantic_row}
use vardr_map.Results.Payload.{VardrGateUpload, objects, row_fields}

pub record ScanItem : Type 0 where
  pub program_id : ℕ
  pub job_id : ℕ
  pub template_id : Text
  pub title : Text
  pub severity : Text
  pub asset : Text
  pub type : Text
  pub description : Text

-- The body is kept as the structure that `json.dumps` prints.
pub record Evidence : Type 0 where
  pub program_id : ℕ
  pub job_id : ℕ
  pub case_ref : Text
  pub identity_id : Option Text
  pub observed_outcome : Text
  pub expected_decision : Text
  pub body : Fields

abbrev pub severities : List Text
severities = text "info" ∷ text "low" ∷ text "medium" ∷ text "high" ∷ text "critical" ∷ []

abbrev pub known_or : List Text → Text → Text → Text
known_or known default t = if any (eqb t) known then t else default

abbrev pub or_default : Text → Text → Text
or_default default t = if eqb t [] then default else t

abbrev pub join_lines : List Text → Text
join_lines [] = []
join_lines (t ∷ []) = t
join_lines (t ∷ u ∷ ts) = t ++ (10 ∷ join_lines (u ∷ ts))

abbrev pub part_if : Text → Text → List Text
part_if label t = if eqb t [] then [] else (label ++ t) ∷ []

abbrev pub outcomes : List Text
outcomes =
    text "allow"
    ∷ text "deny"
    ∷ text "not_found"
    ∷ text "redirect"
    ∷ text "server_error"
    ∷ text "client_error"
    ∷ text "error"
    ∷ []

-- A text that is one of the outcomes.
abbrev pub outcome_of : Value → Text
outcome_of (str s) = known_or outcomes (text "unknown") s
outcome_of v = text "unknown"

-- `v or default`
abbrev pub value_or : Value → Value → Value
value_or default v = if truthy v then v else default

abbrev pub text_or_null : Text → Value
text_or_null t = if eqb t [] then null else str t

abbrev pub is_some_value : Option Text → Bool
is_some_value none = false
is_some_value (some t) = true

abbrev pub or_text : Text → Option Text → Text
or_text default none = default
or_text default (some t) = t

-- `decisions.get(identity)`; of two items with one identity the later counts.
abbrev pub decision_in : List Item → Text → Option Text
decision_in [] identity = none
decision_in (i ∷ is) identity =
    let rest = decision_in is identity in
    if is_some_value rest
    then rest
    else if is_text identity i.identity_id
    then some i.expected_decision
    else none

unfoldable pub with_error : Fields → Fields → Fields
unfolding set_field
with_error execution detail =
    if truthy (get (text "error") execution)
    then set_field (text "error_kind") (get (text "error_kind") execution)
        (set_field (text "error") (get (text "error") execution) detail)
    else detail

unfoldable pub with_profile : Value → Fields → Fields
unfolding set_field
with_profile (obj profile) detail = set_field (text "response_profile") (obj profile) detail
with_profile v detail = detail

unfoldable pub with_assessments : List Fields → Fields → Fields
unfolding set_field
with_assessments [] detail = detail
with_assessments (row ∷ rows) detail =
    set_field (text "scanner_assessments") (objects (row ∷ rows)) detail

abbrev pub execution_detail : Text → Bool → Text → Fields → Fields
execution_detail case_hash verified identity execution =
    field (text "case_hash") (text_or_null case_hash) (
      field (text "case_snapshot_verified") (bool verified) (
        field (text "identity_id") (str identity) (
          field (text "status_code") (get (text "status_code") execution) (
            field (text "observed_outcome") (get (text "observed_outcome") execution) (
              field (text "duration_ms") (get (text "duration_ms") execution) (
                field (text "headers") (value_or (obj end) (get (text "headers") execution))
                  end))))))

unfoldable pub semantic_rows : VardrGateUpload → Fields → List Fields
unfolding safe_semantic_row
semantic_rows body execution =
    map (λ a. row_fields (safe_semantic_row a))
      (select (λ a. value_eq (get (text "identity_id") a) (get (text "identity_id") execution))
        body.assessments)

module _ (repr : Value → Text) (redact_text : Text → Text) where
  abbrev pub text_or : Text → Text → Fields → Text
  text_or default k fs = str_or repr default (get k fs)

  abbrev pub evidence_lines : Value → List Text
  evidence_lines (arr vs) =
      select (λ t. not (eqb (strip t) [])) (map (to_str repr) (take 20 (items vs)))
  evidence_lines v = []

  -- `_finding_description`
  unfoldable pub finding_description : Fields → Text
  unfolding strip
  finding_description finding = redact_text (
      join_lines (
        part_if (text "identity: ") (strip (text_or [] (text "identity_id") finding))
        ++ (part_if (text "confidence: ") (strip (text_or [] (text "confidence") finding))
            ++ evidence_lines (get (text "evidence") finding))))

  unfoldable pub severity_of : Fields → Text
  unfolding lower strip
  severity_of finding =
      known_or severities (text "info")
        (strip (lower (text_or (text "info") (text "severity") finding)))

  -- The body of the loop over the findings.
  unfoldable pub scan_item : ScanJob → Text → Text → Fields → ScanItem
  unfolding severity_of finding_description
  scan_item job template_id target finding = record {
    program_id = job.program_id;
    job_id = job.id;
    template_id = template_id;
    title =
        or_default (text_or (text "authorization finding") (text "category") finding)
          (take 200 (redact_text (text_or [] (text "message") finding)));
    severity = severity_of finding;
    asset = target;
    type = take 50 (text_or [] (text "category") finding);
    description = finding_description finding;
  }

  abbrev pub identity_of : Fields → Text
  identity_of execution = redact_text (text_or (text "unknown") (text "identity_id") execution)

  abbrev pub short_identity : Text → Option Text
  short_identity t = if leb (length t) 200 then some t else none

  -- The body of the loop over the records, for an execution.
  unfoldable pub execution_evidence :
      ScanJob → VardrGateUpload → Text → Bool → List Item → Fields → Evidence
  unfolding with_error with_profile with_assessments semantic_rows
  execution_evidence job body template_id verified decided execution = record {
    program_id = job.program_id;
    job_id = job.id;
    case_ref = template_id;
    identity_id = short_identity (identity_of execution);
    observed_outcome = outcome_of (get (text "observed_outcome") execution);
    expected_decision = or_text (text "unknown") (decision_in decided (identity_of execution));
    body = redact_mapping redact_text [] (
        with_assessments (semantic_rows body execution) (
          with_profile (get (text "response_profile") execution) (
            with_error execution
              (execution_detail body.case_hash verified (identity_of execution) execution))));
  }

  -- The same for a preflight, which has neither an error nor a profile.
  unfoldable pub preflight_evidence : ScanJob → VardrGateUpload → Text → Bool → Fields → Evidence
  preflight_evidence job body template_id verified execution = record {
    program_id = job.program_id;
    job_id = job.id;
    case_ref = template_id;
    identity_id = short_identity (identity_of execution);
    observed_outcome = text "unknown";
    expected_decision = text "unknown";
    body = redact_mapping redact_text [] (
        field (text "phase") (str (text "identity_preflight")) (
          field (text "case_hash") (text_or_null body.case_hash)
            (field (text "case_snapshot_verified") (bool verified) execution)));
  }
