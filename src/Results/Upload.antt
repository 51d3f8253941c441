-- ===== src/Results/Upload.antt =====
-- backend/routers/jobs.py: `upload_job_result` and `store_gate_result`.
use vardr_map.Base.{
  ℕ, Bool, true, false, not, ◌&&◌, ◌||◌, Option, none, some, List, [], ◌∷◌, ◌++◌, ◌==◌, first,
  length, ltb, map, take, str_eq, if◌then◌else◌,
}
use vardr_map.Text.{Text, text, eqb}
use vardr_map.Json.{Value, Fields, end, get, dict_at, fields_of, str_or}
use vardr_map.Store.{
  AuthorizationTestCase, ScanJob, Db, bad_request, not_found, conflict, payload_too_large, Result,
  ok, err, ◌>>=◌, ◌>>◌, raise_if, or_raise,
}
use vardr_map.Access.{CurrentUser}
use vardr_map.Budget.{vardrgate}
use vardr_map.Execution.{accessible_job}
use vardr_map.Jobs.Update.{writable_engagement}
use vardr_map.Jobs.Claim.{is_managed, stored_case}
use vardr_map.Jobs.Targets.{case_ref}
use vardr_map.Assessment.Case.{Item}
use vardr_map.Assessment.Semantics.{is_end}
use vardr_map.Assessment.Report.{Assessment}
use vardr_map.Assessment.Assess.{assess}
use vardr_map.TestCases.Size.{fields_size}
use vardr_map.Results.Payload.{VardrGateUpload, dump_preflight, receipt_payload, legacy_payload}
use vardr_map.Results.Rows.{ScanItem, Evidence, scan_item, execution_evidence, preflight_evidence}

pub record JobResultReceipt : Type 0 where
  pub job_id : ℕ
  pub payload_hash : Text
  pub scan_items_created : ℕ
  pub evidence_created : ℕ

-- `job.assessment`
pub record JobAssessment : Type 0 where
  pub job_id : ℕ
  pub assessment : Assessment
  pub case_id : Text
  pub case_ref : Text

-- The tables that a result is written to.
pub record ResultDb : Type 0 where
  pub receipts : List JobResultReceipt
  pub scan_items : List ScanItem
  pub evidence : List Evidence
  pub assessments : List JobAssessment

pub record Stored : Type 0 where
  pub job_id : ℕ
  pub scan_items_created : ℕ
  pub evidence_created : ℕ
  pub already_processed : Bool

abbrev pub max_result_bytes : ℕ
max_result_bytes = 512000

unfoldable pub find_receipt : ℕ → List JobResultReceipt → Option JobResultReceipt
find_receipt id receipts = first (λ r. r.job_id == id) receipts

abbrev pub from_receipt : JobResultReceipt → Stored
from_receipt receipt = record {
  job_id = receipt.job_id;
  scan_items_created = receipt.scan_items_created;
  evidence_created = receipt.evidence_created;
  already_processed = true;
}

abbrev pub spec_or_end : Option AuthorizationTestCase → Fields
spec_or_end none = end
spec_or_end (some c) = fields_of c.spec

abbrev pub or_spec : Fields → Fields → Fields
or_spec spec other = if is_end spec then other else spec

abbrev pub snapshot_of : Option Value → Fields
snapshot_of none = end
snapshot_of (some v) = fields_of v

-- `hash` is the SHA-256 of a dictionary's canonical text, `redact_text` is that of redaction.py.
module _ (repr : Value → Text) (hash : Fields → Text) (redact_text : Text → Text) where
  -- The case that the job was queued with, by what it was claimed with or what is stored now.
  unfoldable pub authoritative_spec : ScanJob → Db → Fields
  unfolding stored_case
  authoritative_spec job db =
      or_spec (snapshot_of job.case_snapshot) (spec_or_end (stored_case job db))

  abbrev pub text_at : Text → Fields → Text
  text_at k fs = str_or repr [] (get k fs)

  abbrev pub is_verified : Fields → VardrGateUpload → Bool
  is_verified spec body = not (is_end spec) && eqb body.case_hash (hash spec)

  abbrev pub decided_items : Bool → Assessment → List Item
  decided_items verified a = if verified then a.identities else []

  -- The rows of a result with this verified template.
  unfoldable pub write_result :
      ScanJob → VardrGateUpload → Fields → Text → ResultDb → Stored × ResultDb
  unfolding case_ref
  write_result job body target_spec template_id store =
      let spec = snapshot_of job.case_snapshot in
      let target = take 2000 (text_at (text "url") (dict_at (text "request") target_spec)) in
      let created = map (scan_item repr redact_text job template_id target) body.findings in
      let verified = is_verified spec body in
      let preflight = map dump_preflight body.preflight in
      let assessment =
        assess repr hash spec body.executions (length created) verified preflight
          body.assessments in
      let evidence =
        map
          (execution_evidence repr redact_text job body template_id verified
            (decided_items verified assessment))
          body.executions
        ++ map (preflight_evidence repr redact_text job body template_id verified) preflight in
      (
        record {
          job_id = job.id;
          scan_items_created = length created;
          evidence_created = length evidence;
          already_processed = false;
        },
        record {
          receipts =
              record {
                job_id = job.id;
                payload_hash = hash (receipt_payload body);
                scan_items_created = length created;
                evidence_created = length evidence;
              }
              ∷ store.receipts;
          scan_items = created ++ store.scan_items;
          evidence = evidence ++ store.evidence;
          assessments =
              record {
                job_id = job.id;
                assessment = assessment;
                case_id = case_ref job.config;
                case_ref = template_id;
              }
              ∷ store.assessments;
        },
      )

  -- A result for a job that has a receipt already.
  abbrev pub answer_again : VardrGateUpload → JobResultReceipt → Result Stored
  answer_again body receipt =
      if eqb receipt.payload_hash (hash (receipt_payload body))
        || eqb receipt.payload_hash (hash (legacy_payload body))
      then ok (from_receipt receipt)
      else err conflict

  abbrev pub template_of : VardrGateUpload → Fields → Text
  template_of body spec =
      if is_end spec then take 200 body.test_case_id else text_at (text "id") spec

  -- A result for a job that has none.
  unfoldable pub store_first :
      ScanJob → VardrGateUpload → Db → ResultDb → Result (Stored × ResultDb)
  unfolding authoritative_spec
  store_first job body db store = do
    let spec = snapshot_of job.case_snapshot
    let authority = authoritative_spec job db
    raise_if
        (not (is_end spec) && not (eqb body.case_hash []) && not (eqb body.case_hash (hash spec)))
        bad_request
    raise_if
        (not (is_end authority)
          && not (eqb (take 200 body.test_case_id) [])
          && not (eqb (take 200 body.test_case_id) (text_at (text "id") authority)))
        bad_request
    ok (write_result job body authority (template_of body authority) store)

  abbrev pub store_by :
      Option JobResultReceipt
      → ScanJob
      → VardrGateUpload
      → Db
      → ResultDb
      → Result (Stored × ResultDb)
  store_by (some receipt) job body db store = do
    again ← answer_again body receipt
    ok (again, store)
  store_by none job body db store = store_first job body db store

  -- `store_gate_result`
  unfoldable pub store_gate_result :
      ScanJob → VardrGateUpload → Db → ResultDb → Result (Stored × ResultDb)
  unfolding receipt_payload
  store_gate_result job body db store = do
    raise_if (ltb max_result_bytes (fields_size (receipt_payload body))) payload_too_large
    store_by (find_receipt job.id store.receipts) job body db store

  -- `POST /jobs/{job_id}/upload`
  unfoldable pub upload_job_result :
      ℕ → VardrGateUpload → CurrentUser → Db → ResultDb → Result (Stored × ResultDb)
  upload_job_result id body user db store = do
    job ← or_raise (accessible_job id user db) not_found
    writable_engagement job user db
    raise_if (is_managed job) conflict
    raise_if (not (str_eq job.tool_type vardrgate)) bad_request
    store_gate_result job body db store
