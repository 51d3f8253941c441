-- ===== src/Results/Tests.antt =====
-- Two uploads for one job, and a third that is another one.
use vardr_map.Base.{◌≡◌, ◌⊎◌, refl, true, false, none, some, [], ◌∷◌, ltb}
use vardr_map.Text.{Text, text, eqb}
use vardr_map.Json.{Value, str, num, pos, Fields, field, end, get, as_text}
use vardr_map.Store.{Db, Engagement, ScanJob, Status, ok, err, conflict, find_engagement, find_job}
use vardr_map.Access.{CurrentUser, accessing, get_engagement_or_404, require_member_write}
use vardr_map.Execution.{accessible_job}
use vardr_map.Jobs.Update.{writable_engagement}
use vardr_map.Jobs.Targets.{case_ref}
use vardr_map.TestCases.Size.{fields_size}
use vardr_map.Results.Payload.{VardrGateUpload, safe_rows, receipt_payload, legacy_payload}
use vardr_map.Results.Upload.{
  ResultDb, Stored, max_result_bytes, find_receipt, write_result, store_first, store_gate_result,
  upload_job_result, authoritative_spec,
}
use vardr_map.Results.Once.{upload_job_result-once}
use vardr_map.Results.Answers.{Again, First, upload_job_result-stored}

abbrev no_repr : Value → Text
no_repr v = []

abbrev by_case : Fields → Text
by_case fs = as_text (get (text "test_case_id") fs)

abbrev as_is : Text → Text
as_is t = t

abbrev engagement : Engagement
engagement = record {
  id = 1;
  owner_github_id = 7;
  org_id = none;
  engagement_type = "bug_bounty";
  engagement_status = "active";
  stop_work_at = none;
  max_request_rate = none;
  concurrency_limit = none;
  target_limit = none;
  targets_spent = 0;
  duration_limit = none;
  duration_allocated = 0;
  managed_authority_revision = 0;
}

abbrev job : ScanJob
job = record {
  id = 10;
  program_id = 1;
  tool_type = "vardrgate_api_test";
  target_source = "scope";
  config = end;
  case_snapshot = none;
  managed_approval_id = none;
  authorization_contract_required = false;
  status = Status.running;
  depends_on = none;
  started_at = none;
  completed_at = none;
  error_message = [];
  execution = none;
}

abbrev db : Db
db = record {
  org_members = [];
  members = [];
  authorizations = [];
  scope_items = [];
  recon_items = [];
  test_cases = [];
  engagements = engagement ∷ [];
  jobs = job ∷ [];
}

abbrev owner : CurrentUser
owner = record { github_id = 7; scope = "full" }

abbrev finding : Fields
finding =
    field (text "severity") (str (text " HIGH"))
      (field (text "message") (str (text "guest reads orders")) end)

abbrev execution : Fields
execution = field (text "identity_id") (str (text "guest")) (
    field (text "observed_outcome") (str (text "allow")) (
      field (text "status_code") (num (pos 200)) (
        field (text "headers") (Value.obj (field (text "Set-Cookie") (str (text "sid=1")) end))
          end)))

abbrev upload : Text → VardrGateUpload
upload case = record {
  case_hash = [];
  test_case_id = case;
  executions = execution ∷ [];
  findings = finding ∷ [];
  preflight = [];
  assessments = [];
}

abbrev empty : ResultDb
empty = record { receipts = []; scan_items = []; evidence = []; assessments = [] }

abbrev first_answer : Stored
first_answer = record {
  job_id = 10;
  scan_items_created = 1;
  evidence_created = 1;
  already_processed = false;
}

-- The store after the upload.
abbrev stored : ResultDb
stored =
    (write_result no_repr by_case as_is job (upload (text "orders")) end (text "orders") empty).1

unfoldable uploading : Unit {0}
unfolding upload_job_result accessible_job accessing find_engagement find_job get_engagement_or_404
    require_member_write writable_engagement store_gate_result find_receipt store_first
    authoritative_spec receipt_payload safe_rows write_result case_ref
uploading = tt

uploads :
    upload_job_result no_repr by_case as_is 10 (upload (text "orders")) owner db empty
    ≡ ok (first_answer, stored)
unfolding uploading
uploads = refl

small : ltb max_result_bytes (fields_size (receipt_payload (upload (text "users")))) ≡ false
unfolding uploading
small = refl

differs :
    eqb
      (by_case (receipt_payload (upload (text "orders"))))
      (by_case (receipt_payload (upload (text "users"))))
    ≡ false
unfolding uploading
differs = refl

upload_job_result-stored_example :
    (j : ScanJob) × (find_job 10 db.jobs ≡ some j)
    × (Again no_repr by_case as_is j (upload (text "orders")) first_answer empty stored
        ⊎ First no_repr by_case as_is j (upload (text "orders")) db first_answer empty stored)
upload_job_result-stored_example =
    upload_job_result-stored no_repr by_case as_is 10 (upload (text "orders")) owner db empty stored
      first_answer uploads

upload_job_result-once_example :
    (upload_job_result no_repr by_case as_is 10 (upload (text "orders")) owner db stored
      ≡ ok (record first_answer { already_processed = true }, stored))
    × ((other : VardrGateUpload)
        → ltb max_result_bytes (fields_size (receipt_payload other)) ≡ false
        → eqb (by_case (receipt_payload (upload (text "orders")))) (by_case (receipt_payload other))
          ≡ false
        → eqb (by_case (receipt_payload (upload (text "orders")))) (by_case (legacy_payload other))
          ≡ false
        → upload_job_result no_repr by_case as_is 10 other owner db stored ≡ err conflict)
upload_job_result-once_example =
    upload_job_result-once no_repr by_case as_is 10 (upload (text "orders")) owner db empty stored
      first_answer uploads refl

-- The other payload does meet its conditions.
conflicts :
    upload_job_result no_repr by_case as_is 10 (upload (text "users")) owner db stored
    ≡ err conflict
unfolding receipt_payload
conflicts = upload_job_result-once_example.1 (upload (text "users")) small differs refl
