-- ===== src/TestCases/Tests.antt =====
-- A case of routers/test_cases.py, stored and then spoilt.
use vardr_map.Base.{◌≡◌, ◌↔◌, refl, none, some, List, [], ◌∷◌, All, map}
use vardr_map.Text.{Text, text, upper, strip, contains_text}
use vardr_map.Json.{Value, str, num, obj, arr, pos, Fields, field, end, cons, nil}
use vardr_map.Store.{Db, Engagement, ok, err, bad_request, transaction, find_engagement}
use vardr_map.Access.{CurrentUser, accessing, get_engagement_or_404, require_member_write}
use vardr_map.Url.{splitting}
use vardr_map.TestCases.Read.{
  preflight_origin, is_plain_http, with_port, read_port, origin_of, stripped_at,
}
use vardr_map.TestCases.Credentials.{
  check_credential, reject_literal_credentials, reject_environment_references,
}
use vardr_map.TestCases.Preflight.{check_preflight, validate_preflight}
use vardr_map.TestCases.Spec.{
  is_mutating_method, check_target, check_mutating, check_resource, are_captures, check_steps,
  validate_fields, validate_spec,
}
use vardr_map.TestCases.Routes.{TestCaseCreate, create_test_case, update_test_case, get_case_or_404}
use vardr_map.TestCases.Safe.{NoReference, texts, reject_environment_references_iff}
use vardr_map.TestCases.Accepted.{IsAccepted, validate_spec-IsAccepted}
use vardr_map.TestCases.Reviewed.{
  save_reviewed_cases, review_cases, review_case, check_url, check_reviewed, is_concrete_parts,
  has_credentials,
}
use vardr_map.TestCases.Table.{create, update, CaseEvent, perform, run, IsStored, run-IsStored}

abbrev no_repr : Value → Text
no_repr v = []

abbrev as_is : Text → Text
as_is t = t

abbrev pair : Text → Value → Fields → Fields
pair k v fs = field k v fs

abbrev preflight : Value
preflight = obj (
    pair (text "url") (str (text "https://API.example.com/me")) (
      pair (text "expected_status") (num (pos 200))
        (pair (text "json_fields") (obj (pair (text "user.id") (str (text "7")) end)) end)))

abbrev bearer : Fields → Value
bearer others = obj (pair (text "type") (str (text "bearer")) others)

abbrev by_name : Fields
by_name = pair (text "value_env") (str (text "OWNER_TOKEN")) end

abbrev identity : Fields → Value
identity cred = obj (
    pair (text "id") (str (text "owner"))
      (pair (text "credential") (bearer cred) (pair (text "preflight") preflight end)))

abbrev request : Text → Value
request method = obj (
    pair (text "method") (str method)
      (pair (text "url") (str (text "https://api.example.com:443/orders")) end))

abbrev case_of : Fields → Text → Fields
case_of cred method = pair (text "id") (str (text "orders")) (
    pair (text "identities") (arr (cons (identity cred) nil))
      (pair (text "request") (request method) end))

abbrev spec : Fields
spec = case_of by_name (text "GET")

unfoldable validating : Unit {0}
unfolding splitting validate_fields check_target check_mutating is_mutating_method check_resource
    are_captures check_steps reject_literal_credentials check_credential validate_preflight
    check_preflight preflight_origin is_plain_http with_port read_port origin_of stripped_at strip
    upper contains_text
validating = tt

accepts : validate_spec no_repr (obj spec) ≡ ok spec
unfolding validating
accepts = refl

-- A literal token, or a request that changes data in a case that does not say so, is refused.
refuses_literal :
    validate_spec no_repr
      (obj (case_of (pair (text "value") (str (text "abc")) by_name) (text "GET")))
    ≡ err bad_request
unfolding validating
refuses_literal = refl

refuses_write : validate_spec no_repr (obj (case_of by_name (text "post"))) ≡ err bad_request
unfolding validating
refuses_write = refl

validate_spec-IsAccepted_example : (obj spec ≡ obj spec) × IsAccepted no_repr spec
validate_spec-IsAccepted_example = validate_spec-IsAccepted no_repr (obj spec) spec accepts

reject_environment_references_iff_example :
    (reject_environment_references (obj spec) ≡ ok tt) ↔ All NoReference (texts (obj spec))
reject_environment_references_iff_example = reject_environment_references_iff (obj spec)

abbrev engagement : Engagement
engagement = record {
  id = 1;
  owner_github_id = 7;
  org_id = none;
  engagement_type = "bug_bounty";
  engagement_status = "active";
  stop_work_at = none;
  max_request_rate = none;
  concurrency_limit = none;
  target_limit = none;
  targets_spent = 0;
  duration_limit = none;
  duration_allocated = 0;
  managed_authority_revision = 0;
}

abbrev start : Db
start = record {
  org_members = [];
  members = [];
  authorizations = [];
  scope_items = [];
  recon_items = [];
  test_cases = [];
  engagements = engagement ∷ [];
  jobs = [];
}

abbrev owner : CurrentUser
owner = record { github_id = 7; scope = "full" }

abbrev events : List CaseEvent
events =
    record {
      call =
          create 1 (text "c1")
            (record { name = text "Orders"; description = none; spec = obj spec });
      user = owner;
      now = 10;
    }
    ∷ record {
      call = update 1 (text "c1") (record {
        name = none;
        description = none;
        spec = some (obj (case_of (pair (text "value") (str (text "abc")) end) (text "GET")));
      });
      user = owner;
      now = 11;
    }
    ∷ []

-- The update with a literal token is refused, and the case stays as it was stored.
keeps_stored : map (λ row. row.spec) (run no_repr as_is events start).test_cases ≡ obj spec ∷ []
unfolding validating accessing get_engagement_or_404 require_member_write transaction
    find_engagement perform create_test_case update_test_case get_case_or_404
keeps_stored = refl

-- A case that a person has reviewed: the owner may read the orders.
abbrev reviewed_spec : Text → Fields
reviewed_spec url = pair (text "id") (str (text "orders")) (
    pair (text "identities") (arr (cons (identity by_name) nil)) (
      pair (text "request")
        (obj (pair (text "method") (str (text "GET")) (pair (text "url") (str url) end)))
        (pair (text "expected_access")
          (arr (
            cons
              (obj (
                pair (text "identity_id") (str (text "owner"))
                  (pair (text "decision") (str (text "allow")) end)))
              nil))
          end)))

abbrev reviewed : Fields → List TestCaseCreate
reviewed case = record { name = text "Orders"; description = none; spec = obj case } ∷ []

-- A reviewed case with a concrete URL is stored; one with a variable in its URL, and one with no
-- decision, are not.
reviews :
    (map
        (λ row. row.spec)
        (save_reviewed_cases no_repr as_is 1
          (λ n. text "c2")
          (reviewed (reviewed_spec (text "https://api.example.com/orders")))
          owner
          start).1.test_cases
      ≡ obj (reviewed_spec (text "https://api.example.com/orders")) ∷ [])
    × ((save_reviewed_cases no_repr as_is 1
          (λ n. text "c2")
          (reviewed (reviewed_spec (text "https://api.example.com/{id}")))
          owner
          start).0
        ≡ err bad_request)
    × ((save_reviewed_cases no_repr as_is 1 (λ n. text "c2") (reviewed spec) owner start).0
        ≡ err bad_request)
unfolding validating accessing get_engagement_or_404 require_member_write transaction
    find_engagement save_reviewed_cases review_cases review_case check_url check_reviewed
    is_concrete_parts has_credentials
reviews = (refl, refl, refl)

run-IsStored_example : All (IsStored no_repr as_is) (run no_repr as_is events start).test_cases
run-IsStored_example = run-IsStored no_repr as_is events start tt
