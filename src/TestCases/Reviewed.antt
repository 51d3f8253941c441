-- ===== src/TestCases/Reviewed.antt =====
-- backend/routers/case_authoring.py: `save_reviewed_cases`, which stores cases that a person has
-- reviewed, all of them or none.
use vardr_map.Base.{
  ℕ, suc, Bool, false, not, ◌&&◌, ◌||◌, Option, none, some, List, [], ◌∷◌, ◌++◌, ◌==◌, all, any,
  leb, length, map, if◌then◌else◌,
}
use vardr_map.Text.{Text, text, eqb, is_space, strip, before, after}
use vardr_map.Json.{
  Value, str, num, bool, obj, Fields, get, fields_of, dict_at, list_at, is_text, same_value,
}
use vardr_map.Store.{
  AuthorizationTestCase, bad_request, unprocessable, internal, Result, ok, err, ◌>>=◌, ◌>>◌,
  raise_if, Handler, transaction,
}
use vardr_map.Access.{CurrentUser, get_engagement_or_404, require_member_write}
use vardr_map.Url.{SplitResult, urlsplit, hostname}
use vardr_map.TestCases.Read.{elements, is_hashable}
use vardr_map.TestCases.Spec.{validate_spec}
use vardr_map.TestCases.Routes.{TestCaseCreate, fits_name, or_blank, is_object, clean, reference_of}

-- `s.rpartition("@")[0]`
abbrev pub before_last : ℕ → Text → Text
before_last c [] = []
before_last c (d ∷ s) = let rest = before_last c s in if any (λ e. e == c) s then d ∷ rest else []

-- `parts.username or parts.password`
unfoldable pub has_credentials : SplitResult → Bool
unfolding before after
has_credentials parts =
    let userinfo = before_last b'@' parts.netloc in
    not (eqb (before b':' userinfo) []) || not (eqb (after b':' userinfo) [])

abbrev pub is_variable_mark : ℕ → Bool
is_variable_mark c = c == b'{' || c == b'}' || is_space c

unfoldable pub is_concrete_parts : Option SplitResult → Bool
unfolding hostname has_credentials
is_concrete_parts none = false
is_concrete_parts (some parts) =
    (eqb parts.scheme (text "http") || eqb parts.scheme (text "https"))
    && not (eqb (hostname parts) [])
    && not (has_credentials parts)
    && eqb parts.fragment []

-- The check of the URL. A list or a dictionary is a TypeError that the handler catches; a number or
-- a Boolean has no `decode`, which nothing catches.
unfoldable pub check_url : Value → Result (Unit {0})
unfolding urlsplit is_concrete_parts
check_url (str url) =
    raise_if (not (is_concrete_parts (urlsplit url) && not (any is_variable_mark url))) bad_request
check_url (num n) = err internal
check_url (bool b) = err internal
check_url v = err bad_request

abbrev pub is_in : List Value → Value → Bool
is_in vs v = any (λ w. same_value w v) vs

-- The elements of a set of values.
abbrev pub distinct : List Value → List Value
distinct [] = []
distinct (v ∷ vs) = let rest = distinct vs in if is_in vs v then rest else v ∷ rest

abbrev pub is_decided : Fields → Bool
is_decided expected = not (is_text (text "skip") (get (text "decision") expected))

-- One decision for each identity, and not all of them to skip.
unfoldable pub check_reviewed : Fields → Result (Unit {0})
check_reviewed spec = do
  rows ← elements (get (text "expected_access") spec)
  let expected = map fields_of rows
  let ids = map (λ v. get (text "id") (fields_of v)) (list_at (text "identities") spec)
  let named = map (get (text "identity_id")) expected
  raise_if (not (all is_hashable ids)) internal
  raise_if (not (length expected == length (distinct ids))) bad_request
  raise_if (not (all is_hashable named)) internal
  raise_if (not (all (is_in ids) named && all (is_in named) ids && any is_decided expected))
      bad_request

module _ (repr : Value → Text) (strip_html : Text → Text) where
  -- The body of the loop, for the case with this identifier.
  unfoldable pub review_case : ℕ → Text → TestCaseCreate → Result AuthorizationTestCase
  unfolding check_url check_reviewed strip
  review_case program id case = do
    spec ← validate_spec repr case.spec
    check_url (get (text "url") (dict_at (text "request") spec))
    check_reviewed spec
    raise_if (eqb (strip (clean repr strip_html case.name)) []) bad_request
    ok (record {
      id = id;
      program_id = program;
      name = clean repr strip_html case.name;
      test_case_id = reference_of repr strip_html spec;
      description = strip_html (clean repr strip_html (or_blank case.description));
      spec = obj spec;
      updated_at = none;
    })

  -- The loop, with the number of the next case.
  unfoldable pub review_cases :
      ℕ → (ℕ → Text) → ℕ → List TestCaseCreate → Result (List AuthorizationTestCase)
  unfolding review_case
  review_cases program ids n [] = ok []
  review_cases program ids n (case ∷ cases) = do
    row ← review_case program (ids n) case
    rows ← review_cases program ids (suc n) cases
    ok (row ∷ rows)

  abbrev pub fits_case : TestCaseCreate → Bool
  fits_case case =
      fits_name (clean repr strip_html case.name)
      && leb (length (clean repr strip_html (or_blank case.description))) 5000
      && is_object case.spec

  -- `POST /engagements/{program_id}/test-cases/reviewed`, with the identifiers that the table draws
  unfoldable pub save_reviewed_cases :
      ℕ → (ℕ → Text) → List TestCaseCreate → CurrentUser → Handler (List AuthorizationTestCase)
  unfolding review_cases
  save_reviewed_cases program ids cases user db = transaction db do
    raise_if (not (leb 1 (length cases) && leb (length cases) 100 && all fits_case cases))
        unprocessable
    e ← get_engagement_or_404 program user db
    require_member_write e user db
    rows ← review_cases program ids 0 cases
    ok (rows, record db { test_cases = rows ++ db.test_cases })
