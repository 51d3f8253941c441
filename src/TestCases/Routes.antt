-- ===== src/TestCases/Routes.antt =====
-- backend/routers/test_cases.py: the calls that store, change and delete a test case.
use vardr_map.Base.{
  ℕ, suc, Bool, true, false, not, ◌&&◌, Option, none, some, [], ◌∷◌, ◌==◌, leb, first, length,
  select, take, if◌then◌else◌,
}
use vardr_map.Text.{Text, text, eqb}
use vardr_map.Json.{Value, obj, Fields, value_eq}
use vardr_map.Store.{
  AuthorizationTestCase, Engagement, Db, not_found, unprocessable, Result, ok, ◌>>=◌, ◌>>◌,
  raise_if, or_raise, Handler, transaction, write_first, save_engagement,
}
use vardr_map.Access.{CurrentUser, get_engagement_or_404, require_member_write}
use vardr_map.TestCases.Read.{text_at}
use vardr_map.TestCases.Spec.{validate_spec}

-- The body of a request as it was sent; what was not sent is `none`, as is a JSON `null`.
pub record TestCaseCreate : Type 0 where
  pub name : Text
  pub description : Option Text
  pub spec : Value

pub record TestCaseUpdate : Type 0 where
  pub name : Option Text
  pub description : Option Text
  pub spec : Option Value

abbrev pub is_case : Text → ℕ → AuthorizationTestCase → Bool
is_case id program row = eqb row.id id && row.program_id == program

-- `_get_or_404`
unfoldable pub get_case_or_404 : ℕ → Text → Db → Result AuthorizationTestCase
get_case_or_404 program id db = or_raise (first (is_case id program) db.test_cases) not_found

abbrev pub or_blank : Option Text → Text
or_blank none = []
or_blank (some t) = t

-- The request models take texts of some lengths and a spec that is an object.
abbrev pub fits_name : Text → Bool
fits_name t = leb 1 (length t) && leb (length t) 200

abbrev pub fits_names : Option Text → Bool
fits_names none = true
fits_names (some t) = fits_name t

abbrev pub is_object : Value → Bool
is_object (obj fs) = true
is_object v = false

abbrev pub are_objects : Option Value → Bool
are_objects none = true
are_objects (some v) = is_object v

abbrev pub bumped : Engagement → Engagement
bumped e = record e { managed_authority_revision = suc e.managed_authority_revision }

-- `security.strip_html` calls a sanitizer, and is a parameter with Python's `str`.
module _ (repr : Value → Text) (strip_html : Text → Text) where
  -- The `_clean` of the two request models
  abbrev pub clean : Text → Text
  clean t = if eqb t [] then [] else strip_html t

  abbrev pub clean_given : Option Text → Option Text
  clean_given none = none
  clean_given (some t) = some (clean t)

  abbrev pub reference_of : Fields → Text
  reference_of spec = take 200 (text_at repr (text "id") spec)

  -- `POST /engagements/{program_id}/test-cases`, with the identifier that the table draws
  unfoldable pub create_test_case :
      ℕ → Text → TestCaseCreate → ℕ → CurrentUser → Handler AuthorizationTestCase
  create_test_case program id body now user db = transaction db do
    raise_if
        (not (
          fits_name (clean body.name)
          && leb (length (clean (or_blank body.description))) 5000
          && is_object body.spec))
        unprocessable
    e ← get_engagement_or_404 program user db
    require_member_write e user db
    spec ← validate_spec repr body.spec
    let row : AuthorizationTestCase = record {
      id = id;
      program_id = program;
      name = clean body.name;
      test_case_id = reference_of spec;
      description = clean (clean (or_blank body.description));
      spec = obj spec;
      updated_at = none;
    }
    ok (row, record db { test_cases = row ∷ db.test_cases })

  -- The spec's part of an update: the row, and whether its spec is another one.
  abbrev pub update_spec :
      Option Value → AuthorizationTestCase → Result (AuthorizationTestCase × Bool)
  update_spec none row = ok (row, false)
  update_spec (some v) row = do
    spec ← validate_spec repr v
    ok (
      record row { spec = obj spec; test_case_id = reference_of spec },
      not (value_eq row.spec (obj spec)),
    )

  abbrev pub update_name : Option Text → AuthorizationTestCase → AuthorizationTestCase
  update_name none row = row
  update_name (some t) row = record row { name = t }

  abbrev pub update_description : Option Text → AuthorizationTestCase → AuthorizationTestCase
  update_description none row = row
  update_description (some t) row = record row { description = clean t }

  -- `PATCH /engagements/{program_id}/test-cases/{test_case_id}`
  unfoldable pub update_test_case :
      ℕ → Text → TestCaseUpdate → ℕ → CurrentUser → Handler AuthorizationTestCase
  update_test_case program id body now user db = transaction db do
    raise_if
        (not (
          fits_names (clean_given body.name)
          && leb (length (or_blank (clean_given body.description))) 5000
          && are_objects body.spec))
        unprocessable
    e ← get_engagement_or_404 program user db
    require_member_write e user db
    row ← get_case_or_404 program id db
    (changed, is_other) ← update_spec body.spec row
    let named =
        update_description (clean_given body.description)
          (update_name (clean_given body.name) changed)
    let written = record named { updated_at = some now }
    ok (
      written,
      record db {
        engagements = save_engagement program (if is_other then bumped e else e) db.engagements;
        test_cases = write_first (is_case id program) written db.test_cases;
      },
    )

-- `DELETE /engagements/{program_id}/test-cases/{test_case_id}`
unfoldable pub delete_test_case : ℕ → Text → CurrentUser → Handler (Unit {0})
delete_test_case program id user db = transaction db do
  e ← get_engagement_or_404 program user db
  require_member_write e user db
  get_case_or_404 program id db
  ok (
    tt,
    record db {
      engagements = save_engagement program (bumped e) db.engagements;
      test_cases = select (λ row. not (is_case id program row)) db.test_cases;
    },
  )
