-- ===== src/TestCases/Table.antt =====
-- backend/routers/test_cases.py and backend/routers/case_authoring.py: the table of cases under any
-- sequence of the calls that write it.
use vardr_map.Base.{
  ℕ, suc, ◌++◌, all, ◌≡◌, refl, Bool, not, ◌&&◌, Option, none, some, List, [], ◌∷◌, leb, length,
  All, All-select, at-All,
}
use vardr_map.Text.{Text, text, eqb, strip}
use vardr_map.Json.{Value, obj, Fields, get, dict_at}
use vardr_map.Store.{
  Db, AuthorizationTestCase, unprocessable, bad_request, ok, raise_if, ok-injective, bind_passed,
}
use vardr_map.Store.Laws.{first-mem, transaction-cases, All-write_first, or_raise-eq_ok}
use vardr_map.Access.{CurrentUser, get_engagement_or_404, require_member_write}
use vardr_map.TestCases.Spec.{validate_spec}
use vardr_map.TestCases.Routes.{
  TestCaseCreate, TestCaseUpdate, is_case, get_case_or_404, fits_name, fits_names, or_blank,
  is_object, are_objects, clean, clean_given, update_spec, update_name, update_description,
  create_test_case, update_test_case, delete_test_case,
}
use vardr_map.TestCases.Reviewed.{
  check_url, check_reviewed, review_case, review_cases, fits_case, save_reviewed_cases,
}
use vardr_map.TestCases.Accepted.{IsAccepted, validate_spec-IsAccepted}
use mathlib.Core.Path.{subst}

pub data CaseCall : Type 0 where
  create : ℕ → Text → TestCaseCreate → CaseCall
  update : ℕ → Text → TestCaseUpdate → CaseCall
  remove : ℕ → Text → CaseCall
  review : ℕ → (ℕ → Text) → List TestCaseCreate → CaseCall

pub record CaseEvent : Type 0 where
  pub call : CaseCall
  pub user : CurrentUser
  pub now : ℕ

module _ (repr : Value → Text) (strip_html : Text → Text) where
  unfoldable pub perform : CaseCall → CurrentUser → ℕ → Db → Db
  perform (create program id body) user now db =
      (create_test_case repr strip_html program id body now user db).1
  perform (update program id body) user now db =
      (update_test_case repr strip_html program id body now user db).1
  perform (remove program id) user now db = (delete_test_case program id user db).1
  perform (review program ids cases) user now db =
      (save_reviewed_cases repr strip_html program ids cases user db).1

  abbrev pub run : List CaseEvent → Db → Db
  run [] db = db
  run (e ∷ es) db = run es (perform e.call e.user e.now db)

  -- A row whose spec the validation accepts as it stands.
  abbrev pub IsStored : AuthorizationTestCase → Type 0
  IsStored row =
      (spec : Fields) × (row.spec ≡ obj spec)
      × (validate_spec repr (obj spec) ≡ ok spec)
      × IsAccepted repr spec

  valid-IsStored :
      (v : Value) (spec : Fields)
      → validate_spec repr v ≡ ok spec
      → (validate_spec repr (obj spec) ≡ ok spec) × IsAccepted repr spec
  valid-IsStored v spec valid =
      let (same, accepted) = validate_spec-IsAccepted repr v spec valid in
      (subst (λ w. validate_spec repr w ≡ ok spec) same valid, accepted)

  created-IsStored :
      (program : ℕ) (id : Text) (body : TestCaseCreate) (now : ℕ) (user : CurrentUser) (db : Db)
      → All IsStored db.test_cases
      → All IsStored (create_test_case repr strip_html program id body now user db).1.test_cases
  unfolding create_test_case
  created-IsStored program id body now user db old =
      transaction-cases (λ d. All IsStored d.test_cases) db _ old
        λ a h.
          let (_, _, h1) =
            bind_passed
              (raise_if
                (not (
                  fits_name (clean repr strip_html body.name)
                  && leb (length (clean repr strip_html (or_blank body.description))) 5000
                  && is_object body.spec))
                unprocessable)
              _ h in
          let (e, _, h2) = bind_passed (get_engagement_or_404 program user db) _ h1 in
          let (_, _, h3) = bind_passed (require_member_write e user db) _ h2 in
          let (spec, valid, h4) = bind_passed (validate_spec repr body.spec) _ h3 in
          let (again, accepted) = valid-IsStored body.spec spec valid in
          subst (λ (r : AuthorizationTestCase × Db). All IsStored r.1.test_cases) (ok-injective h4)
            ((spec, refl, again, accepted), old)

  update_spec-IsStored :
      (o : Option Value) (row : AuthorizationTestCase) {r : AuthorizationTestCase × Bool}
      → update_spec repr strip_html o row ≡ ok r
      → IsStored row
      → IsStored r.0
  update_spec-IsStored none row h old =
      subst (λ (r : AuthorizationTestCase × Bool). IsStored r.0) (ok-injective h) old
  update_spec-IsStored (some v) row h old =
      let (spec, valid, h1) = bind_passed (validate_spec repr v) _ h in
      let (again, accepted) = valid-IsStored v spec valid in
      subst (λ (r : AuthorizationTestCase × Bool). IsStored r.0) (ok-injective h1)
        (spec, refl, again, accepted)

  update_name-IsStored :
      (o : Option Text) (row : AuthorizationTestCase)
      → IsStored row
      → IsStored (update_name repr strip_html o row)
  update_name-IsStored none row h = h
  update_name-IsStored (some t) row h = h

  update_description-IsStored :
      (o : Option Text) (row : AuthorizationTestCase)
      → IsStored row
      → IsStored (update_description repr strip_html o row)
  update_description-IsStored none row h = h
  update_description-IsStored (some t) row h = h

  updated-IsStored :
      (program : ℕ) (id : Text) (body : TestCaseUpdate) (now : ℕ) (user : CurrentUser) (db : Db)
      → All IsStored db.test_cases
      → All IsStored (update_test_case repr strip_html program id body now user db).1.test_cases
  unfolding update_test_case get_case_or_404
  updated-IsStored program id body now user db old =
      transaction-cases (λ d. All IsStored d.test_cases) db _ old
        λ a h.
          let (_, _, h1) =
            bind_passed
              (raise_if
                (not (
                  fits_names (clean_given repr strip_html body.name)
                  && leb (length (or_blank (clean_given repr strip_html body.description))) 5000
                  && are_objects body.spec))
                unprocessable)
              _ h in
          let (e, _, h2) = bind_passed (get_engagement_or_404 program user db) _ h1 in
          let (_, _, h3) = bind_passed (require_member_write e user db) _ h2 in
          let (row, got, h4) = bind_passed (get_case_or_404 program id db) _ h3 in
          let (r, valid, h5) = bind_passed (update_spec repr strip_html body.spec row) _ h4 in
          let m = (first-mem (is_case id program) db.test_cases (or_raise-eq_ok _ _ got)).0 in
          let stored = update_spec-IsStored body.spec row valid (at-All IsStored m old) in
          let named = update_name-IsStored (clean_given repr strip_html body.name) r.0 stored in
          let full =
            update_description-IsStored (clean_given repr strip_html body.description) _ named in
          subst (λ (x : AuthorizationTestCase × Db). All IsStored x.1.test_cases) (ok-injective h5)
            (All-write_first IsStored (is_case id program) _ db.test_cases full old)

  deleted-IsStored :
      (program : ℕ) (id : Text) (user : CurrentUser) (db : Db)
      → All IsStored db.test_cases
      → All IsStored (delete_test_case program id user db).1.test_cases
  unfolding delete_test_case
  deleted-IsStored program id user db old =
      transaction-cases (λ d. All IsStored d.test_cases) db _ old
        λ a h.
          let (e, _, h1) = bind_passed (get_engagement_or_404 program user db) _ h in
          let (_, _, h2) = bind_passed (require_member_write e user db) _ h1 in
          let (_, _, h3) = bind_passed (get_case_or_404 program id db) _ h2 in
          subst (λ (x : Unit {0} × Db). All IsStored x.1.test_cases) (ok-injective h3)
            (All-select IsStored (λ row. not (is_case id program row)) db.test_cases old)

  review_case-IsStored :
      (program : ℕ) (id : Text) (case : TestCaseCreate) {row : AuthorizationTestCase}
      → review_case repr strip_html program id case ≡ ok row
      → IsStored row
  unfolding review_case
  review_case-IsStored program id case h =
      let (spec, valid, h1) = bind_passed (validate_spec repr case.spec) _ h in
      let (_, _, h2) =
        bind_passed (check_url (get (text "url") (dict_at (text "request") spec))) _ h1 in
      let (_, _, h3) = bind_passed (check_reviewed spec) _ h2 in
      let (_, _, h4) =
        bind_passed (raise_if (eqb (strip (clean repr strip_html case.name)) []) bad_request) _
          h3 in
      let (again, accepted) = valid-IsStored case.spec spec valid in
      subst IsStored (ok-injective h4) (spec, refl, again, accepted)

  review_cases-IsStored :
      (program : ℕ) (ids : ℕ → Text) (n : ℕ) (cases : List TestCaseCreate)
      (old : List AuthorizationTestCase) {rows : List AuthorizationTestCase}
      → review_cases repr strip_html program ids n cases ≡ ok rows
      → All IsStored old
      → All IsStored (rows ++ old)
  unfolding review_cases
  review_cases-IsStored program ids n [] old h stored =
      subst (λ rows. All IsStored (rows ++ old)) (ok-injective h) stored
  review_cases-IsStored program ids n (case ∷ cases) old h stored =
      let (row, first_, h1) = bind_passed (review_case repr strip_html program (ids n) case) _ h in
      let (rows, rest, h2) =
        bind_passed (review_cases repr strip_html program ids (suc n) cases) _ h1 in
      subst (λ rows. All IsStored (rows ++ old)) (ok-injective h2)
        (
          review_case-IsStored program (ids n) case first_,
          review_cases-IsStored program ids (suc n) cases old rest stored,
        )

  reviewed-IsStored :
      (program : ℕ) (ids : ℕ → Text) (cases : List TestCaseCreate) (user : CurrentUser) (db : Db)
      → All IsStored db.test_cases
      → All IsStored (save_reviewed_cases repr strip_html program ids cases user db).1.test_cases
  unfolding save_reviewed_cases
  reviewed-IsStored program ids cases user db old =
      transaction-cases (λ d. All IsStored d.test_cases) db _ old
        λ a h.
          let (_, _, h1) =
            bind_passed
              (raise_if
                (not (
                  leb 1 (length cases)
                  && leb (length cases) 100
                  && all (fits_case repr strip_html) cases))
                unprocessable)
              _ h in
          let (e, _, h2) = bind_passed (get_engagement_or_404 program user db) _ h1 in
          let (_, _, h3) = bind_passed (require_member_write e user db) _ h2 in
          let (rows, made, h4) =
            bind_passed (review_cases repr strip_html program ids 0 cases) _ h3 in
          subst (λ (r : List AuthorizationTestCase × Db). All IsStored r.1.test_cases)
            (ok-injective h4) (review_cases-IsStored program ids 0 cases db.test_cases made old)

  perform-IsStored :
      (c : CaseCall) (user : CurrentUser) (now : ℕ) (db : Db)
      → All IsStored db.test_cases
      → All IsStored (perform c user now db).test_cases
  unfolding perform
  perform-IsStored (create program id body) user now db h =
      created-IsStored program id body now user db h
  perform-IsStored (update program id body) user now db h =
      updated-IsStored program id body now user db h
  perform-IsStored (remove program id) user now db h = deleted-IsStored program id user db h
  perform-IsStored (review program ids cases) user now db h =
      reviewed-IsStored program ids cases user db h

  -- If the spec of every stored case is one that `validate_spec` accepts as it is stored, and has
  -- all that acceptance establishes, then so it is after any sequence of the calls that create,
  -- change and delete cases in routers/test_cases.py and that store reviewed cases in
  -- routers/case_authoring.py, by any callers.
  pub run-IsStored :
      (es : List CaseEvent) (db : Db)
      → All IsStored db.test_cases
      → All IsStored (run es db).test_cases
  run-IsStored [] db h = h
  run-IsStored (e ∷ es) db h = run-IsStored es _ (perform-IsStored e.call e.user e.now db h)
