-- ===== src/TestCases/Accepted.antt =====
-- backend/routers/test_cases.py: what `_validate_spec` establishes, and that the table of cases
-- keeps it.
use mathlib.Core.Path.{subst}
use vardr_map.Base.{
  ℕ, ◌≡◌, ◌≤◌, sym, ap, ◌∙◌, true, false, not, ◌&&◌, List, [], ◌∷◌, ltb, All, arith,
}
use vardr_map.Text.{Text, text, eqb}
use vardr_map.Json.{
  Value, str, num, bool, null, obj, arr, Fields, field, end, get, dict_at, fields_of,
}
use vardr_map.Store.{bad_request, ok, raise_if, ok-injective, err-ne-ok, bind_passed}
use vardr_map.Store.Laws.{raise_if-eq_ok}
use vardr_map.TestCases.Read.{elements, text_at, stripped_at}
use vardr_map.TestCases.Size.{fields_size}
use vardr_map.TestCases.Credentials.{reject_literal_credentials, reject_environment_references}
use vardr_map.TestCases.Preflight.{validate_preflight}
use vardr_map.TestCases.Spec.{
  max_spec_bytes, is_mutating_method, is_true, is_seen, is_known, is_capture, check_identities,
  check_target, check_mutating, check_expected, check_deny_status, check_resource, check_steps,
  validate_fields, validate_spec,
}
use vardr_map.TestCases.Safe.{IsSafe, check_identities-All, reject_environment_references_iff}

module _ (repr : Value → Text) where
  -- A request that names a method that changes data does so in a case marked as mutating.
  abbrev pub IsMarked : Fields → Fields → Type 0
  IsMarked spec request =
      is_mutating_method (text_at repr (text "method") request) ≡ true
      → is_true (get (text "mutating") spec) ≡ true

  -- The request of a step.
  abbrev pub step_request : Value → Fields
  step_request step = dict_at (text "request") (fields_of step)

  pub record IsAccepted (spec : Fields) : Type 0 where
    pub size : fields_size spec ≤ max_spec_bytes
    pub safe : IsSafe repr (obj spec)
    pub request : IsMarked spec (dict_at (text "request") spec)
    pub steps :
        (vs : List Value)
        → elements (get (text "setup") spec) ≡ ok vs
        → All (λ v. IsMarked spec (step_request v)) vs

  check_target-request :
      (v : Value) {request : Fields} → check_target repr v ≡ ok request → fields_of v ≡ request
  unfolding check_target
  check_target-request (obj r) h =
      let (_, _, h1) =
        bind_passed (raise_if (eqb (stripped_at repr (text "method") r) []) bad_request) _ h in
      let (_, _, h2) =
        bind_passed (raise_if (eqb (stripped_at repr (text "url") r) []) bad_request) _ h1 in
      ok-injective h2
  check_target-request (str s) h = absurd (err-ne-ok h)
  check_target-request (num n) h = absurd (err-ne-ok h)
  check_target-request (bool b) h = absurd (err-ne-ok h)
  check_target-request null h = absurd (err-ne-ok h)
  check_target-request (arr vs) h = absurd (err-ne-ok h)

  check_mutating-IsMarked :
      (spec request : Fields) → check_mutating repr spec request ≡ ok tt → IsMarked spec request
  unfolding check_mutating
  check_mutating-IsMarked spec request h m =
      let marked = raise_if-eq_ok _ bad_request h in ground (arith, marked)

  target-IsMarked :
      (spec : Fields) (v : Value) {request : Fields}
      → check_target repr v ≡ ok request
      → check_mutating repr spec request ≡ ok tt
      → IsMarked spec (fields_of v)
  target-IsMarked spec v {request} t m =
      subst (IsMarked spec) (sym (check_target-request v t))
        (check_mutating-IsMarked spec request m)

  check_steps-All :
      (spec : Fields) (seen names : List Text) (vs : List Value)
      → check_steps repr spec seen names vs ≡ ok tt
      → All (λ v. IsMarked spec (step_request v)) vs
  unfolding check_steps
  check_steps-All spec seen names [] h = tt
  check_steps-All spec seen names (obj step ∷ vs) h =
      let name = text_at repr (text "name") step in
      let (request, t, h1) = bind_passed (check_target repr (get (text "request") step)) _ h in
      let (_, _, h2) =
        bind_passed
          (raise_if (not (is_known repr seen (text_at repr (text "as") step))) bad_request) _ h1 in
      let (_, _, h3) =
        bind_passed (raise_if (not (eqb name []) && is_seen names name) bad_request) _ h2 in
      let (_, m, h4) = bind_passed (check_mutating repr spec request) _ h3 in
      let (_, _, h5) =
        bind_passed (raise_if (not (is_capture repr (get (text "capture") step))) bad_request) _
          h4 in
      (
        target-IsMarked spec (get (text "request") step) t m,
        check_steps-All spec seen (name ∷ names) vs h5,
      )
  check_steps-All spec seen names (str s ∷ vs) h = absurd (err-ne-ok h)
  check_steps-All spec seen names (num n ∷ vs) h = absurd (err-ne-ok h)
  check_steps-All spec seen names (bool b ∷ vs) h = absurd (err-ne-ok h)
  check_steps-All spec seen names (null ∷ vs) h = absurd (err-ne-ok h)
  check_steps-All spec seen names (arr ws ∷ vs) h = absurd (err-ne-ok h)

  within : (n : ℕ) → ltb max_spec_bytes n ≡ false → n ≤ max_spec_bytes
  within n h = ground arith

  validate_fields-IsAccepted :
      (spec spec' : Fields)
      → validate_fields repr spec ≡ ok spec'
      → (spec ≡ spec') × IsAccepted spec
  unfolding validate_fields reject_literal_credentials
  validate_fields-IsAccepted spec spec' h =
      let (_, small, h1) =
        bind_passed (raise_if (ltb max_spec_bytes (fields_size spec)) bad_request) _ h in
      let (_, _, h2) =
        bind_passed (raise_if (eqb (stripped_at repr (text "id") spec) []) bad_request) _ h1 in
      let (seen, _, h3) = bind_passed (check_identities repr (get (text "identities") spec)) _ h2 in
      let (request, t, h4) = bind_passed (check_target repr (get (text "request") spec)) _ h3 in
      let (_, m, h5) = bind_passed (check_mutating repr spec request) _ h4 in
      let (expected, _, h6) = bind_passed (elements (get (text "expected_access") spec)) _ h5 in
      let (_, _, h7) = bind_passed (check_expected repr seen expected) _ h6 in
      let (codes, _, h8) = bind_passed (elements (get (text "deny_status") spec)) _ h7 in
      let (_, _, h9) = bind_passed (check_deny_status repr codes) _ h8 in
      let (_, _, h10) =
        bind_passed (check_resource repr spec seen (get (text "resource") spec)) _ h9 in
      let (steps, listed, h11) = bind_passed (elements (get (text "setup") spec)) _ h10 in
      let (_, marked, h12) = bind_passed (check_steps repr spec seen [] steps) _ h11 in
      let (_, literal, h13) = bind_passed (reject_literal_credentials repr spec) _ h12 in
      let (_, free, h14) = bind_passed (reject_environment_references (obj spec)) _ h13 in
      let (_, _, same) = bind_passed (validate_preflight repr spec) _ h14 in
      (
        ok-injective same,
        record {
          size = within (fields_size spec) (raise_if-eq_ok _ bad_request small);
          safe = record {
            identities = check_identities-All repr _ literal;
            no_references = (reject_environment_references_iff (obj spec)).0 free;
          };
          request = target-IsMarked spec (get (text "request") spec) t m;
          steps = λ vs e.
              subst (All (λ v. IsMarked spec (step_request v))) (ok-injective (sym listed ∙ e))
                (check_steps-All spec seen [] steps marked);
        },
      )

  -- A spec that is accepted is the one that was sent. It takes at most 256,000 bytes; each of its
  -- identities, the reader of its write check among them, has a credential of a known type with no
  -- literal value and at most one reference, none only if it is a static header; no text in it
  -- contains `${`; and its request, and that of every setup step, names POST, PUT, PATCH or DELETE
  -- only if the case says that it is mutating.
  pub validate_spec-IsAccepted :
      (v : Value) (spec : Fields)
      → validate_spec repr v ≡ ok spec
      → (v ≡ obj spec) × IsAccepted spec
  validate_spec-IsAccepted (obj (field k v fs)) spec h =
      let (same, accepted) = validate_fields-IsAccepted (field k v fs) spec h in
      (ap obj same, subst IsAccepted same accepted)
  validate_spec-IsAccepted (obj end) spec h = absurd (err-ne-ok h)
  validate_spec-IsAccepted (str s) spec h = absurd (err-ne-ok h)
  validate_spec-IsAccepted (num n) spec h = absurd (err-ne-ok h)
  validate_spec-IsAccepted (bool b) spec h = absurd (err-ne-ok h)
  validate_spec-IsAccepted null spec h = absurd (err-ne-ok h)
  validate_spec-IsAccepted (arr vs) spec h = absurd (err-ne-ok h)
