-- ===== src/TestCases/Spec.antt =====
-- backend/routers/test_cases.py: `_validate_spec`, what a spec has to be to be stored.
use vardr_map.Base.{ℕ, Bool, true, false, not, ◌&&◌, ◌||◌, List, [], ◌∷◌, ltb, any, if◌then◌else◌}
use vardr_map.Text.{Text, text, eqb, strip, upper}
use vardr_map.Json.{
  Value, null, bool, str, obj, arr, cons, Fields, end, field, get, items_of, is_text, truthy,
  natural, in_range,
}
use vardr_map.Store.{bad_request, internal, Result, ok, err, ◌>>=◌, ◌>>◌, raise_if}
use vardr_map.TestCases.Read.{elements, is_hashable, is_one_of, text_at, stripped_at}
use vardr_map.TestCases.Credentials.{reject_literal_credentials, reject_environment_references}
use vardr_map.TestCases.Size.{fields_size}
use vardr_map.TestCases.Preflight.{validate_preflight}

abbrev pub max_spec_bytes : ℕ
max_spec_bytes = 256000

unfoldable pub is_mutating_method : Text → Bool
unfolding upper
is_mutating_method m =
    any (λ n. eqb (upper m) n) (text "POST" ∷ text "PUT" ∷ text "PATCH" ∷ text "DELETE" ∷ [])

-- `spec.get("mutating") is True`
abbrev pub is_true : Value → Bool
is_true (bool b) = b
is_true v = false

abbrev pub is_seen : List Text → Text → Bool
is_seen seen t = any (λ s. eqb s t) seen

abbrev pub decisions : List Text
decisions = text "allow" ∷ text "deny" ∷ text "skip" ∷ []

module _ (repr : Value → Text) where
  abbrev pub identity_of : Value → Text
  identity_of (obj identity) = stripped_at repr (text "id") identity
  identity_of v = []

  -- The loop over the identities, with the identifiers seen so far.
  abbrev pub check_ids : List Text → List Value → Result (List Text)
  check_ids seen [] = ok seen
  check_ids seen (v ∷ vs) = do
    raise_if (eqb (identity_of v) []) bad_request
    raise_if (is_seen seen (identity_of v)) bad_request
    check_ids (identity_of v ∷ seen) vs

  abbrev pub check_identities : Value → Result (List Text)
  check_identities (arr (cons v vs)) = check_ids [] (items_of (arr (cons v vs)))
  check_identities v = err bad_request

  -- A request with a method and a URL.
  unfoldable pub check_target : Value → Result Fields
  check_target (obj request) = do
    raise_if (eqb (stripped_at repr (text "method") request) []) bad_request
    raise_if (eqb (stripped_at repr (text "url") request) []) bad_request
    ok request
  check_target v = err bad_request

  -- A request that changes data needs `mutating`.
  unfoldable pub check_mutating : Fields → Fields → Result (Unit {0})
  check_mutating spec request =
      raise_if
        (is_mutating_method (text_at repr (text "method") request)
          && not (is_true (get (text "mutating") spec)))
        bad_request

  abbrev pub check_expected : List Text → List Value → Result (Unit {0})
  check_expected seen [] = ok tt
  check_expected seen (obj expected ∷ vs) = do
    raise_if (not (is_seen seen (text_at repr (text "identity_id") expected))) bad_request
    raise_if (not (is_hashable (get (text "decision") expected))) internal
    raise_if (not (is_one_of decisions (get (text "decision") expected))) bad_request
    check_expected seen vs
  check_expected seen (v ∷ vs) = err bad_request

  abbrev pub check_deny_status : List Value → Result (Unit {0})
  check_deny_status [] = ok tt
  check_deny_status (v ∷ vs) = do
    raise_if (not (in_range 100 599 (natural v))) bad_request
    raise_if (in_range 200 299 (natural v)) bad_request
    check_deny_status vs

  abbrev pub is_known : List Text → Text → Bool
  is_known seen t = eqb t [] || is_seen seen t

  abbrev pub roles_of : Value → Result (List Value)
  roles_of (arr vs) = ok (items_of (arr vs))
  roles_of v = if truthy v then err bad_request else ok []

  unfoldable pub check_resource : Fields → List Text → Value → Result (Unit {0})
  check_resource spec seen null = ok tt
  check_resource spec seen (obj resource) = do
    raise_if (not (is_known seen (text_at repr (text "owner_identity") resource))) bad_request
    roles ← roles_of (get (text "role_hierarchy") spec)
    let role = text_at repr (text "required_role") resource
    raise_if (not (eqb role []) && not (any (is_text role) roles)) bad_request
  check_resource spec seen v = err bad_request

  unfoldable pub are_captures : Fields → Bool
  unfolding strip
  are_captures end = true
  are_captures (field k (str v) fs) =
      not (eqb (strip k) []) && not (eqb (strip v) []) && are_captures fs
  are_captures (field k v fs) = false

  abbrev pub is_capture : Value → Bool
  is_capture (obj fs) = are_captures fs
  is_capture v = not (truthy v)

  -- The loop over the steps, with the names seen so far; "" may stand twice.
  unfoldable pub check_steps : Fields → List Text → List Text → List Value → Result (Unit {0})
  check_steps spec seen names [] = ok tt
  check_steps spec seen names (obj step ∷ vs) = do
    request ← check_target (get (text "request") step)
    raise_if (not (is_known seen (text_at repr (text "as") step))) bad_request
    let name = text_at repr (text "name") step
    raise_if (not (eqb name []) && is_seen names name) bad_request
    check_mutating spec request
    raise_if (not (is_capture (get (text "capture") step))) bad_request
    check_steps spec seen (name ∷ names) vs
  check_steps spec seen names (v ∷ vs) = err bad_request

  -- `_validate_spec` of an object that is not empty
  unfoldable pub validate_fields : Fields → Result Fields
  validate_fields spec = do
    raise_if (ltb max_spec_bytes (fields_size spec)) bad_request
    raise_if (eqb (stripped_at repr (text "id") spec) []) bad_request
    seen ← check_identities (get (text "identities") spec)
    request ← check_target (get (text "request") spec)
    check_mutating spec request
    expected ← elements (get (text "expected_access") spec)
    check_expected seen expected
    codes ← elements (get (text "deny_status") spec)
    check_deny_status codes
    check_resource spec seen (get (text "resource") spec)
    steps ← elements (get (text "setup") spec)
    check_steps spec seen [] steps
    reject_literal_credentials repr spec
    reject_environment_references (obj spec)
    validate_preflight repr spec
    ok spec

  -- `_validate_spec`
  abbrev pub validate_spec : Value → Result Fields
  validate_spec (obj (field k v fs)) = validate_fields (field k v fs)
  validate_spec v = err bad_request
