-- ===== src/Assessment/Preflight.antt =====
-- backend/assessments.py: `assess_preflight`, which says whether the sessions of a run were
-- established.
use vardr_map.Base.{
  ℕ, Bool, true, false, not, ◌&&◌, List, [], ◌∷◌, all, any, count, ltb, map, if◌then◌else◌,
}
use vardr_map.Text.{Text, text}
use vardr_map.Json.{Value, null, num, Fields, get, is_text, as_text, same_value, fields_of}
use vardr_map.Assessment.Case.{id_of, identities_of, reader_of, key_of, reported_for}

-- The status of one check, and of a session.
pub data Check : Type 0 where
  not_configured missing inconclusive passed failed : Check

abbrev pub is_passed : Check → Bool
is_passed passed = true
is_passed _ = false

abbrev pub is_failed : Check → Bool
is_failed failed = true
is_failed _ = false

-- A preflight that a case declares: the identity and its `preflight`.
pub record Declared : Type 0 where
  pub identity_id : Value
  pub config : Fields

pub record CheckedIdentity : Type 0 where
  pub identity_id : Value
  pub status : Check
  pub reason : Text
  pub code : Value

pub record Session : Type 0 where
  pub status : Check
  pub identities : List CheckedIdentity
  pub unexpected : ℕ

abbrev pub is_null : Value → Bool
is_null null = true
is_null v = false

-- `declared[id] = config`
abbrev pub declare : Declared → List Declared → List Declared
declare d [] = d ∷ []
declare d (e ∷ es) =
    let rest = declare d es in
    if same_value e.identity_id d.identity_id then record e { config = d.config } ∷ es else e ∷ rest

abbrev pub declare_if : Fields → List Declared → List Declared
declare_if identity ds =
    if is_null (get (text "preflight") identity)
    then ds
    else declare
        (record {
          identity_id = id_of identity;
          config = fields_of (get (text "preflight") identity);
        })
        ds

abbrev pub declare_all : List Fields → List Declared → List Declared
declare_all [] ds = ds
declare_all (identity ∷ identities) ds = declare_all identities (declare_if identity ds)

unfoldable pub declared_preflights : Fields → List Declared
declared_preflights spec = declare_if (reader_of spec) (declare_all (identities_of spec) [])

abbrev pub failure_reasons : List Text
failure_reasons =
    text "credential_rejected"
    ∷ text "identity_mismatch"
    ∷ text "unexpected_status"
    ∷ text "execution_error"
    ∷ []

-- `type(code) is int and code == expected`
abbrev pub is_code : Value → Value → Bool
is_code (num n) expected = same_value (num n) expected
is_code code expected = false

-- What one row says.
unfoldable pub check_row : Fields → Fields → Check × Text
check_row config row =
    if is_text (text "passed") (get (text "status") row)
      && is_text (text "identity_verified") (get (text "reason") row)
      && is_code (get (text "status_code") row) (get (text "expected_status") config)
    then (passed, text "identity_verified")
    else if is_text (text "failed") (get (text "status") row)
        && any (λ r. is_text r (get (text "reason") row)) failure_reasons
    then (failed, as_text (get (text "reason") row))
    else (inconclusive, text "preflight_inconsistent")

abbrev pub check_rows : Fields → List Fields → Check × Text
check_rows config [] = (missing, text "preflight_missing")
check_rows config (row ∷ []) = check_row config row
check_rows config (_ ∷ _ ∷ _) = (inconclusive, text "duplicate_preflight")

abbrev pub code_of : List Fields → Value
code_of (row ∷ []) = get (text "status_code") row
code_of _ = null

abbrev pub unless_verified : Bool → Check × Text → Check × Text
unless_verified verified result =
    if verified then result else (inconclusive, text "case_snapshot_unverified")

abbrev pub session_status : List CheckedIdentity → ℕ → Check
session_status [] unexpected = if ltb 0 unexpected then inconclusive else not_configured
session_status (i ∷ is) unexpected =
    if ltb 0 unexpected
    then inconclusive
    else if all (λ c. is_passed c.status) (i ∷ is)
    then passed
    else if any (λ c. is_failed c.status) (i ∷ is)
    then failed
    else inconclusive

module _ (repr : Value → Text) where
  unfoldable pub check_identity : Bool → List Fields → Declared → CheckedIdentity
  unfolding check_row
  check_identity verified rows d =
      let items = reported_for repr d.identity_id rows in
      let (status, reason) = unless_verified verified (check_rows d.config items) in
      record { identity_id = d.identity_id; status = status; reason = reason; code = code_of items }

  abbrev pub is_undeclared : List Declared → Fields → Bool
  is_undeclared ds row = not (any (λ d. is_text (key_of repr row) d.identity_id) ds)

  -- `assess_preflight`
  unfoldable pub assess_preflight : Fields → List Fields → Bool → Session
  unfolding declared_preflights check_identity
  assess_preflight spec rows verified =
      let ds = declared_preflights spec in
      let identities = map (λ d. check_identity verified rows d) ds in
      let unexpected = count (λ row. is_undeclared ds row) rows in
      record {
        status = session_status identities unexpected;
        identities = identities;
        unexpected = unexpected;
      }
