-- ===== src/Assessment/Credentials.antt =====
-- backend/assessments.py: what is known of the credentials of a run, in `assess`.
use vardr_map.Base.{
  Bool, false, not, ◌&&◌, ◌||◌, Option, none, some, List, [], ◌∷◌, first, if◌then◌else◌,
}
use vardr_map.Text.{Text, text, eqb}
use vardr_map.Json.{Value, Fields, end, get, dict_at, is_text, has_value, same_value, truthy}
use vardr_map.Assessment.Case.{
  inconclusive, Verification, Item, settle, id_of, status_code, identities_of, reader_of,
  reported_for,
}
use vardr_map.Assessment.Preflight.{Session, CheckedIdentity, is_passed}

-- The credential that a dictionary describes.
abbrev pub sends_credentials : Fields → Bool
sends_credentials credential =
    is_text (text "bearer") (get (text "type") credential)
    || is_text (text "api_key_header") (get (text "type") credential)
    || (is_text (text "static_header") (get (text "type") credential)
        && truthy (get (text "header") credential))

abbrev pub or_end : Option Fields → Fields
or_end none = end
or_end (some fs) = fs

abbrev pub credential_of : Value → Fields → Fields
credential_of identity spec =
    dict_at (text "credential")
      (or_end (first (λ i. same_value (id_of i) identity) (identities_of spec)))

abbrev pub checked_of : Value → Session → Option CheckedIdentity
checked_of identity session = first (λ p. same_value p.identity_id identity) session.identities

abbrev pub check_status : Text → Option CheckedIdentity → Text
check_status default none = default
check_status default (some p) =
    if is_passed p.status then text "preflight_passed" else text "preflight_failed"

abbrev pub is_401 : List Fields → Bool
is_401 (row ∷ []) = has_value (status_code row) 401
is_401 _ = false

abbrev pub after_401 : Text → Text
after_401 status =
    if eqb status (text "preflight_passed")
    then text "preflight_passed_resource_401"
    else text "resource_401_unverified"

abbrev pub credential_status_of : Fields → Session → List Fields → Value → Text
credential_status_of spec session rows identity =
    let sends = sends_credentials (credential_of identity spec) in
    let status =
      check_status (if sends then text "not_checked" else text "anonymous_identity")
        (checked_of identity session) in
    if sends && is_401 rows then after_401 status else status

abbrev pub is_anonymous : Fields → Bool
is_anonymous credential =
    is_text (text "static_header") (get (text "type") credential)
    && not (truthy (get (text "header") credential))

abbrev pub reader_status : Fields → Session → Text
reader_status spec session =
    check_status
      (if is_anonymous (dict_at (text "credential") (reader_of spec))
        then text "anonymous_identity"
        else text "not_checked")
      (checked_of (id_of (reader_of spec)) session)

abbrev pub recorded : Bool → Text → Text
recorded case_verified status = if case_verified then status else text "not_recorded"

abbrev pub note_reader : Bool → Fields → Session → Option Verification → Option Verification
note_reader case_verified spec session none = none
note_reader case_verified spec session (some v) =
    some
      (record v { reader_credential_status = recorded case_verified (reader_status spec session) })

abbrev pub is_allowed : Option Text → Bool
is_allowed none = false
is_allowed (some d) = eqb d (text "allowed")

-- A rejected credential says nothing of the resource's own denial.
abbrev pub is_rejected : Fields → List Fields → Item → Bool
is_rejected spec rows item =
    eqb item.expected_decision (text "deny")
    && is_401 rows
    && sends_credentials (credential_of item.identity_id spec)
    && not (truthy (get (text "unauthorized_is_denial") spec))
    && not (is_allowed item.reported_decision)

module _ (repr : Value → Text) where
  -- The loop that notes the credentials.
  unfoldable pub note_credentials : Bool → Fields → Session → List Fields → Item → Item
  note_credentials case_verified spec session executions item =
      let rows = reported_for repr item.identity_id executions in
      let noted = record item {
        credential_status =
            recorded case_verified (credential_status_of spec session rows item.identity_id);
        verification = note_reader case_verified spec session item.verification;
      } in
      if is_rejected spec rows item
      then settle inconclusive (text "credential_rejected") noted
      else noted
