-- ===== src/TestCases/Credentials.antt =====
-- backend/routers/test_cases.py: no live secret and no environment reference is stored.
use vardr_map.Base.{Bool, not, ◌&&◌, List, [], ◌∷◌, ◌==◌, ltb, length, select}
use vardr_map.Text.{Text, text, eqb, contains_text}
use vardr_map.Json.{Value, str, obj, arr, Fields, field, end, Items, cons, nil, get, is_text}
use vardr_map.Store.{bad_request, internal, Result, ok, err, ◌>>◌, raise_if}
use vardr_map.TestCases.Read.{case_identities, is_hashable, is_one_of, stripped_at}

abbrev pub credential_types : List Text
credential_types = text "bearer" ∷ text "api_key_header" ∷ text "static_header" ∷ []

abbrev pub secret_refs : List Text
secret_refs = text "value_env" ∷ text "value_keychain" ∷ []

module _ (repr : Value → Text) where
  abbrev pub is_given : Text → Fields → Bool
  is_given k fs = not (eqb (stripped_at repr k fs) [])

  abbrev pub refs_of : Fields → List Text
  refs_of cred = select (λ r. is_given r cred) secret_refs

  abbrev pub is_static : Fields → Bool
  is_static cred = is_text (text "static_header") (get (text "type") cred)

  -- The loop's body, for a credential that is an object.
  unfoldable pub check_credential : Fields → Result (Unit {0})
  check_credential cred = do
    raise_if (not (is_hashable (get (text "type") cred))) internal
    raise_if (not (is_one_of credential_types (get (text "type") cred))) bad_request
    raise_if (is_given (text "value") cred) bad_request
    raise_if (ltb 1 (length (refs_of cred))) bad_request
    raise_if (length (refs_of cred) == 0 && not (is_static cred)) bad_request
    raise_if
        (ltb 0 (length (refs_of cred)) && is_static cred && not (is_given (text "header") cred))
        bad_request

  abbrev pub check_credential_value : Value → Result (Unit {0})
  check_credential_value (obj cred) = check_credential cred
  check_credential_value v = err bad_request

  abbrev pub check_identity : Value → Result (Unit {0})
  check_identity (obj identity) = check_credential_value (get (text "credential") identity)
  check_identity v = err bad_request

  abbrev pub check_identities : List Value → Result (Unit {0})
  check_identities [] = ok tt
  check_identities (v ∷ vs) = do check_identity v; check_identities vs

  -- `_reject_literal_credentials`
  unfoldable pub reject_literal_credentials : Fields → Result (Unit {0})
  reject_literal_credentials spec = check_identities (case_identities spec)

abbrev pub reject_text : Text → Result (Unit {0})
reject_text s = raise_if (contains_text (text "${") s) bad_request

-- `_reject_environment_references`
abbrev mutual
  pub reject_environment_references : Value → Result (Unit {0})
  reject_environment_references (str s) = reject_text s
  reject_environment_references (obj fs) = reject_in_fields fs
  reject_environment_references (arr vs) = reject_in_items vs
  reject_environment_references v = ok tt

  pub reject_in_fields : Fields → Result (Unit {0})
  reject_in_fields end = ok tt
  reject_in_fields (field k v fs) = do
    reject_text k
    reject_environment_references v
    reject_in_fields fs

  pub reject_in_items : Items → Result (Unit {0})
  reject_in_items nil = ok tt
  reject_in_items (cons v vs) = do reject_environment_references v; reject_in_items vs
