-- ===== src/Assessment/Case.antt =====
-- backend/assessments.py: the states of an identity in a run, and what the code reads of a stored
-- case and of a reported execution. A case and its rows are decoded JSON. A case is read with the
-- shapes that the code takes for granted: where `expected_access`, `identities` or `deny_status` is
-- there and is no list, such as null, the code raises a TypeError and has no result, and the model
-- reads an empty list.
use vardr_map.Base.{ℕ, Bool, true, false, ◌||◌, Option, List, [], ◌∷◌, select, map}
use vardr_map.Text.{Text, text}
use vardr_map.Json.{
  Value, Fields, get, fields_of, dict_at, list_at, is_text, natural, same_value, truthy, str_or,
}

pub data State : Type 0 where
  evaluated inconclusive missing skipped : State

abbrev pub state_eq : State → State → Bool
state_eq evaluated evaluated = true
state_eq inconclusive inconclusive = true
state_eq missing missing = true
state_eq skipped skipped = true
state_eq _ _ = false

-- The metadata of a write's verification, less all free text.
pub record Verification : Type 0 where
  pub strategy : Text
  pub environment : Text
  pub reader_identity_id : Text
  pub reader_credential_status : Text
  pub before_statuses : List ℕ
  pub after_status : ℕ
  pub reset_status : ℕ

-- One row of the result's `identities`.
pub record Item : Type 0 where
  pub identity_id : Value
  pub expected_decision : Text
  pub observed_outcome : Text
  pub state : State
  pub reason : Text
  pub reported_decision : Option Text
  pub source : Text
  pub credential_status : Text
  pub write_verification : Text
  pub matched_assertions : List ℕ
  pub verification : Option Verification

abbrev pub settle : State → Text → Item → Item
settle state reason item = record item { state = state; reason = reason }

abbrev pub is_evaluated : Item → Bool
is_evaluated item = state_eq item.state evaluated

abbrev pub is_skipped : Item → Bool
is_skipped item = state_eq item.state skipped

-- The single element of a list, or the default.
abbrev pub single {ℓ} : {A : Type ℓ} → A → List A → A
single default (x ∷ []) = x
single default _ = default

abbrev pub is_single {ℓ} : {A : Type ℓ} → List A → Bool
is_single (x ∷ []) = true
is_single _ = false

abbrev pub dicts : List Value → List Fields
dicts vs = map fields_of vs

abbrev pub id_of : Fields → Value
id_of row = get (text "id") row

abbrev pub status_code : Fields → Option ℕ
status_code row = natural (get (text "status_code") row)

abbrev pub has_error : Fields → Bool
has_error row = truthy (get (text "error") row) || truthy (get (text "error_kind") row)

-- The dictionaries of a case.
abbrev pub identities_of : Fields → List Fields
identities_of spec = dicts (list_at (text "identities") spec)

abbrev pub expectations_of : Fields → List Fields
expectations_of spec = dicts (list_at (text "expected_access") spec)

abbrev pub expected_for : Value → Fields → List Fields
expected_for identity spec =
    select (λ e. same_value (get (text "identity_id") e) identity) (expectations_of spec)

abbrev pub oracle_of : Fields → Fields
oracle_of spec = dict_at (text "write_verification") spec

abbrev pub reader_of : Fields → Fields
reader_of spec = dict_at (text "identity") (oracle_of spec)

module _ (repr : Value → Text) where
  -- The key under which a reported row is kept.
  abbrev pub key_of : Fields → Text
  key_of row = str_or repr [] (get (text "identity_id") row)

  abbrev pub reported_for : Value → List Fields → List Fields
  reported_for identity rows = select (λ row. is_text (key_of row) identity) rows
