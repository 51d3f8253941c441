-- ===== src/TestCases/Preflight.antt =====
-- backend/routers/test_cases.py: `_validate_preflight`, on the sessions' checks of a spec.
use vardr_map.Base.{
  Bool, true, false, not, ◌&&◌, ◌||◌, Option, some, List, [], ◌∷◌, ◌==◌, leb, all, any, length,
  is_some,
}
use vardr_map.Text.{Text, text, eqb, contains_text, split, strip}
use vardr_map.Json.{
  Value, null, str, obj, Fields, end, field, find, get, keys, dict_at, in_range, natural,
}
use vardr_map.Store.{bad_request, internal, Result, ok, err, ◌>>◌, raise_if}
use vardr_map.TestCases.Read.{Origin, case_identities, origin_eq, preflight_origin, utf8_size}
use vardr_map.TestCases.Credentials.{refs_of}

abbrev pub preflight_keys : List Text
preflight_keys = text "url" ∷ text "expected_status" ∷ text "json_fields" ∷ []

abbrev pub has_only : List Text → Fields → Bool
has_only names fs = all (λ k. any (eqb k) names) (keys fs) && all (λ n. is_some (find n fs)) names

abbrev pub same_origin : Option Origin → Option Origin → Bool
same_origin (some a) (some b) = origin_eq a b
same_origin _ _ = false

abbrev pub has_variable : Text → Bool
has_variable s = contains_text (text "{{") s || contains_text (text "${") s

-- The URL is on the origin of the request, and has no variables.
abbrev pub is_sound_url : Fields → Value → Bool
is_sound_url spec (str url) =
    not (has_variable url)
    && same_origin (preflight_origin (str url))
        (preflight_origin (get (text "url") (dict_at (text "request") spec)))
is_sound_url spec v = false

abbrev pub is_success_status : Value → Bool
is_success_status code = in_range 200 299 (natural code)

abbrev pub is_sound_path : Text → Bool
is_sound_path path =
    leb (utf8_size path) 200 && all (λ part. not (eqb (strip part) [])) (split b'.' path)

abbrev pub is_sound_match : Value → Bool
is_sound_match (str s) = not (eqb (strip s) []) && leb (utf8_size s) 200
is_sound_match v = false

abbrev pub are_sound : Fields → Bool
are_sound end = true
are_sound (field path v fs) = is_sound_path path && is_sound_match v && are_sound fs

abbrev pub is_sound_fields : Value → Bool
is_sound_fields (obj fs) = leb 1 (length (keys fs)) && leb (length (keys fs)) 8 && are_sound fs
is_sound_fields v = false

abbrev pub is_sound_id : Value → Bool
is_sound_id (str s) = leb 1 (utf8_size s) && leb (utf8_size s) 200
is_sound_id v = false

module _ (repr : Value → Text) (spec : Fields) where
  -- The body of the loop, for an identity with a preflight that is an object. An identity with no
  -- `id` at all raises a `KeyError`.
  unfoldable pub check_preflight : Fields → Fields → Result (Unit {0})
  check_preflight identity p = do
    raise_if (not (has_only preflight_keys p)) bad_request
    raise_if (not (is_sound_url spec (get (text "url") p))) bad_request
    raise_if (not (is_success_status (get (text "expected_status") p))) bad_request
    raise_if (not (is_sound_fields (get (text "json_fields") p))) bad_request
    raise_if (not (is_some (find (text "id") identity))) internal
    raise_if (not (is_sound_id (get (text "id") identity))) bad_request
    raise_if (length (refs_of repr (dict_at (text "credential") identity)) == 0) bad_request

  abbrev pub check_preflight_value : Fields → Value → Result (Unit {0})
  check_preflight_value identity null = ok tt
  check_preflight_value identity (obj p) = check_preflight identity p
  check_preflight_value identity v = err bad_request

  -- `_reject_literal_credentials` has passed, so the identities are objects.
  abbrev pub check_preflights : List Value → Result (Unit {0})
  check_preflights [] = ok tt
  check_preflights (obj identity ∷ vs) = do
    check_preflight_value identity (get (text "preflight") identity)
    check_preflights vs
  check_preflights (v ∷ vs) = err internal

  -- `_validate_preflight`
  unfoldable pub validate_preflight : Result (Unit {0})
  validate_preflight = check_preflights (case_identities spec)
