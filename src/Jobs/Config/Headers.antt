-- ===== src/Jobs/Config/Headers.antt =====
-- backend/routers/jobs.py: `_validate_headers`.
use vardr_map.Base.{
  ℕ, ◌+◌, Bool, not, ◌&&◌, ◌||◌, Option, none, some, List, [], ◌∷◌, ◌==◌, leb, ltb, any,
  if◌then◌else◌, length,
}
use vardr_map.Text.{Text, text, eqb, strip, lower, contains, before, after}
use vardr_map.Json.{Value, null, str, arr, obj, Items, nil, cons, Fields, end, field, find}
use vardr_map.Store.{bad_request, Result, ok, err, ◌>>=◌, ◌>>◌, raise_if}
use vardr_map.Json.{to_str}
use vardr_map.Jobs.Config.Patterns.{one_of, header_name}

abbrev pub Header : Type 0
Header = Text × Text

-- A control character may not stand in a value.
abbrev pub is_control : ℕ → Bool
is_control c = ltb c 32 || c == 127

abbrev pub check_header : List Text → Header → Bool
check_header seen (name, value) =
    header_name name
    && not (any is_control value)
    && leb (length name + length value + 2) 2000
    && not (one_of seen (lower name))

-- The loop over the pairs.
unfoldable pub check_headers : List Text → List Header → Result (Unit {0})
unfolding header_name lower
check_headers seen [] = ok tt
check_headers seen ((name, value) ∷ pairs) = do
  raise_if (not (check_header seen (name, value))) bad_request
  check_headers (lower name ∷ seen) pairs

-- The entries of a list, each of the form `Name: value`.
unfoldable pub parse_entries : Items → Result (List Header)
unfolding contains before after strip
parse_entries nil = ok []
parse_entries (cons (str item) items) = do
  raise_if (not (contains b':' item)) bad_request
  pairs ← parse_entries items
  ok ((strip (before b':' item), strip (after b':' item)) ∷ pairs)
parse_entries (cons _ items) = err bad_request

module _ (repr : Value → Text) where
  -- The pairs of an object.
  abbrev pub pairs_of : Fields → List Header
  pairs_of end = []
  pairs_of (field k v fs) = (k, to_str repr v) ∷ pairs_of fs

  unfoldable pub header_pairs : Option Value → Result (List Header)
  unfolding parse_entries
  header_pairs none = ok []
  header_pairs (some null) = ok []
  header_pairs (some (str s)) = if eqb s [] then ok [] else err bad_request
  header_pairs (some (arr items)) = parse_entries items
  header_pairs (some (obj fields)) = ok (pairs_of fields)
  header_pairs (some _) = err bad_request

  -- `_validate_headers`
  unfoldable pub validate_headers : Fields → Result (Unit {0})
  unfolding header_pairs check_headers
  validate_headers config = do
    pairs ← header_pairs (find (text "headers") config)
    raise_if (ltb 20 (length pairs)) bad_request
    check_headers [] pairs
