-- ===== src/Jobs/Config/Ffuf.antt =====
-- backend/routers/jobs.py: `_validate_ffuf_config`.
use vardr_map.Base.{
  Bool, true, false, not, ◌||◌, Option, none, some, List, [], ◌∷◌, all, map, if◌then◌else◌,
}
use vardr_map.Text.{Text, text, eqb, strip, split, starts_with}
use vardr_map.Json.{Value, num, str, arr, Fields, find, items, is_blank}
use vardr_map.Store.{bad_request, Result, ◌>>◌, raise_if}
use vardr_map.Json.{to_str}
use vardr_map.Jobs.Config.Patterns.{words, ffuf_wordlist, ffuf_extension, ffuf_status}

abbrev pub is_wordlist : Value → Bool
is_wordlist (str s) = ffuf_wordlist (strip s)
is_wordlist v = false

abbrev pub with_dot : Text → Text
with_dot n = if starts_with n (text ".") then n else b'.' ∷ n

-- All of `codes`, or the single word `all`.
abbrev pub are_codes : List Text → Bool
are_codes (c ∷ []) = eqb c (text "all") || ffuf_status c
are_codes cs = all ffuf_status cs

-- A key that is absent, null or empty passes.
abbrev pub given : (Value → Bool) → Option Value → Bool
given p none = true
given p (some v) = is_blank v || p v

module _ (repr : Value → Text) where
  abbrev pub is_extensions : Value → Bool
  is_extensions (str s) = all (λ n. ffuf_extension (with_dot n)) (words (split b',' s))
  is_extensions (arr vs) =
      all (λ n. ffuf_extension (with_dot n)) (words (map (λ v. to_str repr v) (items vs)))
  is_extensions v = false

  abbrev pub is_match_codes : Value → Bool
  is_match_codes (str s) = are_codes (words (split b',' s))
  is_match_codes (num n) = are_codes (words (split b',' (repr (num n))))
  is_match_codes (arr vs) = are_codes (words (map (λ v. to_str repr v) (items vs)))
  is_match_codes v = false

  -- `_validate_ffuf_config`
  unfoldable pub validate_ffuf : Fields → Result (Unit {0})
  validate_ffuf config = do
    raise_if (not (given is_wordlist (find (text "wordlist") config))) bad_request
    raise_if (not (given is_extensions (find (text "extensions") config))) bad_request
    raise_if (not (given is_match_codes (find (text "match_codes") config))) bad_request
