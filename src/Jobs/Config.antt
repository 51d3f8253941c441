-- ===== src/Jobs/Config.antt =====
-- backend/routers/jobs.py: the validation of a job's config when it is queued. A value that is no
-- text is printed by Python's `str`, which is a parameter.
pub mod Patterns
pub mod Headers
pub mod Ffuf
pub mod Rate
use vardr_map.Base.{
  ℕ, ◌≤◌, String, Bool, true, false, not, ◌&&◌, ◌||◌, Option, none, some, List, [], ◌∷◌, ◌==◌, leb,
  all, any, map, select, if◌then◌else◌, is_some, str_eq,
}
use vardr_map.Text.{Text, text, eqb, strip, lower, split}
use vardr_map.Json
use vardr_map.Json.{
  ℤ, pos, negsuc, Value, bool, num, str, arr, Fields, find, keys, items, truthy, is_blank,
}
use vardr_map.Store.{Error, bad_request, Result, ok, err, ◌>>=◌, ◌>>◌, raise_if}
use vardr_map.Budget.{vardrgate}
use vardr_map.Json.{to_str}
use vardr_map.Jobs.Config.Patterns.{words, one_of}
use vardr_map.Jobs.Config.Headers.{validate_headers}
use vardr_map.Jobs.Config.Ffuf.{validate_ffuf}

-- `_TOOL_CONFIG_KEYS.get(tool_type, set())`
unfoldable pub config_keys : String → List Text
config_keys tool =
    if str_eq tool "httpx"
    then text "status_code" ∷ text "limit" ∷ text "rate" ∷ text "headers" ∷ []
    else if str_eq tool "nuclei"
    then text "severity" ∷ text "templates" ∷ text "rate" ∷ text "headers" ∷ []
    else if str_eq tool "subfinder"
    then text "recursive" ∷ text "sources" ∷ []
    else if str_eq tool "nmap"
    then text "top_ports" ∷ text "timing" ∷ []
    else if str_eq tool "dnsx"
    then text "limit" ∷ text "timeout" ∷ []
    else if str_eq tool "naabu"
    then text "top_ports" ∷ text "limit" ∷ text "timeout" ∷ []
    else if str_eq tool "katana"
    then text "limit"
      ∷ text "status_code"
      ∷ text "depth"
      ∷ text "js_crawl"
      ∷ text "timeout"
      ∷ text "rate"
      ∷ text "headers"
      ∷ []
    else if str_eq tool "gau"
    then text "subs" ∷ text "providers" ∷ text "timeout" ∷ []
    else if str_eq tool "dalfox"
    then text "limit"
      ∷ text "status_code"
      ∷ text "delay"
      ∷ text "worker"
      ∷ text "mining"
      ∷ text "timeout"
      ∷ text "headers"
      ∷ []
    else if str_eq tool "ffuf"
    then text "wordlist"
      ∷ text "extensions"
      ∷ text "match_codes"
      ∷ text "rate"
      ∷ text "limit"
      ∷ text "timeout"
      ∷ text "headers"
      ∷ []
    else if str_eq tool vardrgate
    then text "test_case_id" ∷ text "timeout" ∷ []
    else []

-- One row of `_INT_CONFIG_BOUNDS`, less its tool.
pub record IntBound : Type 0 where
  pub key : Text
  pub low : ℕ
  pub high : ℕ

abbrev bounded : Text → ℕ → ℕ → IntBound
bounded key low high = record { key = key; low = low; high = high }

-- The rows of `_INT_CONFIG_BOUNDS` for a tool.
unfoldable pub int_bounds : String → List IntBound
int_bounds tool =
    if str_eq tool "dnsx"
    then bounded (text "limit") 1 1000000 ∷ bounded (text "timeout") 1 86400 ∷ []
    else if str_eq tool "naabu"
    then bounded (text "top_ports") 1 65535
      ∷ bounded (text "limit") 1 1000000
      ∷ bounded (text "timeout") 1 86400
      ∷ []
    else if str_eq tool "katana"
    then bounded (text "limit") 1 1000000
      ∷ bounded (text "depth") 1 10
      ∷ bounded (text "timeout") 1 86400
      ∷ bounded (text "rate") 1 1000
      ∷ []
    else if str_eq tool "gau"
    then bounded (text "timeout") 1 86400 ∷ []
    else if str_eq tool "dalfox"
    then bounded (text "limit") 1 1000000
      ∷ bounded (text "worker") 1 100
      ∷ bounded (text "delay") 0 10000
      ∷ bounded (text "timeout") 1 86400
      ∷ []
    else if str_eq tool "ffuf"
    then bounded (text "rate") 1 1000
      ∷ bounded (text "limit") 1 1000000
      ∷ bounded (text "timeout") 1 86400
      ∷ []
    else if str_eq tool "httpx"
    then bounded (text "rate") 1 1000 ∷ []
    else if str_eq tool "nuclei"
    then bounded (text "rate") 1 1000 ∷ []
    else []

-- `low <= value <= high`
abbrev pub between : ℕ → ℕ → ℤ → Bool
between low high (pos n) = leb low n && leb n high
between low high (negsuc n) = false

abbrev pub is_between : ℕ → ℕ → Option ℤ → Bool
is_between low high none = false
is_between low high (some n) = between low high n

-- A key that is absent passes, and so does a blank value where `blank` says so.
abbrev pub passes : Bool → (Value → Bool) → Option Value → Bool
passes blank p none = true
passes blank p (some v) = (blank && is_blank v) || p v

-- The loop over `_INT_CONFIG_BOUNDS`.
unfoldable pub ints_in_bounds : List IntBound → Fields → Bool
unfolding Json.int
ints_in_bounds bounds config =
    all (λ b. passes true (λ v. is_between b.low b.high (Json.int v)) (find b.key config)) bounds

-- `type(value) is int and 1 <= value <= 86_400`
abbrev pub is_timeout : Value → Bool
is_timeout (num n) = between 1 86400 n
is_timeout v = false

abbrev pub is_bool : Value → Bool
is_bool (bool b) = true
is_bool v = false

abbrev pub bool_key : String → Option Text
bool_key tool =
    if str_eq tool "katana"
    then some (text "js_crawl")
    else if str_eq tool "gau"
    then some (text "subs")
    else if str_eq tool "dalfox"
    then some (text "mining")
    else none

abbrev pub has_headers : String → Bool
has_headers tool =
    str_eq tool "httpx"
    || str_eq tool "nuclei"
    || str_eq tool "katana"
    || str_eq tool "ffuf"
    || str_eq tool "dalfox"

module _ (repr : Value → Text) where
  abbrev pub is_flag : Value → Bool
  is_flag v = is_bool v || one_of (text "true" ∷ text "false" ∷ []) (lower (strip (to_str repr v)))

  abbrev pub flag_passes : Option Text → Fields → Bool
  flag_passes none config = true
  flag_passes (some key) config = passes true is_flag (find key config)

  abbrev pub severities : List Text
  severities = text "info" ∷ text "low" ∷ text "medium" ∷ text "high" ∷ text "critical" ∷ []

  abbrev pub providers : List Text
  providers = text "wayback" ∷ text "commoncrawl" ∷ text "otx" ∷ text "urlscan" ∷ []

  -- The severities and the providers: every word is known, and a value that Python takes for false
  -- names none.
  abbrev pub is_severity : Value → Bool
  is_severity v = not (truthy v) || all (one_of severities) (words (split b',' (to_str repr v)))

  abbrev pub listed : Value → List Text
  listed (arr vs) = map (λ v. to_str repr v) (items vs)
  listed v = split b',' (to_str repr v)

  abbrev pub is_provider : Value → Bool
  is_provider v = not (truthy v) || all (one_of providers) (words (listed v))

  abbrev pub guard : Bool → (Option Value → Bool) → Option Value → Bool
  guard applies p v = not applies || p v

  -- `_validate_job_config` up to the bounds.
  unfoldable pub validate_values : String → Fields → Result (Unit {0})
  unfolding config_keys Json.int
  validate_values tool config = do
    raise_if
        (not
          (guard (str_eq tool vardrgate) (passes false is_timeout) (find (text "timeout") config)))
        bad_request
    raise_if (not (all (one_of (config_keys tool)) (keys config))) bad_request
    raise_if
        (not (
          guard (str_eq tool "httpx") (passes false (λ v. is_some (Json.int v)))
            (find (text "limit") config)))
        bad_request
    raise_if
        (not
          (guard (str_eq tool "nuclei") (passes false is_severity) (find (text "severity") config)))
        bad_request
    raise_if
        (not (
          guard (str_eq tool "nmap") (passes false (λ v. is_between 0 4 (Json.int v)))
            (find (text "timing") config)))
        bad_request
    raise_if (not (flag_passes (bool_key tool) config)) bad_request
    raise_if
        (not
          (guard (str_eq tool "gau") (passes false is_provider) (find (text "providers") config)))
        bad_request
    if str_eq tool "ffuf" then validate_ffuf repr config else ok tt
    if has_headers tool then validate_headers repr config else ok tt

  -- `_validate_job_config`
  unfoldable pub validate_job_config : String → Fields → Result (Unit {0})
  unfolding validate_values int_bounds ints_in_bounds
  validate_job_config tool config = do
    validate_values tool config
    raise_if (not (ints_in_bounds (int_bounds tool) config)) bad_request
