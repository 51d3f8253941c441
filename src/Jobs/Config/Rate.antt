-- ===== src/Jobs/Config/Rate.antt =====
-- backend/routers/jobs.py: `_enforce_rate_ceiling`.
use vardr_map.Base.{
  ℕ, String, Bool, false, ◌||◌, Option, none, some, ltb, min, if◌then◌else◌, str_eq,
}
use vardr_map.Text.{text}
use vardr_map.Json
use vardr_map.Json.{ℤ, pos, negsuc, Value, num, Fields, find, is_blank, set_field}
use vardr_map.Store.{bad_request, Result, ok, err}

-- `_RATE_TOOL_DEFAULTS`
unfoldable pub default_rate : String → Option ℕ
default_rate tool =
    if str_eq tool "httpx" || str_eq tool "nuclei" || str_eq tool "katana"
    then some 150
    else if str_eq tool "ffuf"
    then some 50
    else none

abbrev pub exceeds : ℕ → ℤ → Bool
exceeds ceiling (pos n) = ltb ceiling n
exceeds ceiling (negsuc n) = false

-- A rate that is given: a value that is no number is left to the check of the bounds.
abbrev pub check_rate : ℕ → Option ℤ → Fields → Result Fields
check_rate ceiling none config = ok config
check_rate ceiling (some requested) config =
    if exceeds ceiling requested then err bad_request else ok config

abbrev pub cap_rate : ℕ → ℕ → Option Value → Fields → Result Fields
cap_rate ceiling default none config =
    ok (set_field (text "rate") (num (pos (min default ceiling))) config)
cap_rate ceiling default (some raw) config =
    if is_blank raw
    then ok (set_field (text "rate") (num (pos (min default ceiling))) config)
    else check_rate ceiling (Json.int raw) config

abbrev pub enforce : Option ℕ → Option ℕ → Fields → Result Fields
enforce none default config = ok config
enforce (some ceiling) none config = ok config
enforce (some ceiling) (some default) config =
    cap_rate ceiling default (find (text "rate") config) config

-- `_enforce_rate_ceiling`, with the config that it leaves.
unfoldable pub enforce_rate_ceiling : Option ℕ → String → Fields → Result Fields
unfolding default_rate Json.int set_field
enforce_rate_ceiling ceiling tool config = enforce ceiling (default_rate tool) config
