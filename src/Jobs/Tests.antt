-- ===== src/Jobs/Tests.antt =====
-- Configs of backend/routers/jobs.py.
use vardr_map.Base.{◌≡◌, refl, some, [], ◌∷◌, ◌++◌}
use vardr_map.Text.{Text, text, lower}
use vardr_map.Json
use vardr_map.Json.{Value, num, str, obj, pos, Fields, end, field, set_field}
use vardr_map.Store.{ok}
use vardr_map.Jobs.Config.{
  validate_job_config, validate_values, config_keys, int_bounds, ints_in_bounds,
}
use vardr_map.Jobs.Config.Patterns.{header_name}
use vardr_map.Jobs.Config.Headers.{validate_headers, header_pairs, check_headers}
use vardr_map.Jobs.Config.Rate.{default_rate, enforce_rate_ceiling}
use vardr_map.Jobs.Create.{job_config}
use vardr_map.Jobs.Create.Ceiling.{IsCapped, job_config-IsCapped}

abbrev no_repr : Value → Text
no_repr v = []

abbrev given : Fields
given = field (text "limit") (num (pos 50)) end

abbrev stored : Fields
stored = field (text "limit") (num (pos 50)) (field (text "rate") (num (pos 20)) end)

httpx-rate : default_rate "httpx" ≡ some 150
unfolding default_rate
httpx-rate = refl

capped : job_config no_repr (some 20) "httpx" given ≡ ok stored
unfolding job_config validate_job_config validate_values config_keys int_bounds ints_in_bounds
    enforce_rate_ceiling default_rate set_field Json.int validate_headers header_pairs check_headers
capped = refl

job_config-IsCapped_example : IsCapped 20 stored
job_config-IsCapped_example =
    job_config-IsCapped no_repr 20 150 "httpx" given stored httpx-rate capped

-- The object form of the headers lets a line break stand at the end of a name.
accepts_line_break :
    validate_headers no_repr
      (field (text "headers") (obj (field (text "X-A" ++ (10 ∷ [])) (str (text "v")) end)) end)
    ≡ ok tt
unfolding validate_headers header_pairs check_headers header_name lower
accepts_line_break = refl
