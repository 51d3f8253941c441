-- ===== src/Budget/Binding.antt =====
-- backend/target_budget.py: `binding`, the origins that a case addresses.
use vardr_map.Base.{
  ℕ, ◌≡◌, refl, not, ◌||◌, Option, none, some, List, [], ◌∷◌, ◌++◌, ◌==◌, all, any, ltb, length,
  if◌then◌else◌,
}
use vardr_map.Text.{Text, text, ends_with}
use vardr_map.Json.{Value, null, obj, str, arr, cons, nil, Fields, field, end, find, get, dict_at}
use vardr_map.Net.{ipv6}
use vardr_map.Net.Print.{str_nat, str_v6}
use vardr_map.Store.{TargetBinding, Result, ok, err}
use vardr_map.Url.{splitting}
use vardr_map.TestCases.Read.{
  elements, reader_list, Origin, preflight_origin, is_plain_http, with_port, read_port, origin_of,
}
use vardr_map.Assessment.Assess.{sorted_set}

infixl 5 ◌>>=◌
abbrev ◌>>=◌ : {A B : Type 0} → Option A → (A → Option B) → Option B
none >>= k = none
some a >>= k = k a

-- `v[k]`; `none` is a `KeyError` or a `TypeError`
abbrev pub entry : Text → Value → Option Value
entry k (obj fs) = find k fs
entry k v = none

abbrev pub listed : Value → Option (List Value)
listed v = of_result (elements v)
  where
    of_result : Result (List Value) → Option (List Value)
    of_result (ok vs) = some vs
    of_result (err e) = none

-- `[step["request"] for step in …]`
abbrev pub step_requests : List Value → Option (List Value)
step_requests [] = some []
step_requests (step ∷ steps) = do
  request ← entry (text "request") step
  others ← step_requests steps
  some (request ∷ others)

abbrev pub unless_null : Value → List Value → List Value
unless_null null vs = vs
unless_null v vs = v ∷ vs

-- The preflights of the identities; an identity that is no object raises an `AttributeError`.
abbrev pub preflights_of : List Value → Option (List Value)
preflights_of [] = some []
preflights_of (obj identity ∷ is) = do
  others ← preflights_of is
  some (unless_null (get (text "preflight") identity) others)
preflights_of (v ∷ is) = none

abbrev pub reset_request : Value → Option (List Value)
reset_request null = some []
reset_request reset = do request ← entry (text "request") reset; some (request ∷ [])

abbrev pub oracle_requests : Value → Option (List Value)
oracle_requests null = some []
oracle_requests (obj oracle) = do
  request ← find (text "request") oracle
  reset ← reset_request (get (text "reset") oracle)
  some (request ∷ reset)
oracle_requests v = none

-- Every request of a case.
abbrev pub requests_of : Fields → Option (List Value)
requests_of case = do
  request ← find (text "request") case
  steps ← listed (get (text "setup") case)
  setup ← step_requests steps
  identities ← listed (get (text "identities") case)
  preflights ← preflights_of (
      identities ++ reader_list (find (text "identity") (dict_at (text "write_verification") case)))
  oracle ← oracle_requests (get (text "write_verification") case)
  some (request ∷ (setup ++ (preflights ++ oracle)))

abbrev pub bracketed : Option ℕ → Option Text
bracketed none = none
bracketed (some n) = some (text "[" ++ (str_v6 n ++ text "]"))

-- The host as an origin names it; an IPv6 address has one form.
unfoldable pub host_text : Text → Option Text
unfolding ends_with ipv6 str_v6
host_text host =
    if not (all (λ c. ltb c 128) host) || ends_with host (text ".") || any (λ c. c == b'%') host
    then none
    else if any (λ c. c == b':') host
    then bracketed (ipv6 host)
    else some host

unfoldable pub origin_text : Origin → Option Text
unfolding host_text
origin_text origin = do
  host ← host_text origin.host
  some (origin.scheme ++ (text "://" ++ (host ++ (text ":" ++ str_nat origin.port))))

unfoldable pub origins_of : List Value → Option (List Text)
unfolding origin_text preflight_origin
origins_of [] = some []
origins_of (request ∷ requests) = do
  url ← entry (text "url") request
  origin ← preflight_origin url
  t ← origin_text origin
  others ← origins_of requests
  some (t ∷ others)

abbrev pub if_few : Text → List Text → Option TargetBinding
if_few sha256 origins =
    if length origins == 0 || ltb 100 (length origins)
    then none
    else some (record { case_sha256 = sha256; origins = origins })

-- `binding`; `digest` is the SHA-256 of the case's canonical text, as in `case_hash`.
unfoldable pub binding : (Fields → Text) → Value → Option TargetBinding
unfolding origins_of
binding digest (obj case) = do
  requests ← requests_of case
  origins ← origins_of requests
  if_few (digest case) (sorted_set origins)
binding digest v = none

-- Two requests on one origin, and a setup step on another.
abbrev request : Text → Value
request url = obj (field (text "url") (str url) end)

abbrev fixed : Value
fixed = obj (
    field (text "request") (request (text "https://API.example.com/a")) (
      field (text "setup")
        (arr (
          cons (obj (field (text "request") (request (text "http://[0:0::1]:8080/")) end)) (
            cons (obj (field (text "request") (request (text "https://api.example.com:443/b")) end))
              nil)))
        end))

binds :
    binding (λ case. []) fixed
    ≡ some (record {
      case_sha256 = [];
      origins = text "http://[::1]:8080" ∷ text "https://api.example.com:443" ∷ [];
    })
unfolding binding splitting origins_of origin_text host_text preflight_origin is_plain_http
    with_port read_port origin_of str_v6 ipv6 ends_with
binds = refl
