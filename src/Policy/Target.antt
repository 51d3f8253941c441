-- ===== src/Policy/Target.antt =====
-- backend/policy.py: how a target is reduced to a comparable host, and to its scheme, port and path.
use vardr_map.Base.{
  ℕ, not, ◌&&◌, ◌||◌, Option, none, some, [], ◌∷◌, ◌==◌, if◌then◌else◌, drop, is_some,
}
use vardr_map.Text.{
  Text, text, eqb, starts_with, contains, before, after, contains_text, before_text, after_text,
  strip, rstrip, lower, isdigit, to_int, count_char,
}
use vardr_map.Net.{ip_address}

-- What `normalize_target` returns: `("", "")`, `("ip", host)` or `("domain", host)`.
pub data Target : Type 0 where
  unclassified : Target
  ip domain : Text → Target

abbrev pub value_of : Target → Text
value_of unclassified = []
value_of (ip host) = host
value_of (domain host) = host

abbrev pub scheme_mark : Text
scheme_mark = text "://"

-- `remainder.split("://", 1)[1]` where there is a scheme
unfoldable pub without_scheme : Text → Text
unfolding contains_text after_text
without_scheme raw = if contains_text scheme_mark raw then after_text scheme_mark raw else raw

-- `remainder.split("@", 1)[1]` where there are credentials
unfoldable pub without_credentials : Text → Text
unfolding contains before after
without_credentials remainder =
    if contains b'@' (before b'/' remainder) then after b'@' remainder else remainder

-- The host, lower-cased and with no dots at its end, as an address or as a name.
unfoldable pub classify : Text → Target
unfolding contains ip_address
classify host =
    if eqb host []
    then unclassified
    else if is_some (ip_address host)
    then ip host
    else if contains b' ' host || not (contains b'.' host)
    then unclassified
    else domain host

-- The part of an authority before its port; `none` for a bracket that is not closed.
unfoldable pub host_of : Text → Option Text
host_of host =
    if starts_with host (text "[")
    then (if contains b']' host then some (before b']' (drop 1 host)) else none)
    else if count_char b':' host == 1
    then some (before b':' host)
    else some host

abbrev pub read_host : Option Text → Target
read_host none = unclassified
read_host (some host) = classify (lower (rstrip b'.' host))

unfoldable pub normalize_target : Text → Target
normalize_target target =
    let raw = strip target in
    if eqb raw []
    then unclassified
    else read_host (host_of (before b'/' (without_credentials (without_scheme raw))))

-- A test that evaluates `normalize_target` unfolds this too.
unfoldable pub normalizing : Unit {0}
unfolding strip without_scheme without_credentials host_of before classify rstrip lower starts_with
    contains count_char
normalizing = tt

abbrev pub default_port : Text → Option ℕ
default_port scheme =
    if eqb scheme (text "https")
    then some 443
    else if eqb scheme (text "http")
    then some 80
    else none

-- `close + 1` onwards, or "" where the bracket is not closed.
abbrev pub after_bracket : Text → Text
after_bracket authority = if contains b']' authority then after b']' authority else []

unfoldable pub explicit_port : Text → Option ℕ
unfolding starts_with contains after count_char isdigit to_int
explicit_port authority =
    if starts_with authority (text "[")
    then (let rest = after_bracket authority in
        if starts_with rest (text ":") && isdigit (drop 1 rest)
        then some (to_int (drop 1 rest))
        else none)
    else if count_char b':' authority == 1 && isdigit (after b':' authority)
    then some (to_int (after b':' authority))
    else none

abbrev pub or_port : Option ℕ → Option ℕ → Option ℕ
or_port none d = d
or_port (some p) d = some p

abbrev pub authority_of : Text → Text
authority_of remainder =
    let authority = before b'/' remainder in
    if contains b'@' authority then after b'@' authority else authority

unfoldable pub scheme_and_port : Text → Text × Option ℕ
unfolding strip contains_text before_text without_scheme lower explicit_port contains after before
scheme_and_port target =
    let raw = strip target in
    let scheme =
      if contains_text scheme_mark raw then lower (before_text scheme_mark raw) else [] in
    (scheme, or_port (explicit_port (authority_of (without_scheme raw))) (default_port scheme))

unfoldable pub path_of : Text → Text
unfolding without_scheme contains after before rstrip lower
path_of target =
    let remainder = without_scheme target in
    if contains b'/' remainder
    then b'/' ∷ lower (rstrip b'/' (before b'?' (after b'/' remainder)))
    else []
