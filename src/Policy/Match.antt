-- ===== src/Policy/Match.antt =====
-- backend/policy.py: whether one scope rule covers one target.
use vardr_map.Base.{
  ℕ, String, Bool, true, false, ◌&&◌, ◌||◌, Option, none, some, [], ◌∷◌, ◌++◌, ◌==◌, if◌then◌else◌,
  drop, str_eq,
}
use vardr_map.Text.{Text, text, eqb, starts_with, ends_with, strip, rstrip, lower}
use vardr_map.Net.{ip_address, ip_network, within}
use vardr_map.Policy.Target.{Target, ip, value_of, normalize_target, scheme_and_port, path_of}

pub record ScopeRule : Type 0 where
  pub value : Text
  pub kind : String
  pub excluded : Bool

-- `rule_value.strip().rstrip(".").lower()`
unfoldable pub rule_text : Text → Text
unfolding strip rstrip lower
rule_text value = lower (rstrip b'.' (strip value))

abbrev pub is_under : Text → Text → Bool
is_under host suffix = ends_with host (b'.' ∷ suffix)

-- `_host_matches` and `_excludes_host` behind the normalisation of the rule.
unfoldable pub host_covers : Text → Text → Bool
unfolding starts_with ends_with
host_covers rule host =
    if eqb rule []
    then false
    else if starts_with rule (text "*.")
    then is_under host (drop 2 rule)
    else if starts_with rule (text "*")
    then eqb host (drop 1 rule) || is_under host (drop 1 rule)
    else eqb host rule

unfoldable pub carve_covers : Text → Text → Bool
unfolding starts_with ends_with
carve_covers rule host =
    if eqb rule []
    then false
    else if starts_with rule (text "*.")
    then is_under host (drop 2 rule)
    else let stem = if starts_with rule (text "*") then drop 1 rule else rule in
      eqb host stem || is_under host stem

unfoldable pub host_matches : Text → Text → Bool
unfolding rule_text host_covers
host_matches value host = host_covers (rule_text value) host

unfoldable pub excludes_host : Text → Text → Bool
unfolding rule_text carve_covers
excludes_host value host = carve_covers (rule_text value) host

unfoldable pub path_within : Text → Text → Bool
unfolding starts_with ends_with
path_within target_path rule_path =
    eqb target_path rule_path
    || starts_with target_path
        (if ends_with rule_path (text "/") then rule_path else rule_path ++ text "/")

-- A CIDR rule; an unparsable one matches nothing.
unfoldable pub cidr_matches : Text → Target → Bool
unfolding ip_address ip_network within
cidr_matches rule_value (ip value) = elim (ip_address value) [
  | none ↦ false
  | some a ↦ elim (ip_network rule_value) [ none ↦ false | some n ↦ within a n ]
]
cidr_matches rule_value _ = false

abbrev pub port_eq : Option ℕ → Option ℕ → Bool
port_eq none none = true
port_eq (some p) (some q) = p == q
port_eq _ _ = false

-- `_scheme_and_port` of a rule against that of a target: what the rule states must agree.
unfoldable pub listener_matches : Text × Option ℕ → Text × Option ℕ → Bool
listener_matches (rule_scheme, rule_port) (target_scheme, target_port) =
    (eqb rule_scheme [] || eqb rule_scheme target_scheme)
    && elim rule_port [ none ↦ true | some p ↦ port_eq (some p) target_port ]

unfoldable pub url_matches : Text → Text → Text → Bool
unfolding normalize_target scheme_and_port path_of listener_matches path_within
url_matches rule_value value raw_target =
    let rule_host = value_of (normalize_target rule_value) in
    (eqb rule_host [] || eqb rule_host value)
    && listener_matches (scheme_and_port rule_value) (scheme_and_port raw_target)
    && (eqb (path_of rule_value) [] || path_within (path_of raw_target) (path_of rule_value))

-- The last part of `_rule_matches`, for a rule that is no network and no URL.
unfoldable pub name_matches : ScopeRule → Text → Target → Bool
unfolding excludes_host host_matches
name_matches rule rule_value (ip value) = eqb rule_value value
name_matches rule rule_value target =
    if rule.excluded
    then excludes_host rule_value (value_of target)
    else host_matches rule_value (value_of target)

unfoldable pub rule_matches : ScopeRule → Target → Text → Bool
unfolding strip lower cidr_matches url_matches name_matches
rule_matches rule target raw_target =
    let rule_value = lower (strip rule.value) in
    if eqb rule_value []
    then false
    else if str_eq rule.kind "cidr"
    then cidr_matches rule_value target
    else if str_eq rule.kind "url" || str_eq rule.kind "api"
    then url_matches rule_value (value_of target) raw_target
    else name_matches rule rule_value target
