-- ===== src/Policy/Decision.antt =====
-- backend/policy.py: the engagement's gates, the decision on one target and on all of a job's.
-- The `detail` of a decision, a message for people, is left out.
use vardr_map.Base.{
  ℕ, String, Bool, false, not, ◌&&◌, ◌||◌, Option, none, some, List, [], ◌∷◌, ltb, if◌then◌else◌,
  any, str_eq,
}
use vardr_map.Text.{Text}
use vardr_map.Policy.Target.{Target, unclassified, normalize_target}
use vardr_map.Policy.Match.{ScopeRule, rule_matches}

pub data Reason : Type 0 where
  allowed engagement_not_active stop_work_active authorization_missing authorization_not_active
        outside_testing_window capability_prohibited target_excluded target_out_of_scope
        scope_ambiguous :
      Reason

-- A moment in UTC, or a wall-clock time with no time zone.
pub data DateTime : Type 0 where
  aware naive : ℕ → DateTime

-- `_as_utc`: a naive time is read as UTC.
unfoldable pub as_utc : DateTime → ℕ
as_utc (aware t) = t
as_utc (naive t) = t

pub record AuthorizationSnapshot : Type 0 where
  pub status : String
  pub window_start : Option DateTime
  pub window_end : Option DateTime
  pub permitted_capabilities : List String

pub record PolicyInput : Type 0 where
  pub engagement_status : String
  pub engagement_type : String
  pub target : Text
  pub capability : String
  pub now : DateTime
  pub stop_work : Bool
  pub authorization : Option AuthorizationSnapshot
  pub scope_rules : List ScopeRule

abbrev pub self_authorizing : String → Bool
self_authorizing engagement_type = str_eq engagement_type "bug_bounty"

abbrev pub not_open_yet : DateTime → Option DateTime → Bool
not_open_yet now none = false
not_open_yet now (some start) = ltb (as_utc now) (as_utc start)

abbrev pub is_closed : DateTime → Option DateTime → Bool
is_closed now none = false
is_closed now (some end) = ltb (as_utc end) (as_utc now)

abbrev pub prohibits : List String → String → Bool
prohibits [] capability = false
prohibits (p ∷ ps) capability = not (any (λ q. str_eq q capability) (p ∷ ps))

-- The part of `evaluate_engagement` that reads the authorization record.
unfoldable pub check_authorization :
    String → DateTime → String → Option AuthorizationSnapshot → Reason
unfolding as_utc
check_authorization engagement_type now capability none =
    if self_authorizing engagement_type then allowed else authorization_missing
check_authorization engagement_type now capability (some auth) =
    if not (str_eq auth.status "active")
    then authorization_not_active
    else if not_open_yet now auth.window_start || is_closed now auth.window_end
    then outside_testing_window
    else if prohibits auth.permitted_capabilities capability
    then capability_prohibited
    else allowed

unfoldable pub evaluate_engagement : PolicyInput → Reason
unfolding check_authorization
evaluate_engagement c =
    if c.stop_work
    then stop_work_active
    else if not (str_eq c.engagement_status "active")
    then engagement_not_active
    else check_authorization c.engagement_type c.now c.capability c.authorization

-- The two loops over the scope rules.
unfoldable pub is_excluded : List ScopeRule → Target → Text → Bool
unfolding rule_matches
is_excluded [] target raw = false
is_excluded (rule ∷ rules) target raw =
    (rule.excluded && rule_matches rule target raw) || is_excluded rules target raw

unfoldable pub is_included : List ScopeRule → Target → Text → Bool
unfolding rule_matches
is_included [] target raw = false
is_included (rule ∷ rules) target raw =
    (not rule.excluded && rule_matches rule target raw) || is_included rules target raw

unfoldable pub evaluate_scope : List ScopeRule → Target → Text → Reason
unfolding is_excluded is_included
evaluate_scope rules unclassified raw = scope_ambiguous
evaluate_scope rules target raw =
    if is_excluded rules target raw
    then target_excluded
    else if is_included rules target raw
    then allowed
    else target_out_of_scope

unfoldable pub evaluate : PolicyInput → Reason
unfolding evaluate_engagement evaluate_scope normalize_target
evaluate c = elim (evaluate_engagement c) [
  | allowed ↦ evaluate_scope c.scope_rules (normalize_target c.target) c.target
  | denied ↦ denied
]

-- The loop of `evaluate_all`.
unfoldable pub evaluate_targets : PolicyInput → List Text → Reason
unfolding evaluate
evaluate_targets c [] = allowed
evaluate_targets c (target ∷ targets) =
    let rest = evaluate_targets c targets in
    elim (evaluate (record c { target = target })) [ allowed ↦ rest | denied ↦ denied ]

unfoldable pub evaluate_all : PolicyInput → List Text → Reason
unfolding evaluate_engagement evaluate_targets
evaluate_all c targets = elim (evaluate_engagement c) [
  | allowed ↦ evaluate_targets c targets
  | denied ↦ denied
]
