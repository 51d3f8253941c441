-- ===== src/Policy/Gates.antt =====
-- backend/policy.py: what `evaluate_engagement` and `evaluate_all` require.
use vardr_map.Base.{
  ◌≤◌, String, ◌≡◌, refl, ◌≢◌, ◌↔◌, ◌⊎◌, inl, true, false, Option, none, some, List, [], ◌∷◌, arith,
  any, str_eq, eq_iff, All,
}
use vardr_map.Text.{Text}
use vardr_map.Policy.Target.{Target, unclassified, normalize_target}
use vardr_map.Policy.Match.{ScopeRule}
use vardr_map.Policy.Decision.{
  allowed, stop_work_active, DateTime, as_utc, AuthorizationSnapshot, PolicyInput, not_open_yet,
  is_closed, prohibits, check_authorization, evaluate_engagement, evaluate_scope, evaluate,
  evaluate_targets, evaluate_all,
}

-- The window has opened and has not closed; an end that is not stated does not bind.
abbrev pub Opened : DateTime → Option DateTime → Type 0
Opened now none = Unit
Opened now (some start) = as_utc start ≤ as_utc now

abbrev pub NotClosed : DateTime → Option DateTime → Type 0
NotClosed now none = Unit
NotClosed now (some end) = as_utc now ≤ as_utc end

-- An empty list of capabilities permits every one.
abbrev pub Permits : List String → String → Type 0
Permits ps capability = (ps ≡ []) ⊎ (any (λ q. str_eq q capability) ps ≡ true)

abbrev pub IsAuthorized : String → DateTime → String → Option AuthorizationSnapshot → Type 0
IsAuthorized engagement_type now capability none = engagement_type ≡ "bug_bounty"
IsAuthorized engagement_type now capability (some auth) =
    (auth.status ≡ "active")
    × Opened now auth.window_start
    × NotClosed now auth.window_end
    × Permits auth.permitted_capabilities capability

-- The engagement may be worked on now.
abbrev pub IsOpen : PolicyInput → Type 0
IsOpen c =
    (c.stop_work ≡ false)
    × (c.engagement_status ≡ "active")
    × IsAuthorized c.engagement_type c.now c.capability c.authorization

Opened-iff :
    (now : DateTime) (start : Option DateTime) → (not_open_yet now start ≡ false) ↔ Opened now start
Opened-iff now none = ground arith
Opened-iff now (some start) = ground arith

closed_iff :
    (now : DateTime) (end : Option DateTime) → (is_closed now end ≡ false) ↔ NotClosed now end
closed_iff now none = ground arith
closed_iff now (some end) = ground arith

prohibits_iff :
    (ps : List String) (capability : String)
    → (prohibits ps capability ≡ false) ↔ Permits ps capability
prohibits_iff [] capability = (λ _. inl refl, λ _. refl)
prohibits_iff (p ∷ ps) capability = ground arith

check_authorization_iff :
    (engagement_type : String) (now : DateTime) (capability : String)
    (auth : Option AuthorizationSnapshot)
    → (check_authorization engagement_type now capability auth ≡ allowed)
      ↔ IsAuthorized engagement_type now capability auth
unfolding check_authorization
check_authorization_iff t now capability none = ground (arith, eq_iff t "bug_bounty")
check_authorization_iff t now capability (some auth) = ground (
  arith,
  eq_iff auth.status "active",
  Opened-iff now auth.window_start,
  closed_iff now auth.window_end,
  prohibits_iff auth.permitted_capabilities capability,
)

-- The gates allow work exactly when the engagement is not stopped, its status is active and it is
-- authorized: by an active authorization whose window contains the moment, both ends included, and
-- that permits the capability, or, with no authorization at all, by being a bug bounty.
pub evaluate_engagement_iff : (c : PolicyInput) → (evaluate_engagement c ≡ allowed) ↔ IsOpen c
unfolding evaluate_engagement
evaluate_engagement_iff c = ground (
  arith,
  eq_iff c.engagement_status "active",
  check_authorization_iff c.engagement_type c.now c.capability c.authorization,
)

check_authorization-ne-stop_work :
    (t : String) (now : DateTime) (capability : String) (auth : Option AuthorizationSnapshot)
    → check_authorization t now capability auth ≢ stop_work_active
unfolding check_authorization
check_authorization-ne-stop_work t now capability none = ground arith
check_authorization-ne-stop_work t now capability (some auth) = ground arith

pub evaluate_engagement-stop_work :
    (c : PolicyInput) → (evaluate_engagement c ≡ stop_work_active) ↔ (c.stop_work ≡ true)
unfolding evaluate_engagement
evaluate_engagement-stop_work c =
    ground
      (arith, check_authorization-ne-stop_work c.engagement_type c.now c.capability c.authorization)

evaluate_scope-ne-stop_work :
    (rules : List ScopeRule) (t : Target) (raw : Text)
    → evaluate_scope rules t raw ≢ stop_work_active
unfolding evaluate_scope
evaluate_scope-ne-stop_work rules unclassified raw = ground arith
evaluate_scope-ne-stop_work rules _ raw = ground arith

-- The gates do not read the target.
pub evaluate_engagement-target :
    (c : PolicyInput) (t : Text)
    → evaluate_engagement (record c { target = t }) ≡ evaluate_engagement c
unfolding evaluate_engagement
evaluate_engagement-target c t = refl

evaluate-stop_work : (c : PolicyInput) → evaluate c ≡ stop_work_active → c.stop_work ≡ true
unfolding evaluate
evaluate-stop_work c h = ground (
  arith,
  evaluate_engagement-stop_work c,
  evaluate_scope-ne-stop_work c.scope_rules (normalize_target c.target) c.target,
)

evaluate_targets-stop_work :
    (c : PolicyInput) (targets : List Text)
    → evaluate_targets c targets ≡ stop_work_active
    → c.stop_work ≡ true
unfolding evaluate_targets
evaluate_targets-stop_work c [] h = cc
evaluate_targets-stop_work c (t ∷ ts) h =
    ground (arith, evaluate-stop_work (record c { target = t }), evaluate_targets-stop_work c ts)

-- `evaluate_all` reports stop-work exactly when the engagement is stopped, whatever its status,
-- its authorization and the targets are.
pub evaluate_all-stop_work :
    (c : PolicyInput) (targets : List Text)
    → (evaluate_all c targets ≡ stop_work_active) ↔ (c.stop_work ≡ true)
unfolding evaluate_all
evaluate_all-stop_work c targets =
    ground (arith, evaluate_engagement-stop_work c, evaluate_targets-stop_work c targets)

evaluate_targets_iff :
    (c : PolicyInput) (targets : List Text)
    → (evaluate_targets c targets ≡ allowed)
      ↔ All (λ t. evaluate (record c { target = t }) ≡ allowed) targets
unfolding evaluate_targets
evaluate_targets_iff c [] = (λ _. tt, λ _. refl)
evaluate_targets_iff c (t ∷ ts) = ground (arith, evaluate_targets_iff c ts)

-- A job is allowed exactly when the engagement is open and each of its targets is allowed; a job
-- with no targets needs the open engagement alone.
pub evaluate_all_iff :
    (c : PolicyInput) (targets : List Text)
    → (evaluate_all c targets ≡ allowed)
      ↔ (IsOpen c × All (λ t. evaluate (record c { target = t }) ≡ allowed) targets)
unfolding evaluate_all
evaluate_all_iff c targets =
    let gate = evaluate_engagement_iff c in
    let each = evaluate_targets_iff c targets in ground (arith, gate, each)
