-- ===== src/Policy/Rules.antt =====
-- backend/policy.py: exclusions beat inclusions, and the order of the rules does not matter.
use vardr_map.Base.{
  ◌≡◌, refl, ◌≢◌, ◌↔◌, Bool, true, false, not, ◌&&◌, List, [], ◌∷◌, arith, any, ◌∈◌, here, there,
  any-mem, mem-any,
}
use vardr_map.Text.{Text}
use vardr_map.Policy.Target.{Target, unclassified, normalize_target}
use vardr_map.Policy.Match.{ScopeRule, rule_matches}
use vardr_map.Policy.Decision.{
  allowed, PolicyInput, is_excluded, is_included, evaluate_engagement, evaluate_scope, evaluate,
}
use vardr_map.Policy.Gates.{IsOpen, evaluate_engagement_iff}

module _ (t : Target) (raw : Text) where
  abbrev excludes : ScopeRule → Bool
  excludes r = r.excluded && rule_matches r t raw

  abbrev includes : ScopeRule → Bool
  includes r = not r.excluded && rule_matches r t raw

  is_excluded-eq-any : (rules : List ScopeRule) → is_excluded rules t raw ≡ any excludes rules
  unfolding is_excluded
  is_excluded-eq-any [] = refl
  is_excluded-eq-any (r ∷ rs) = ground (arith, is_excluded-eq-any rs)

  is_included-eq-any : (rules : List ScopeRule) → is_included rules t raw ≡ any includes rules
  unfolding is_included
  is_included-eq-any [] = refl
  is_included-eq-any (r ∷ rs) = ground (arith, is_included-eq-any rs)

  evaluate_scope_iff :
      (rules : List ScopeRule)
      → (evaluate_scope rules t raw ≡ allowed)
        ↔ ((t ≢ unclassified) × (any excludes rules ≡ false) × (any includes rules ≡ true))
  unfolding evaluate_scope
  evaluate_scope_iff rules = ground (arith, is_excluded-eq-any rules, is_included-eq-any rules)

-- A rule of the list that is an exclusion, or an inclusion, and covers the target.
abbrev pub HasExclusion : PolicyInput → Type 0
HasExclusion c =
    (r : ScopeRule) × (r ∈ c.scope_rules)
    × (r.excluded ≡ true)
    × (rule_matches r (normalize_target c.target) c.target ≡ true)

abbrev pub HasInclusion : PolicyInput → Type 0
HasInclusion c =
    (r : ScopeRule) × (r ∈ c.scope_rules)
    × (r.excluded ≡ false)
    × (rule_matches r (normalize_target c.target) c.target ≡ true)

any-excludes_iff :
    (c : PolicyInput)
    → (any (excludes (normalize_target c.target) c.target) c.scope_rules ≡ true) ↔ HasExclusion c
any-excludes_iff c = (
  λ h. let (r, m, e) = any-mem _ c.scope_rules h in (r, m, ground arith, ground arith),
  λ (r, m, x, e). mem-any _ m (ground arith),
)

any-includes_iff :
    (c : PolicyInput)
    → (any (includes (normalize_target c.target) c.target) c.scope_rules ≡ true) ↔ HasInclusion c
any-includes_iff c = (
  λ h. let (r, m, e) = any-mem _ c.scope_rules h in (r, m, ground arith, ground arith),
  λ (r, m, x, e). mem-any _ m (ground arith),
)

not_true : (b : Bool) → (b ≡ false) ↔ (¬ (b ≡ true))
not_true b = ground arith

evaluate-split :
    (c : PolicyInput)
    → (evaluate c ≡ allowed) ↔ (
        (evaluate_engagement c ≡ allowed)
        × (evaluate_scope c.scope_rules (normalize_target c.target) c.target ≡ allowed))
unfolding evaluate
evaluate-split c = ground arith

-- A target is allowed exactly when the engagement is open, the target is classified, no exclusion
-- covers it and some inclusion does.
pub evaluate_iff :
    (c : PolicyInput)
    → (evaluate c ≡ allowed) ↔ (
        IsOpen c × (normalize_target c.target ≢ unclassified) × (¬ HasExclusion c) × HasInclusion c)
evaluate_iff c =
    let t = normalize_target c.target in
    let scope = evaluate_scope_iff t c.target c.scope_rules in
    let excluded = any-excludes_iff c in
    let included = any-includes_iff c in
    (
      λ h.
          let (gate, inside) = (evaluate-split c).0 h in
          let (known, out, incl) = scope.0 inside in
          (
            (evaluate_engagement_iff c).0 gate,
            known,
            λ x. (not_true _).0 out (excluded.1 x),
            included.0 incl,
          ),
      λ (open_now, known, out, incl). (evaluate-split c).1 (
        (evaluate_engagement_iff c).1 open_now,
        scope.1 (known, (not_true _).1 (λ e. out (excluded.0 e)), included.1 incl),
      ),
    )

abbrev pub SameRules : List ScopeRule → List ScopeRule → Type 0
SameRules rs ss = (r : ScopeRule) → (r ∈ rs) ↔ (r ∈ ss)

any-SameRules :
    (p : ScopeRule → Bool) (rs ss : List ScopeRule)
    → SameRules rs ss
    → any p rs ≡ true
    → any p ss ≡ true
any-SameRules p rs ss same h = let (r, m, e) = any-mem p rs h in mem-any p ((same r).0 m) e

any-eq_SameRules :
    (p : ScopeRule → Bool) (rs ss : List ScopeRule) → SameRules rs ss → any p rs ≡ any p ss
any-eq_SameRules p rs ss same =
    let there_ = any-SameRules p rs ss same in
    let back = any-SameRules p ss rs (λ r. ((same r).1, (same r).0)) in ground arith

evaluate_scope-SameRules :
    (rs ss : List ScopeRule) (t : Target) (raw : Text)
    → SameRules rs ss
    → evaluate_scope rs t raw ≡ evaluate_scope ss t raw
unfolding evaluate_scope
evaluate_scope-SameRules rs ss t raw same = ground (
  arith,
  is_excluded-eq-any t raw rs,
  is_excluded-eq-any t raw ss,
  is_included-eq-any t raw rs,
  is_included-eq-any t raw ss,
  any-eq_SameRules (excludes t raw) rs ss same,
  any-eq_SameRules (includes t raw) rs ss same,
)

-- The decision and its reason depend on which rules there are, and not on their order or on
-- repetitions among them.
pub evaluate-rules_order :
    (c : PolicyInput) (rules : List ScopeRule)
    → SameRules c.scope_rules rules
    → evaluate (record c { scope_rules = rules }) ≡ evaluate c
unfolding evaluate evaluate_engagement
evaluate-rules_order c rules same =
    ground (
      arith,
      evaluate_scope-SameRules c.scope_rules rules (normalize_target c.target) c.target same,
    )

-- One more exclusion never lets a target through that was refused.
pub evaluate-exclusion_antitone :
    (c : PolicyInput) (r : ScopeRule)
    → r.excluded ≡ true
    → evaluate (record c { scope_rules = r ∷ c.scope_rules }) ≡ allowed
    → evaluate c ≡ allowed
evaluate-exclusion_antitone c r x h =
    let (open_now, known, out, (s, m, incl, e)) =
      (evaluate_iff (record c { scope_rules = r ∷ c.scope_rules })).0 h in
    (evaluate_iff c).1
      (open_now, known, λ (s', m', x', e'). out (s', there m', x', e'), remains s m incl e)
  where
    remains :
        (s : ScopeRule)
        → s ∈ r ∷ c.scope_rules
        → s.excluded ≡ false
        → rule_matches s (normalize_target c.target) c.target ≡ true
        → HasInclusion c
    remains s here incl e = cc
    remains s (there m) incl e = (s, m, incl, e)
