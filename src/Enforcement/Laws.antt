-- ===== src/Enforcement/Laws.antt =====
-- backend/enforcement.py: only stop-work refuses; the latest authorization governs.
use mathlib.Core.Path.{subst}
use mathlib.Core.Bool.{false≢true}
use native.Mathlib.Nat.{le_of_eq}
use vardr_map.Base.{
  sym, ap, ◌∙◌, ℕ, ◌≤◌, String, ◌≡◌, refl, ◌≢◌, ◌↔◌, ◌⊎◌, inl, inr, Bool, true, false, Option, none,
  some, List, [], ◌∷◌, arith, is_some, All, ltb, if◌then◌else◌, select, ◌==◌, ◌∈◌, here, there,
  Bool-cases, Option-cases,
}
use vardr_map.Text.{Text}
use vardr_map.Policy.Decision.{
  Reason, allowed, stop_work_active, capability_prohibited, DateTime, PolicyInput,
  AuthorizationSnapshot, evaluate_scope, evaluate_all, evaluate, evaluate_targets,
  evaluate_engagement, check_authorization,
}
use vardr_map.Policy.Target.{Target, unclassified, normalize_target}
use vardr_map.Policy.Match.{ScopeRule}
use vardr_map.Policy.Gates.{
  evaluate_engagement-target, IsOpen, evaluate_all-stop_work, evaluate_all_iff,
}
use vardr_map.Store.{Authorization, Engagement, Db, Error, forbidden, Result, ok, err}
use vardr_map.Enforcement.{latest, authorization, snapshot_of, build_input, outcome, check}

if-mem :
    {A : Type 0} (b : Bool) (x : A) (xs : List A) {a : A}
    → a ∈ (if b then x ∷ xs else xs)
    → ((a ≡ x) × (b ≡ true)) ⊎ (a ∈ xs)
if-mem true x xs here = inl (refl, refl)
if-mem true x xs (there m) = inr m
if-mem false x xs m = inr m

select-mem :
    {A : Type 0} (p : A → Bool) (xs : List A) {a : A} → a ∈ select p xs → (a ∈ xs) × (p a ≡ true)
select-mem p [] m = elim m [ ]
select-mem p (x ∷ xs) {a} m = elim (if-mem (p x) x (select p xs) m) [
  | inl (e, t) ↦ subst (λ y. (y ∈ x ∷ xs) × (p y ≡ true)) (sym e) (here, t)
  | inr m' ↦ let (mem, t) = select-mem p xs m' in (there mem, t)
]

abbrev created : Option Authorization → ℕ
created none = 0
created (some a) = a.created_at

outcome_refuses : (r : Reason) {e : Error} → outcome r ≡ err e → r ≡ stop_work_active
unfolding outcome
outcome_refuses r h = ground arith

outcome-cases :
    (r : Reason) → (r ≡ stop_work_active) ⊎ ((finding : Option Reason) × (outcome r ≡ ok finding))
outcome-cases r = by_result (outcome r) refl
  where
    by_result :
        (o : Result (Option Reason))
        → outcome r ≡ o
        → (r ≡ stop_work_active) ⊎ ((finding : Option Reason) × (outcome r ≡ ok finding))
    by_result (err e) h = inl (outcome_refuses r h)
    by_result (ok finding) h = inr (finding, h)

outcome_clear : (r : Reason) → (outcome r ≡ ok none) ↔ (r ≡ allowed)
unfolding outcome
outcome_clear r = ground arith

outcome_stop : outcome stop_work_active ≡ err forbidden
unfolding outcome
outcome_stop = refl

build_input-stop_work :
    (e : Engagement) (capability : String) (db : Db) (now : DateTime)
    → (build_input e capability db now).stop_work ≡ is_some e.stop_work_at
unfolding build_input
build_input-stop_work e capability db now = refl

-- `check` answers with the error `forbidden` exactly when the engagement is stopped, whatever the
-- targets, the scope, the window and the authorization are; and when it is not stopped, `check`
-- raises no error of any kind, so what it finds is advisory.
pub check-refuses :
    (db : Db) (e : Engagement) (capability : String) (targets : List Text) (now : DateTime)
    → ((check db e capability targets now ≡ err forbidden) ↔ (is_some e.stop_work_at ≡ true))
      × (is_some e.stop_work_at ≡ false
          → (finding : Option Reason) × (check db e capability targets now ≡ ok finding))
unfolding check
check-refuses db e capability targets now =
    let c = build_input e capability db now in
    let stop = evaluate_all-stop_work c targets in
    let same = build_input-stop_work e capability db now in
    (
      (
        λ h. sym same ∙ stop.0 (outcome_refuses (evaluate_all c targets) h),
        λ h. ap outcome (stop.1 (same ∙ h)) ∙ outcome_stop,
      ),
      λ h. elim (outcome-cases (evaluate_all c targets)) [
        | inl k ↦ absurd (false≢true (sym h ∙ (sym same ∙ stop.0 k)))
        | inr advisory ↦ advisory
      ],
    )

-- `check` flags nothing exactly when the engagement is open and every target is allowed.
pub check-clear :
    (db : Db) (e : Engagement) (capability : String) (targets : List Text) (now : DateTime)
    → let c = build_input e capability db now in
      (check db e capability targets now ≡ ok none)
      ↔ (IsOpen c × All (λ t. evaluate (record c { target = t }) ≡ allowed) targets)
unfolding check
check-clear db e capability targets now =
    let c = build_input e capability db now in
    let clear = outcome_clear (evaluate_all c targets) in
    let each = evaluate_all_iff c targets in (λ h. each.0 (clear.0 h), λ h. clear.1 (each.1 h))

latest_mono :
    (a best : Authorization) (rows : List Authorization)
    → latest (some best) rows ≡ some a
    → (best.created_at ≤ a.created_at) × All (λ b. b.created_at ≤ a.created_at) rows
unfolding latest
latest_mono a best [] h = (le_of_eq (ap (λ (o : Option Authorization). created o) h), tt)
latest_mono a best (b ∷ rows) h = elim (Bool-cases (ltb best.created_at b.created_at)) [
  | inl newer ↦
      let (above, rest) = latest_mono a b rows (rw newer at h) in (ground arith, (above, rest))
  | inr older ↦
      let (above, rest) = latest_mono a best rows (rw older at h) in (above, (ground arith, rest))
]

latest-mem :
    (a best : Authorization) (rows : List Authorization)
    → latest (some best) rows ≡ some a
    → (a ≡ best) ⊎ (a ∈ rows)
unfolding latest
latest-mem a best [] h = inl (ground arith)
latest-mem a best (b ∷ rows) h = elim (Bool-cases (ltb best.created_at b.created_at)) [
  | inl newer ↦ elim (latest-mem a b rows (rw newer at h)) [
    | inl e ↦ inr (subst (λ x. x ∈ b ∷ rows) (sym e) here)
    | inr m ↦ inr (there m)
  ]
  | inr older ↦ elim (latest-mem a best rows (rw older at h)) [
    | inl e ↦ inl e
    | inr m ↦ inr (there m)
  ]
]

-- The record that governs is one of the list and none of the list was created after it.
latest_lem :
    (a : Authorization) (rows : List Authorization)
    → latest none rows ≡ some a
    → (a ∈ rows) × All (λ b. b.created_at ≤ a.created_at) rows
unfolding latest
latest_lem a [] h = cc
latest_lem a (b ∷ rows) h =
    let (above, rest) = latest_mono a b rows h in
    let m : a ∈ b ∷ rows = elim (latest-mem a b rows h) [
      | inl e ↦ subst (λ x. x ∈ b ∷ rows) (sym e) here
      | inr m ↦ there m
    ] in
    (m, (above, rest))

-- The authorization that the policy sees is the one of the engagement's records that was created
-- last; a record of another engagement, or an older grant, has no part in it.
pub authorization-latest :
    (program : ℕ) (db : Db) {snap : AuthorizationSnapshot}
    → authorization program db ≡ some snap
    → (a : Authorization) × (a ∈ db.authorizations)
      × (a.program_id ≡ program)
      × (snapshot_of (some a) ≡ some snap)
      × All
          (λ b. b.created_at ≤ a.created_at)
          (select (λ row. row.program_id == program) db.authorizations)
unfolding authorization
authorization-latest program db {snap} h =
    let rows = select (λ (row : Authorization). row.program_id == program) db.authorizations in
    elim (Option-cases (latest none rows)) [
      | inl e ↦ absurd (none_case rows e h)
      | inr (a, e) ↦
          let (m, above) = latest_lem a rows e in
          let (mem, own) =
            select-mem (λ (row : Authorization). row.program_id == program) db.authorizations m in
          (a, mem, ground arith, sym (ap snapshot_of e) ∙ h, above)
    ]
  where
    none_case :
        (rows : List Authorization)
        → latest none rows ≡ none
        → snapshot_of (latest none rows) ≡ some snap
        → ⊥
    none_case rows e h = cc (ap snapshot_of e)

check_authorization-unrestricted :
    (t : String) (now : DateTime) (capability : String) (o : Option Authorization)
    → check_authorization t now capability (snapshot_of o) ≢ capability_prohibited
unfolding check_authorization
check_authorization-unrestricted t now capability none = ground arith
check_authorization-unrestricted t now capability (some a) = ground arith

evaluate_engagement-unrestricted :
    (e : Engagement) (capability : String) (db : Db) (now : DateTime)
    → evaluate_engagement (build_input e capability db now) ≢ capability_prohibited
unfolding evaluate_engagement build_input authorization
evaluate_engagement-unrestricted e capability db now = ground (
  arith,
  check_authorization-unrestricted e.engagement_type now capability
      (latest none (select (λ (row : Authorization). row.program_id == e.id) db.authorizations)),
)

evaluate_scope-unrestricted :
    (rules : List ScopeRule) (t : Target) (raw : Text)
    → evaluate_scope rules t raw ≢ capability_prohibited
unfolding evaluate_scope
evaluate_scope-unrestricted rules unclassified raw = ground arith
evaluate_scope-unrestricted rules _ raw = ground arith

evaluate_targets-unrestricted :
    (c : PolicyInput) (targets : List Text)
    → evaluate_engagement c ≢ capability_prohibited
    → evaluate_targets c targets ≢ capability_prohibited
unfolding evaluate_targets evaluate
evaluate_targets-unrestricted c [] h = ground arith
evaluate_targets-unrestricted c (t ∷ ts) h = ground (
  arith,
  evaluate_targets-unrestricted c ts h,
  evaluate_engagement-target c t,
  evaluate_scope-unrestricted c.scope_rules (normalize_target t) t,
)

outcome-some : (r s : Reason) → outcome r ≡ ok (some s) → r ≡ s
unfolding outcome
outcome-some r s h = ground arith

-- The reason `capability_prohibited` is never reported, since no stored authorization restricts
-- the capabilities.
pub check-ne-capability_prohibited :
    (db : Db) (e : Engagement) (capability : String) (targets : List Text) (now : DateTime)
    → check db e capability targets now ≢ ok (some capability_prohibited)
unfolding check evaluate_all
check-ne-capability_prohibited db e capability targets now h =
    let c = build_input e capability db now in
    ground (
      arith,
      outcome-some (evaluate_all c targets) capability_prohibited h,
      evaluate_engagement-unrestricted e capability db now,
      evaluate_targets-unrestricted c targets,
    )
