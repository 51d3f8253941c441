-- ===== src/Lifecycle/Row.antt =====
-- What one call does to one row of `scan_jobs`: soundness, `PATCH` and cancellation.
use mathlib.Core.Path.{subst}
use mathlib.Core.Bool.{false≢true}
use vardr_map.Base.{
  ℕ, ◌≡◌, refl, ◌⊎◌, inl, inr, ap, sym, ◌∙◌, true, false, not, ◌&&◌, Option, none, some, arith,
  ◌==◌, Bool-cases, Option-cases,
}
use vardr_map.Text.{Text}
use vardr_map.Store.{
  ScanJob, JobExecution, Status, running, failed, ExecutionState, ok, ok-injective, err-ne-ok,
  bind_passed,
}
use vardr_map.Access.{CurrentUser, require_full_scope}
use vardr_map.Budget.{reserves}
use vardr_map.Jobs.Update.{
  cancel, cancel_state, cancel_execution, change_status, may_become, status_eq, is_final,
  update_row, JobReply,
}
use vardr_map.Jobs.Pending.{is_pending}
use vardr_map.Jobs.Control.{is_terminal}
use vardr_map.Engagements.{cancel_active, cancel_in}

-- An attempt has ended exactly when its job has, it belongs to a job that was claimed, and once
-- ended it holds no capacity.
abbrev pub Sound : Option JobExecution → Status → Type 0
Sound none status = Unit
Sound (some x) status =
    (is_terminal x.state ≡ is_final status)
    × (is_pending status ≡ false)
    × (is_terminal x.state ≡ true → x.capacity_reserved ≡ false)

abbrev pub IsSound : ScanJob → Type 0
IsSound j = Sound j.execution j.status

-- A call that takes a row to another one: identity stays, soundness is kept, a finished row is not
-- touched, and no capacity is taken.
pub record Keeps (j j' : ScanJob) : Type 0 where
  pub same_id : j'.id ≡ j.id
  pub same_program : j'.program_id ≡ j.program_id
  pub sound : IsSound j → IsSound j'
  pub final : IsSound j → is_final j.status ≡ true → j' ≡ j
  pub holds : reserves j'.execution ≡ true → reserves j.execution ≡ true

cancel_execution-eq :
    (j : ScanJob) (x : JobExecution) (status : Status) {j' : ScanJob}
    → cancel_execution j x status ≡ ok j'
    → record j { execution = some (cancel x) } ≡ j'
unfolding cancel_execution
cancel_execution-eq j x status h =
    elim (Bool-cases (status_eq status failed && status_eq j.status running)) [
      | inl may ↦ ok-injective (rw may at h)
      | inr not_ ↦ absurd (err-ne-ok (rw not_ at h))
    ]

pub Keeps-refl : (j : ScanJob) → Keeps j j
Keeps-refl j = record {
  same_id = refl;
  same_program = refl;
  sound = λ h. h;
  final = λ _ _. refl;
  holds = λ h. h;
}

may_become-final : (s t : Status) → may_become s t ≡ true → is_final s ≡ false
unfolding may_become
may_become-final s t h = ground arith

change_status-cases :
    (j : ScanJob) (status : Status) (message : Option Text) (now : ℕ) {j' : ScanJob}
    → change_status j status message now ≡ ok j'
    → (j ≡ j')
      ⊎ ((c : Option ℕ) × (m : Text) × (may_become j.status status ≡ true)
          × (record j { status = status; completed_at = c; error_message = m } ≡ j'))
unfolding change_status
change_status-cases j status message now h =
    elim (Bool-cases (status_eq status j.status && not (status_eq status running))) [
      | inl same ↦ inl (ok-injective (rw same at h))
      | inr other ↦ elim (Bool-cases (may_become j.status status)) [
        | inl may ↦ inr (_, _, may, ok-injective (rw (other, may) at h))
        | inr not_ ↦ absurd (err-ne-ok (rw (other, not_) at h))
      ]
    ]

moved-Keeps :
    (j : ScanJob) (status : Status) (c : Option ℕ) (m : Text)
    → j.execution ≡ none
    → is_final j.status ≡ false
    → Keeps j (record j { status = status; completed_at = c; error_message = m })
moved-Keeps j status c m e open_ = record {
  same_id = refl;
  same_program = refl;
  sound = λ _. subst (λ x. Sound x status) (sym e) tt;
  final = λ _ f. absurd (false≢true (sym open_ ∙ f));
  holds = λ h. h;
}

change_status-Keeps :
    (j : ScanJob) (status : Status) (message : Option Text) (now : ℕ) {j' : ScanJob}
    → j.execution ≡ none
    → change_status j status message now ≡ ok j'
    → Keeps j j'
change_status-Keeps j status message now e h = elim (change_status-cases j status message now h) [
  | inl same ↦ subst (Keeps j) same (Keeps-refl j)
  | inr (c, m, may, same) ↦
      subst (Keeps j) same (moved-Keeps j status c m e (may_become-final j.status status may))
]

-- Another state for the attempt, where no ended attempt changes.
module _ (j : ScanJob) (x x' : JobExecution) (e : j.execution ≡ some x) where
  pub attempt-Keeps :
      (is_terminal x.state ≡ true → x' ≡ x)
      → (is_terminal x.state ≡ false → is_terminal x'.state ≡ false)
      → (x'.capacity_reserved ≡ x.capacity_reserved)
      → Keeps j (record j { execution = some x' })
  attempt-Keeps ended going capacity = record {
    same_id = refl;
    same_program = refl;
    sound = λ h. attempt-Sound (subst (λ o. Sound o j.status) e h);
    final = λ h f. attempt-final (subst (λ o. Sound o j.status) e h) f;
    holds = λ h. ap reserves e ∙ sym capacity ∙ h;
  }
    where
      attempt-Sound : Sound (some x) j.status → Sound (some x') j.status
      attempt-Sound (same, claimed, free) = elim (Bool-cases (is_terminal x.state)) [
        | inl t ↦ subst (λ y. Sound (some y) j.status) (sym (ended t)) (same, claimed, free)
        | inr f ↦ (going f ∙ sym f ∙ same, claimed, λ t. absurd (false≢true (sym (going f) ∙ t)))
      ]

      attempt-final :
          Sound (some x) j.status → is_final j.status ≡ true → record j { execution = some x' } ≡ j
      attempt-final (same, claimed, free) f =
          let kept : some x' ≡ j.execution =
            ap (λ (y : JobExecution). some y) (ended (same ∙ f)) ∙ sym e in
          λ i. record j { execution = kept i }

cancel_state-ended : (s : ExecutionState) → is_terminal s ≡ true → cancel_state s ≡ s
cancel_state-ended s h = ground arith

cancel_state-going :
    (s : ExecutionState) → is_terminal s ≡ false → is_terminal (cancel_state s) ≡ false
cancel_state-going s h = ground arith

pub cancel-Keeps :
    (j : ScanJob) (x : JobExecution)
    → j.execution ≡ some x
    → Keeps j (record j { execution = some (cancel x) })
cancel-Keeps j x e =
    attempt-Keeps j x (cancel x) e (λ t i. record x { state = cancel_state-ended x.state t i })
      (cancel_state-going x.state) refl

-- The row that `PATCH` writes.
pub update_row-Keeps :
    (j : ScanJob) (user : CurrentUser) (status : Status) (message : Option Text) (now : ℕ)
    {reply : JobReply}
    → update_row j.execution j user status message now ≡ ok reply
    → Keeps j reply.0
update_row-Keeps j user status message now {reply} h = elim (Option-cases j.execution) [
  | inl e ↦ unowned e (subst (λ o. update_row o j user status message now ≡ ok reply) e h)
  | inr (x, e) ↦ owned x e (subst (λ o. update_row o j user status message now ≡ ok reply) e h)
]
  where
    unowned :
        j.execution ≡ none → update_row none j user status message now ≡ ok reply → Keeps j reply.0
    unowned e h =
        let (j', changed, same) = bind_passed (change_status j status message now) _ h in
        subst (λ (r : JobReply). Keeps j r.0) (ok-injective same)
          (change_status-Keeps j status message now e changed)

    owned :
        (x : JobExecution)
        → j.execution ≡ some x
        → update_row (some x) j user status message now ≡ ok reply
        → Keeps j reply.0
    owned x e h =
        let (_, _, h') = bind_passed (require_full_scope user) _ h in
        let (j', changed, same) = bind_passed (cancel_execution j x status) _ h' in
        subst (λ (r : JobReply). Keeps j r.0) (ok-injective same)
          (subst (Keeps j) (cancel_execution-eq j x status changed) (cancel-Keeps j x e))

cancel_active-Keeps :
    (j : ScanJob) (o : Option JobExecution)
    → j.execution ≡ o
    → Keeps j (record j { execution = cancel_active o })
cancel_active-Keeps j none e = subst (λ o. Keeps j (record j { execution = o })) e (Keeps-refl j)
cancel_active-Keeps j (some x) e = cancel-Keeps j x e

-- The row under stop-work.
pub cancel_in-Keeps : (program : ℕ) (j : ScanJob) → Keeps j (cancel_in program j)
cancel_in-Keeps program j = elim (Bool-cases (j.program_id == program)) [
  | inl e ↦ rw e (cancel_active-Keeps j j.execution refl)
  | inr e ↦ rw e (Keeps-refl j)
]
