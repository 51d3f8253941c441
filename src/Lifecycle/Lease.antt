-- ===== src/Lifecycle/Lease.antt =====
-- What a refresh and a report do to one row of `scan_jobs`.
use mathlib.Core.Path.{subst}
use mathlib.Core.Bool.{false≢true}
use vardr_map.Base.{
  ℕ, ◌≡◌, refl, inl, inr, sym, ◌∙◌, Bool, true, false, not, ◌&&◌, ◌||◌, Option, some, arith, leb,
  Bool-cases,
}
use vardr_map.Text.{Text}
use vardr_map.Store.{ScanJob, JobExecution, Status, ExecutionState}
use vardr_map.Jobs.Update.{is_final}
use vardr_map.Jobs.Control.{
  is_active, is_terminal, observed_state, refresh, Outcome, settle, finish, is_completed,
}
use vardr_map.Lifecycle.Row.{Sound, Keeps, Keeps-refl, attempt-Keeps}
use vardr_map.Jobs.Pending.{is_pending}

observed_state-ended :
    (s : ExecutionState) (stopped expired : Bool)
    → is_terminal s ≡ true
    → observed_state s stopped expired ≡ s
unfolding observed_state
observed_state-ended s stopped expired h = ground arith

observed_state-going :
    (s : ExecutionState) (stopped expired : Bool)
    → is_terminal s ≡ false
    → is_terminal (observed_state s stopped expired) ≡ false
unfolding observed_state
observed_state-going s stopped expired h = ground arith

terminal-not_active : (s : ExecutionState) → is_terminal s ≡ true → is_active s ≡ false
terminal-not_active s h = ground arith

refresh-ended :
    (x : JobExecution) (status : Status) (stopped : Bool) (now : ℕ)
    → is_terminal x.state ≡ true
    → (refresh x status stopped now).0 ≡ x
unfolding refresh
refresh-ended x status stopped now t =
    let same = observed_state-ended x.state stopped (leb x.expires_at now) t in
    rw (same, terminal-not_active x.state t) refl

refresh-going :
    (x : JobExecution) (status : Status) (stopped : Bool) (now : ℕ)
    → is_terminal x.state ≡ false
    → (is_terminal (refresh x status stopped now).0.state ≡ false)
unfolding refresh
refresh-going x status stopped now t =
    ground (arith, observed_state-going x.state stopped (leb x.expires_at now) t)

refresh-capacity :
    (x : JobExecution) (status : Status) (stopped : Bool) (now : ℕ)
    → (refresh x status stopped now).0.capacity_reserved ≡ x.capacity_reserved
unfolding refresh
refresh-capacity x status stopped now = ground arith

-- The row that a refresh writes.
pub refresh-Keeps :
    (j : ScanJob) (x : JobExecution) (stopped : Bool) (now : ℕ)
    → j.execution ≡ some x
    → Keeps j (record j { execution = some (refresh x j.status stopped now).0 })
refresh-Keeps j x stopped now e =
    attempt-Keeps j x (refresh x j.status stopped now).0 e (refresh-ended x j.status stopped now)
      (refresh-going x j.status stopped now) (refresh-capacity x j.status stopped now)

-- A final outcome: the attempt and its job end together.
ended-Keeps :
    (j : ScanJob) (x : JobExecution) (state : ExecutionState) (status : Status) (c : Option ℕ)
    (m : Text)
    → j.execution ≡ some x
    → is_terminal x.state ≡ false
    → is_terminal state ≡ true
    → is_final status ≡ true
    → Keeps j (record j {
      execution = some (record x { state = state; capacity_reserved = false });
      status = status;
      completed_at = c;
      error_message = m;
    })
ended-Keeps j x state status c m e going t f = record {
  same_id = refl;
  same_program = refl;
  sound = λ _. (t ∙ sym f, final-claimed status f, λ _. refl);
  final = λ h f'. absurd (false≢true (sym going ∙ (subst (λ o. Sound o j.status) e h).0 ∙ f'));
  holds = λ h. absurd (false≢true h);
}
  where
    final-claimed : (s : Status) → is_final s ≡ true → is_pending s ≡ false
    final-claimed s f = ground arith

settle-Keeps :
    (j : ScanJob) (x : JobExecution) (outcome : Outcome) (now : ℕ)
    → j.execution ≡ some x
    → is_terminal x.state ≡ false
    → Keeps j (settle j x outcome now)
unfolding settle
settle-Keeps j x Outcome.uncertain now e going =
    attempt-Keeps j x _ e (λ t. absurd (false≢true (sym going ∙ t))) (λ _. refl) refl
settle-Keeps j x Outcome.completed now e going = ended-Keeps j x _ _ _ _ e going refl refl
settle-Keeps j x Outcome.failed now e going = ended-Keeps j x _ _ _ _ e going refl refl
settle-Keeps j x Outcome.cancelled now e going = ended-Keeps j x _ _ _ _ e going refl refl

-- The row that a report leaves, accepted or refused.
pub finish-Keeps :
    (j : ScanJob) (x : JobExecution) (outcome : Outcome) (stopped : Bool) (now : ℕ)
    → j.execution ≡ some x
    → Keeps j (finish j x outcome stopped now).1
unfolding finish
finish-Keeps j x outcome stopped now e = elim (Bool-cases (is_terminal x.state)) [
  | inl t ↦ rw t (Keeps-refl j)
  | inr going ↦
      elim (Bool-cases
        (is_completed outcome && (not (is_active x.state) || leb x.expires_at now || stopped))) [
          | inl late ↦
              rw (going, late)
                (attempt-Keeps j x _ e (λ t. absurd (false≢true (sym going ∙ t))) (λ _. refl) refl)
          | inr good ↦ rw (going, good) (settle-Keeps j x outcome now e going)
        ]
]
