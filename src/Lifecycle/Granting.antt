-- ===== src/Lifecycle/Granting.antt =====
-- What a claim has passed through: the budgets it found room in, and the row it wrote.
use mathlib.Core.Path.{subst}
use mathlib.Core.Bool.{false≢true}
use vardr_map.Base.{
  ℕ, suc, ◌+◌, ◌≤◌, ◌≡◌, refl, sym, ◌∙◌, false, not, Option, none, some, List, arith, length, ltb,
  str_eq, is_some,
}
use vardr_map.Json.{Value}
use vardr_map.Policy.Decision.{aware}
use vardr_map.Store.{
  Db, Engagement, ScanJob, JobExecution, TargetBinding, running, conflict, ok, raise_if, or_raise,
  ok-injective, err-ne-ok, bind_passed,
}
use vardr_map.Access.{CurrentUser}
use vardr_map.Enforcement.{check}
use vardr_map.Budget.{
  ClaimControl, DurationReceipt, TargetReceipt, before_claim, allocate, allocate_seconds,
  seconds_of, charge, charge_bound, spend, binding_of, binding_eq, opted_in, vardrgate, reserved,
}
use vardr_map.Execution.{Request, issue, principal}
use vardr_map.Jobs.Targets.{resolve_targets}
use vardr_map.Jobs.Claim.{take_snapshot, issue_for, claim_pending, Claimed}
use vardr_map.Lifecycle.Row.{Sound, IsSound}
use vardr_map.Lifecycle.Effect.{Within}
use vardr_map.Lifecycle.Inversion.{raise_if-eq_ok}

-- A change of the counters alone, within the limits.
pub record Charged (e e' : Engagement) : Type 0 where
  pub same_id : e'.id ≡ e.id
  pub same_limit : e'.concurrency_limit ≡ e.concurrency_limit
  pub within : Within e → Within e'

Charged-refl : (e : Engagement) → Charged e e
Charged-refl e = record { same_id = refl; same_limit = refl; within = λ h. h }

Charged-trans : {a b c : Engagement} → Charged a b → Charged b c → Charged a c
Charged-trans h k = record {
  same_id = k.same_id ∙ h.same_id;
  same_limit = k.same_limit ∙ h.same_limit;
  within = λ w. k.within (h.within w);
}

some-injective : {A : Type 0} {a b : A} → some a ≡ some b → a ≡ b
some-injective h = cc h

-- One more total under the limit that was looked up.
limit-le :
    (limit total : ℕ) (o : Option ℕ) (n : ℕ)
    → o ≡ some limit
    → ltb limit total ≡ false
    → o ≡ some n
    → total ≤ n
limit-le limit total o n e h k = let same : limit ≡ n = some-injective (sym e ∙ k) in ground arith

spent-Charged :
    (e : Engagement) (limit total : ℕ)
    → e.target_limit ≡ some limit
    → ltb limit total ≡ false
    → Charged e (record e { targets_spent = total })
spent-Charged e limit total l h = record {
  same_id = refl;
  same_limit = refl;
  within = λ w. record {
    targets = λ n k. limit-le limit total e.target_limit n l h k;
    duration = w.duration;
  };
}

allocated-Charged :
    (e : Engagement) (limit total : ℕ)
    → e.duration_limit ≡ some limit
    → ltb limit total ≡ false
    → Charged e (record e { duration_allocated = total })
allocated-Charged e limit total l h = record {
  same_id = refl;
  same_limit = refl;
  within = λ w. record {
    targets = w.targets;
    duration = λ n k. limit-le limit total e.duration_limit n l h k;
  };
}

module _ (binding : Value → Option TargetBinding) where
  spend-Charged :
      (e : Engagement) (job : ScanJob) (case : Option Value) (limit : ℕ) (supplied : TargetBinding)
      {r : Engagement × Option TargetReceipt}
      → e.target_limit ≡ some limit
      → spend binding e job case limit supplied ≡ ok r
      → Charged e r.0
  unfolding spend
  spend-Charged e job none limit supplied l h = absurd (err-ne-ok h)
  spend-Charged e job (some case) limit supplied l h =
      let (_, _, h1) = bind_passed (raise_if (not (str_eq job.tool_type vardrgate)) conflict) _ h in
      let (expected, _, h2) = bind_passed (or_raise (binding case) conflict) _ h1 in
      let (_, _, h3) = bind_passed (raise_if (not (binding_eq supplied expected)) conflict) _ h2 in
      let (_, room, h4) =
        bind_passed (raise_if (ltb limit (e.targets_spent + length expected.origins)) conflict) _
          h3 in
      subst (λ (r : Engagement × Option TargetReceipt). Charged e r.0) (ok-injective h4)
        (spent-Charged e limit (e.targets_spent + length expected.origins) l
          (raise_if-eq_ok _ conflict room))

  charge_bound-Charged :
      (e : Engagement) (job : ScanJob) (case : Option Value) (o : Option ℕ)
      (b : Option TargetBinding) {r : Engagement × Option TargetReceipt}
      → e.target_limit ≡ o
      → charge_bound binding e job case o b ≡ ok r
      → Charged e r.0
  unfolding charge_bound
  charge_bound-Charged e job case none none l h =
      subst (λ (r : Engagement × Option TargetReceipt). Charged e r.0) (ok-injective h)
        (Charged-refl e)
  charge_bound-Charged e job case none (some s) l h = absurd (err-ne-ok h)
  charge_bound-Charged e job case (some limit) none l h = absurd (err-ne-ok h)
  charge_bound-Charged e job case (some limit) (some s) l h = spend-Charged e job case limit s l h

  pub charge-Charged :
      (e : Engagement) (job : ScanJob) (case : Option Value) (body : Option ClaimControl)
      {r : Engagement × Option TargetReceipt}
      → charge binding e job case body ≡ ok r
      → Charged e r.0
  unfolding charge
  charge-Charged e job case body h =
      charge_bound-Charged e job case e.target_limit (binding_of body) refl h

allocate_seconds-Charged :
    (e : Engagement) (o s : Option ℕ) {r : Engagement × Option DurationReceipt}
    → e.duration_limit ≡ o
    → allocate_seconds e o s ≡ ok r
    → Charged e r.0
unfolding allocate_seconds
allocate_seconds-Charged e none none l h =
    subst (λ (r : Engagement × Option DurationReceipt). Charged e r.0) (ok-injective h)
      (Charged-refl e)
allocate_seconds-Charged e none (some s) l h = absurd (err-ne-ok h)
allocate_seconds-Charged e (some limit) none l h = absurd (err-ne-ok h)
allocate_seconds-Charged e (some limit) (some s) l h =
    let (_, room, h1) =
      bind_passed (raise_if (ltb limit (e.duration_allocated + s)) conflict) _ h in
    subst (λ (r : Engagement × Option DurationReceipt). Charged e r.0) (ok-injective h1)
      (allocated-Charged e limit (e.duration_allocated + s) l (raise_if-eq_ok _ conflict room))

pub allocate-Charged :
    (e : Engagement) (body : Option ClaimControl) {r : Engagement × Option DurationReceipt}
    → allocate e body ≡ ok r
    → Charged e r.0
unfolding allocate
allocate-Charged e body h = allocate_seconds-Charged e e.duration_limit (seconds_of body) refl h

-- A claim of an engagement with a limit finds a free place.
room-cases :
    (jobs : List ScanJob) (e : Engagement) (body : Option ClaimControl) {u : Unit {0}}
    → before_claim jobs e body ≡ ok u
    → (limit : ℕ) → e.concurrency_limit ≡ some limit
    → suc (reserved jobs e.id) ≤ limit
unfolding before_claim
room-cases jobs e body h limit l =
    let h1 = rw l at h in
    let (_, _, h2) = bind_passed (raise_if (not (opted_in body)) conflict) _ h1 in
    let free = raise_if-eq_ok _ conflict h2 in ground arith

-- A claim's attempt, if it has one, is active.
issued-Sound :
    (sha256 : ℕ → ℕ) (binding : Value → Option TargetBinding) (body : Option ClaimControl)
    (user : CurrentUser) (request : Request) (token now : ℕ) (target : Option TargetReceipt)
    (duration : Option DurationReceipt) {o : Option JobExecution}
    → issue_for sha256 binding body user request token now target duration ≡ ok o
    → Sound o running
unfolding issue
issued-Sound sha256 binding none user request token now target duration h =
    subst (λ o. Sound o running) (ok-injective h) tt
issued-Sound sha256 binding (some body) user request token now target duration h =
    let (x, issued, h1) =
      bind_passed (issue sha256 user request body token now target duration) _ h in
    let (p, _, h2) = bind_passed (principal request) _ issued in
    let sound : Sound (some x) running =
      subst (λ (y : JobExecution). Sound (some y) running) (ok-injective h2)
        (refl, refl, λ t. absurd (false≢true t)) in
    subst (λ o. Sound o running) (ok-injective h1) sound

-- What a claim that is granted has found and leaves.
pub record Granted (job : ScanJob) (e : Engagement) (jobs : List ScanJob) (claimed : ScanJob)
    (e' : Engagement) : Type 0 where
  pub charged : Charged e e'
  pub room : (limit : ℕ) → e.concurrency_limit ≡ some limit → suc (reserved jobs e.id) ≤ limit
  pub not_stopped : is_some e.stop_work_at ≡ false
  pub same_id : claimed.id ≡ job.id
  pub same_program : claimed.program_id ≡ job.program_id
  pub is_running_now : claimed.status ≡ running
  pub sound : IsSound claimed

module _ (sha256 : ℕ → ℕ) (binding : Value → Option TargetBinding) where
  pub claim_pending-Granted :
      (job : ScanJob) (e : Engagement) (body : Option ClaimControl) (user : CurrentUser)
      (request : Request) (token now : ℕ) (db : Db) {r : Claimed × Engagement}
      → claim_pending sha256 binding job e body user request token now db ≡ ok r
      → Granted job e db.jobs r.0.job r.1
  unfolding claim_pending
  claim_pending-Granted job e body user request token now db h =
      let (_, free, h1) = bind_passed (before_claim db.jobs e body) _ h in
      let (_, _, h2) =
        bind_passed
          (check db e job.tool_type (resolve_targets job.program_id job.target_source job.config db)
            (aware now))
          _ h1 in
      let (snapshot, _, h3) = bind_passed (take_snapshot job db) _ h2 in
      let (_, going, h4) = bind_passed (raise_if (is_some e.stop_work_at) conflict) _ h3 in
      let (target, paid, h5) = bind_passed (charge binding e job snapshot body) _ h4 in
      let (duration, lent, h6) = bind_passed (allocate target.0 body) _ h5 in
      let (x, issued, h7) =
        bind_passed (issue_for sha256 binding body user request token now target.1 duration.1) _
          h6 in
      subst (λ (r : Claimed × Engagement). Granted job e db.jobs r.0.job r.1) (ok-injective h7)
        (record {
          charged =
              Charged-trans (charge-Charged binding e job snapshot body paid)
                (allocate-Charged target.0 body lent);
          room = room-cases db.jobs e body free;
          not_stopped = raise_if-eq_ok _ conflict going;
          same_id = refl;
          same_program = refl;
          is_running_now = refl;
          sound =
              issued-Sound sha256 binding body user request token now target.1 duration.1 issued;
        })
