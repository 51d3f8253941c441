-- ===== src/Lifecycle/Controller.antt =====
-- backend/execution_control.py and backend/routers/jobs.py: who controls an attempt.
use mathlib.Core.Path.{subst}
use vardr_map.Base.{ℕ, ◌≡◌, refl, ap, sym, ◌∙◌, true, false, not, ◌||◌, some, arith, ◌==◌}
use vardr_map.Text.{eqb}
use vardr_map.Text.Laws.{eqb_iff}
use vardr_map.Store.{
  Db, Engagement, ScanJob, JobExecution, not_found, forbidden, conflict, ok, raise_if, or_raise,
  ok-injective, bind_passed,
}
use vardr_map.Access.{CurrentUser}
use vardr_map.Execution.{Request, ControlRequest, accessible_job, principal, check_owned, owned}
use vardr_map.Jobs.Update.{writable_engagement}
use vardr_map.Jobs.Claim.{is_managed}
use vardr_map.Jobs.Control.{owned_writable}
use vardr_map.Lifecycle.Inversion.{raise_if-eq_ok, or_raise-eq_ok}

-- The caller controls the attempt: it is that of a job that the caller may see and write to and that
-- is not managed; and the caller's account, runner, API key and token are those it was issued to.
pub record IsController (sha256 : ℕ → ℕ) (id : ℕ) (user : CurrentUser) (request : Request)
    (body : ControlRequest) (db : Db) (job : ScanJob) (x : JobExecution) (e : Engagement)
    : Type 0 where
  pub seen : accessible_job id user db ≡ some job
  pub attempted : job.execution ≡ some x
  pub owner : x.owner ≡ user.github_id
  pub runner : x.runner_id ≡ body.claim.runner_id
  pub origin : x.origin ≡ body.claim.origin
  pub key : request.api_key_hash ≡ some x.principal_hash
  pub token : x.token_hash ≡ sha256 body.token
  pub may_write : writable_engagement job user db ≡ ok e
  pub unmanaged : is_managed job ≡ false

module _ (sha256 : ℕ → ℕ) (id : ℕ) (user : CurrentUser) (request : Request) (body : ControlRequest)
    (db : Db) where
  -- The attempt was issued to this account, runner, key and token.
  abbrev IsIssued : JobExecution → Type 0
  IsIssued x =
      (x.owner ≡ user.github_id)
      × (x.runner_id ≡ body.claim.runner_id)
      × (x.origin ≡ body.claim.origin)
      × (request.api_key_hash ≡ some x.principal_hash)
      × (x.token_hash ≡ sha256 body.token)

  check_owned_sound :
      (x : JobExecution) {y : JobExecution}
      → check_owned sha256 x user request body ≡ ok y
      → (x ≡ y) × IsIssued x
  unfolding check_owned
  check_owned_sound x h =
      let (_, who, h1) =
        bind_passed
          (raise_if
            (not (x.owner == user.github_id)
              || not (x.runner_id == body.claim.runner_id)
              || not (eqb x.origin body.claim.origin))
            not_found)
          _ h in
      let (p, key, h2) = bind_passed (principal request) _ h1 in
      let (_, drawn, h3) =
        bind_passed
          (raise_if (not (x.principal_hash == p) || not (x.token_hash == sha256 body.token))
            not_found)
          _ h2 in
      let issued = raise_if-eq_ok _ not_found who in
      let matched = raise_if-eq_ok _ not_found drawn in
      let bearer = or_raise-eq_ok request.api_key_hash forbidden key in
      let same : x.principal_hash ≡ p = ground (arith, matched) in
      (
        ok-injective h3,
        (
          ground (arith, issued),
          ground (arith, issued),
          (eqb_iff x.origin body.claim.origin).0 (ground (arith, issued)),
          bearer ∙ ap (λ z. some z) (sym same),
          ground (arith, matched),
        ),
      )

  check_owned_complete :
      (x : JobExecution) → IsIssued x → check_owned sha256 x user request body ≡ ok x
  unfolding check_owned
  check_owned_complete x (owner, runner, origin, key, token) =
      let named : eqb x.origin body.claim.origin ≡ true =
        (eqb_iff x.origin body.claim.origin).1 origin in
      let issued : (not (x.owner == user.github_id)
            || not (x.runner_id == body.claim.runner_id)
            || not (eqb x.origin body.claim.origin))
          ≡ false =
        ground (arith, owner, runner, named) in
      let drawn : (not (x.principal_hash == x.principal_hash)
            || not (x.token_hash == sha256 body.token))
          ≡ false =
        ground (arith, token) in
      rw (issued, key, drawn) refl

  owned_sound :
      {r : ScanJob × JobExecution}
      → owned sha256 id user request body db ≡ ok r
      → (accessible_job id user db ≡ some r.0) × (r.0.execution ≡ some r.1) × IsIssued r.1
  unfolding owned
  owned_sound h =
      let (job, seen, h1) = bind_passed (or_raise (accessible_job id user db) not_found) _ h in
      let (x, attempted, h2) = bind_passed (or_raise job.execution not_found) _ h1 in
      let (y, checked, h3) = bind_passed (check_owned sha256 x user request body) _ h2 in
      let (same, issued) = check_owned_sound x checked in
      subst
        (λ (r : ScanJob × JobExecution).
          (accessible_job id user db ≡ some r.0) × (r.0.execution ≡ some r.1) × IsIssued r.1)
        (ok-injective h3)
        (
          or_raise-eq_ok _ not_found seen,
          or_raise-eq_ok _ not_found attempted ∙ ap (λ z. some z) same,
          subst IsIssued same issued,
        )

  -- The checks of both calls pass exactly for a caller who controls the attempt.
  pub owned_writable_sound :
      {r : ScanJob × JobExecution × Engagement}
      → owned_writable sha256 id user request body db ≡ ok r
      → IsController sha256 id user request body db r.0 r.1 r.2
  unfolding owned_writable
  owned_writable_sound h =
      let (row, got, h1) = bind_passed (owned sha256 id user request body db) _ h in
      let (e, may, h2) = bind_passed (writable_engagement row.0 user db) _ h1 in
      let (_, free, h3) = bind_passed (raise_if (is_managed row.0) conflict) _ h2 in
      let (seen, attempted, (owner, runner, origin, key, token)) = owned_sound got in
      subst
        (λ (r : ScanJob × JobExecution × Engagement).
          IsController sha256 id user request body db r.0 r.1 r.2)
        (ok-injective h3)
        (record {
          seen = seen;
          attempted = attempted;
          owner = owner;
          runner = runner;
          origin = origin;
          key = key;
          token = token;
          may_write = may;
          unmanaged = raise_if-eq_ok _ conflict free;
        })

  owned_complete :
      (job : ScanJob) (x : JobExecution) (e : Engagement)
      → IsController sha256 id user request body db job x e
      → owned sha256 id user request body db ≡ ok (job, x)
  unfolding owned
  owned_complete job x e c =
      let mine = check_owned_complete x (c.owner, c.runner, c.origin, c.key, c.token) in
      rw (c.seen, c.attempted, mine) refl

  pub owned_writable_complete :
      (job : ScanJob) (x : JobExecution) (e : Engagement)
      → IsController sha256 id user request body db job x e
      → owned_writable sha256 id user request body db ≡ ok (job, x, e)
  unfolding owned_writable
  owned_writable_complete job x e c = rw (owned_complete job x e c, c.may_write, c.unmanaged) refl
