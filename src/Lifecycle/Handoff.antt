-- ===== src/Lifecycle/Handoff.antt =====
-- backend/routers/jobs.py: which jobs `get_pending_jobs` hands out, and which it fails.
use mathlib.Core.Path.{subst}
use mathlib.Core.Bool.{false≢true}
use vardr_map.Base.{
  ℕ, ◌≡◌, ◌↔◌, ◌⊎◌, inl, inr, refl, ap, sym, ◌∙◌, Bool, true, false, not, select, arith, ◌∈◌,
  mem-select, select-mem, map-mem, Bool-cases, Option-cases,
}
use vardr_map.Text.{Text}
use vardr_map.Store.{Db, ScanJob, pending, failed, find_job}
use vardr_map.Access.{CurrentUser, accessible_engagement_ids}
use vardr_map.Jobs.Pending.{
  Dependency, satisfied, waiting, broken, is_pending, is_queried, is_satisfied, is_eligible,
  is_orphan, dependency_of, break_job, fail_job, settle_dependency, settle_case, oldest_first,
  handed_spec, get_pending_jobs,
}
use vardr_map.Lifecycle.Ready.{
  IsAccessible, IsReady, IsReady-eligible, IsWaiting, eligible-IsReady, jobs_of, jobs_of-handed,
  mem-oldest, oldest-mem, parent-waiting, satisfied-ne-waiting,
}

module _ (user : CurrentUser) (db : Db) where
  -- `GET /jobs/pending` hands out exactly the jobs of the table that are pending, in an engagement
  -- that the caller may see, with their parent, if they have one, done, and, for a job of the Gate,
  -- with its stored case still there.
  pub get_pending_jobs-IsReady_iff :
      (now : ℕ) (job : ScanJob)
      → (job ∈ jobs_of (get_pending_jobs now user db).0) ↔ ((job ∈ db.jobs) × IsReady user db job)
  unfolding get_pending_jobs
  get_pending_jobs-IsReady_iff now job =
      let eligible = is_eligible (accessible_engagement_ids user.github_id db) db.jobs in
      let kept : ScanJob → Bool = λ j. not (is_orphan db.test_cases j) in
      let queue = oldest_first db.jobs in
      let same = jobs_of-handed (handed_spec db.test_cases) (select kept (select eligible queue)) in
      (
        λ m.
            let (m1, k) = select-mem kept (select eligible queue) (subst (λ l. job ∈ l) same m) in
            let (m2, e) = select-mem eligible queue m1 in
            (oldest-mem db.jobs m2, eligible-IsReady user db job e (ground (arith, k))),
        λ (m, r).
            let (e, o) = IsReady-eligible user db job r in
            subst (λ l. job ∈ l) (sym same)
              (mem-select kept (select eligible queue) (ap not o)
                (mem-select eligible queue e (mem-oldest db.jobs m))),
      )

  abbrev IsSettled : ScanJob → Type 0
  IsSettled job = (job ∈ db.jobs) × (IsReady user db job ⊎ IsWaiting db job)

  waiting-IsWaiting :
      (job : ScanJob) → dependency_of db.jobs job.depends_on ≡ waiting → IsWaiting db job
  waiting-IsWaiting job e = elim (Option-cases job.depends_on) [
    | inl n ↦ absurd (satisfied-ne-waiting (sym (ap (dependency_of db.jobs) n) ∙ e))
    | inr (id, s) ↦
        let (parent, found, open_) =
          parent-waiting db.jobs (find_job id db.jobs) (sym (ap (dependency_of db.jobs) s) ∙ e) in
        record { id = id; parent = parent; depends = s; found = found; unfinished = open_ }
  ]

  -- What may not run is left alone by the second loop.
  ineligible-kept :
      (now : ℕ) (job : ScanJob)
      → is_eligible (accessible_engagement_ids user.github_id db) db.jobs job ≡ false
      → settle_case now (accessible_engagement_ids user.github_id db) db.jobs db.test_cases job
        ≡ job
  ineligible-kept now job h = rw h refl

  failed-ineligible :
      (now : ℕ) (message : Text) (job : ScanJob)
      → is_eligible (accessible_engagement_ids user.github_id db) db.jobs (fail_job now message job)
        ≡ false
  failed-ineligible now message job = ground arith

  failed-not_pending :
      {A : Type 0} (job : ScanJob) → job.status ≡ failed → is_pending job.status ≡ true → A
  failed-not_pending job f p = absurd (false≢true (sym (ap is_pending f) ∙ p))

  module _ (now : ℕ) (job k : ScanJob) (m : k ∈ db.jobs)
      (p : is_queried (accessible_engagement_ids user.github_id db) job ≡ true) where
    pending_of : is_pending job.status ≡ true
    pending_of = ground arith

    -- The row that the second loop leaves.
    case-IsSettled :
        (settle_case now (accessible_engagement_ids user.github_id db) db.jobs db.test_cases k
          ≡ job)
        → is_satisfied (dependency_of db.jobs k.depends_on) ≡ true
        → is_queried (accessible_engagement_ids user.github_id db) k ≡ true
        → IsSettled job
    case-IsSettled e s q =
        let eligible : is_eligible (accessible_engagement_ids user.github_id db) db.jobs k ≡ true =
          ground arith in
        elim (Bool-cases (is_orphan db.test_cases k)) [
          | inl o ↦
              failed-not_pending job (ap (λ (j : ScanJob). j.status) (sym (rw (eligible, o) at e)))
                pending_of
          | inr o ↦
              let same : k ≡ job = rw (eligible, o) at e in
              subst IsSettled same (m, inl (eligible-IsReady user db k eligible o))
        ]

    by_dependency :
        (d : Dependency)
        → dependency_of db.jobs k.depends_on ≡ d
        → is_queried (accessible_engagement_ids user.github_id db) k ≡ true
        → settle_case now
            (accessible_engagement_ids user.github_id db)
            db.jobs
            db.test_cases
            (break_job now d k)
          ≡ job
        → IsSettled job
    by_dependency satisfied e q h = case-IsSettled h (ap is_satisfied e) q
    by_dependency (broken message) e q h =
        failed-not_pending job
          (ap (λ (j : ScanJob). j.status) (sym h)
            ∙ ap (λ (j : ScanJob). j.status)
                (ineligible-kept now _ (failed-ineligible now message k)))
          pending_of
    by_dependency waiting e q h =
        let same : k ≡ job = sym (ineligible-kept now k (ground (arith, ap is_satisfied e))) ∙ h in
        subst IsSettled same (m, inr (waiting-IsWaiting k e))

    row-IsSettled :
        settle_case now
            (accessible_engagement_ids user.github_id db)
            db.jobs
            db.test_cases
            (settle_dependency now (accessible_engagement_ids user.github_id db) db.jobs k)
          ≡ job
        → IsSettled job
    row-IsSettled h =
        elim (Bool-cases (is_queried (accessible_engagement_ids user.github_id db) k)) [
          | inl q ↦ by_dependency (dependency_of db.jobs k.depends_on) refl q (rw q at h)
          | inr q ↦
              let same : k ≡ job = sym (ineligible-kept now k (ground arith)) ∙ (rw q at h) in
              absurd (
                false≢true (
                  sym (
                    subst (λ j. is_queried (accessible_engagement_ids user.github_id db) j ≡ false)
                      same q)
                  ∙ p))
        ]

  -- After a call of `GET /jobs/pending` every pending job in an engagement that the caller may see
  -- was in the table before, and it is one of those handed out or it depends on a job that was
  -- pending or running in the table as the call found it.
  pub get_pending_jobs-settled :
      (now : ℕ) (job : ScanJob)
      → job ∈ (get_pending_jobs now user db).1.jobs
      → job.status ≡ pending
      → IsAccessible user db job
      → (job ∈ db.jobs) × ((job ∈ jobs_of (get_pending_jobs now user db).0) ⊎ IsWaiting db job)
  unfolding get_pending_jobs
  get_pending_jobs-settled now job m s a =
      let programs = accessible_engagement_ids user.github_id db in
      let (k, n, e) =
        map-mem
          (λ j.
            settle_case now programs db.jobs db.test_cases
              (settle_dependency now programs db.jobs j))
          db.jobs m in
      let p : is_queried programs job ≡ true = ground (arith, ap is_pending s) in
      let (here_, how) = row-IsSettled now job k n p e in
      (
        here_,
        elim how [
          | inl r ↦ inl ((get_pending_jobs-IsReady_iff now job).1 (here_, r))
          | inr w ↦ inr w
        ],
      )
