-- ===== src/Lifecycle/Ready.antt =====
-- backend/routers/jobs.py: which jobs the runner may execute now, and which wait.
use mathlib.Core.Path.{subst}
use mathlib.Core.Bool.{false≢true}
use vardr_map.Base.{
  ℕ, ◌≡◌, inl, inr, refl, ap, Bool, true, false, not, ◌&&◌, Option, none, some, List, [], ◌∷◌, ◌==◌,
  map, any, arith, is_some, ◌∈◌, here, there, mem-append, mem-append_left, mem-append_cases,
  mem-singleton,
}
use vardr_map.Json.{Value}
use vardr_map.Store.{Db, ScanJob, Status, pending, running, done, failed, find_job}
use vardr_map.Access.{CurrentUser, accessible_engagement_ids}
use vardr_map.Jobs.Update.{is_final}
use vardr_map.Jobs.Pending.{
  satisfied, waiting, of_status, of_parent, is_pending, is_satisfied, is_eligible, is_orphan,
  is_gate, stored_spec, dependency_of, oldest_first, Handed,
}

pub mem-oldest : {j : ScanJob} (js : List ScanJob) → j ∈ js → j ∈ oldest_first js
mem-oldest [] m = elim m [ ]
mem-oldest (_ ∷ js) here = mem-append (oldest_first js) here
mem-oldest (j ∷ js) (there m) = mem-append_left (j ∷ []) (mem-oldest js m)

pub oldest-mem : {j : ScanJob} (js : List ScanJob) → j ∈ oldest_first js → j ∈ js
oldest-mem [] m = elim m [ ]
oldest-mem (k ∷ js) m = elim (mem-append_cases (oldest_first js) m) [
  | inl l ↦ there (oldest-mem js l)
  | inr r ↦ subst (λ x. x ∈ k ∷ js) (mem-singleton r) here
]

abbrev pub jobs_of : List Handed → List ScanJob
jobs_of hs = map (λ (h : Handed). h.job) hs

pub jobs_of-handed :
    (f : ScanJob → Option Value) (js : List ScanJob)
    → jobs_of (map (λ job. record { job = job; spec = f job }) js) ≡ js
jobs_of-handed f [] = refl
jobs_of-handed f (j ∷ js) = rw (jobs_of-handed f js) refl

abbrev pub IsAccessible : CurrentUser → Db → ScanJob → Type 0
IsAccessible user db job =
    any (λ p. p == job.program_id) (accessible_engagement_ids user.github_id db) ≡ true

-- What a job that the runner may execute has to be.
pub record IsReady (user : CurrentUser) (db : Db) (job : ScanJob) : Type 0 where
  pub accessible : IsAccessible user db job
  pub unclaimed : job.status ≡ pending
  pub parent_done :
      (id : ℕ)
      → job.depends_on ≡ some id
      → (parent : ScanJob) × (find_job id db.jobs ≡ some parent) × (parent.status ≡ done)
  pub has_case : is_gate job ≡ true → is_some (stored_spec db.test_cases job) ≡ true

-- The job waits on a parent that has not finished.
pub record IsWaiting (db : Db) (job : ScanJob) : Type 0 where
  pub id : ℕ
  pub parent : ScanJob
  pub depends : job.depends_on ≡ some id
  pub found : find_job id db.jobs ≡ some parent
  pub unfinished : is_final parent.status ≡ false

pending-eq : (s : Status) → is_pending s ≡ true → s ≡ pending
pending-eq s h = ground arith

satisfied-done : (s : Status) → is_satisfied (of_status s) ≡ true → s ≡ done
satisfied-done s h = ground arith

-- The verdict on a dependency, in the three ways it comes out.
module _ (jobs : List ScanJob) where
  parent-satisfied :
      (o : Option ScanJob)
      → is_satisfied (of_parent o) ≡ true
      → (parent : ScanJob) × (o ≡ some parent) × (parent.status ≡ done)
  parent-satisfied none h = absurd (false≢true h)
  parent-satisfied (some parent) h = (parent, refl, satisfied-done parent.status h)

  dependency-satisfied :
      (o : Option ℕ)
      → is_satisfied (dependency_of jobs o) ≡ true
      → (id : ℕ) → o ≡ some id
      → (parent : ScanJob) × (find_job id jobs ≡ some parent) × (parent.status ≡ done)
  dependency-satisfied o h id e =
      parent-satisfied (find_job id jobs)
        (subst (λ x. is_satisfied (dependency_of jobs x) ≡ true) e h)

  satisfied-dependency :
      (o : Option ℕ)
      → ((id : ℕ)
          → o ≡ some id
          → (parent : ScanJob) × (find_job id jobs ≡ some parent) × (parent.status ≡ done))
      → is_satisfied (dependency_of jobs o) ≡ true
  satisfied-dependency none h = refl
  satisfied-dependency (some id) h =
      let (parent, found, is_done) = h id refl in
      rw found (ap (λ s. is_satisfied (of_status s)) is_done)

  status-waiting : (s : Status) → of_status s ≡ waiting → is_final s ≡ false
  status-waiting pending h = refl
  status-waiting running h = refl
  status-waiting done h = cc h
  status-waiting failed h = cc h

  pub parent-waiting :
      (o : Option ScanJob)
      → of_parent o ≡ waiting
      → (parent : ScanJob) × (o ≡ some parent) × (is_final parent.status ≡ false)
  parent-waiting none h = cc h
  parent-waiting (some parent) h = (parent, refl, status-waiting parent.status h)

ready-tests :
    (a b c d e : Bool)
    → ((a && b) && c) ≡ true
    → (d && not e) ≡ false
    → (a ≡ true) × (b ≡ true) × (c ≡ true) × (d ≡ true → e ≡ true)
ready-tests a b c d e h k = ground arith

tests-ready :
    (a b c d e : Bool)
    → a ≡ true
    → b ≡ true
    → c ≡ true
    → (d ≡ true → e ≡ true)
    → (((a && b) && c) ≡ true) × ((d && not e) ≡ false)
tests-ready a b c d e h k l m = ground arith

pub satisfied-ne-waiting : satisfied ≡ waiting → ⊥
satisfied-ne-waiting h = cc h

module _ (user : CurrentUser) (db : Db) where
  pub eligible-IsReady :
      (job : ScanJob)
      → is_eligible (accessible_engagement_ids user.github_id db) db.jobs job ≡ true
      → is_orphan db.test_cases job ≡ false
      → IsReady user db job
  eligible-IsReady job h k =
      let (a, p, d, c) =
        ready-tests (any (λ p. p == job.program_id) (accessible_engagement_ids user.github_id db))
          (is_pending job.status) (is_satisfied (dependency_of db.jobs job.depends_on))
          (is_gate job) (is_some (stored_spec db.test_cases job)) h k in
      record {
        accessible = a;
        unclaimed = pending-eq job.status p;
        parent_done = dependency-satisfied db.jobs job.depends_on d;
        has_case = c;
      }

  pub IsReady-eligible :
      (job : ScanJob)
      → IsReady user db job
      → (is_eligible (accessible_engagement_ids user.github_id db) db.jobs job ≡ true)
        × (is_orphan db.test_cases job ≡ false)
  IsReady-eligible job h =
      tests-ready (any (λ p. p == job.program_id) (accessible_engagement_ids user.github_id db))
        (is_pending job.status) (is_satisfied (dependency_of db.jobs job.depends_on)) (is_gate job)
        (is_some (stored_spec db.test_cases job)) h.accessible (ap is_pending h.unclaimed)
        (satisfied-dependency db.jobs job.depends_on h.parent_done) h.has_case
