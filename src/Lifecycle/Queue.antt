-- ===== src/Lifecycle/Queue.antt =====
-- Pipelines and the hand-off of routers/jobs.py as effects on the database.
use mathlib.Core.Path.{subst}
use mathlib.Core.Bool.{false≢true}
use vardr_map.Base.{
  ℕ, suc, ◌≡◌, refl, ap, sym, ◌∙◌, Bool, true, false, not, ◌&&◌, ◌||◌, Option, none, some, List, [],
  ◌∷◌, All, All-append, arith, any, length, leb, Bool-cases, inl, inr,
}
use vardr_map.Text.{Text}
use vardr_map.Json.{Value, Fields}
use vardr_map.Store.{
  Db, ScanJob, JobExecution, AuthorizationTestCase, Status, failed, bad_request, unprocessable,
  raise_if, ok-injective, bind_passed,
}
use vardr_map.Access.{
  CurrentUser, get_engagement_or_404, require_member_write, accessible_engagement_ids,
}
use vardr_map.Budget.{reserves}
use vardr_map.Jobs.Update.{is_final}
use vardr_map.Jobs.Pending.{
  Dependency, satisfied, waiting, broken, is_pending, is_queried, is_eligible, is_orphan,
  orphan_message, dependency_of, fail_job, break_job, settle_dependency, settle_case, oldest_first,
  get_pending_jobs,
}
use vardr_map.Jobs.Pipeline.{
  PipelineStage, PipelineCreate, validate_stages, stage_jobs, create_pipeline,
}
use vardr_map.Lifecycle.Row.{Sound, IsSound, Keeps, Keeps-refl}
use vardr_map.Lifecycle.Effect.{Effect, unchanged, rewrites, adds}
use vardr_map.Lifecycle.Inversion.{transaction-cases}

Keeps-trans : {a b c : ScanJob} → Keeps a b → Keeps b c → Keeps a c
Keeps-trans {a} {b} {c} k l = record {
  same_id = l.same_id ∙ k.same_id;
  same_program = l.same_program ∙ k.same_program;
  sound = λ h. l.sound (k.sound h);
  final = λ h f.
      let same = k.final h f in
      l.final (k.sound h) (ap (λ (j : ScanJob). is_final j.status) same ∙ f) ∙ same;
  holds = λ h. k.holds (l.holds h);
}

pending-not_final : (s : Status) → is_pending s ≡ true → is_final s ≡ false
pending-not_final s h = ground arith

-- A job that is pending has no attempt, so it may be failed.
fail_job-Keeps :
    (now : ℕ) (message : Text) (j : ScanJob)
    → is_pending j.status ≡ true
    → Keeps j (fail_job now message j)
fail_job-Keeps now message j p = record {
  same_id = refl;
  same_program = refl;
  sound = sound_of j.execution;
  final = λ _ f. absurd (false≢true (sym (pending-not_final j.status p) ∙ f));
  holds = λ h. h;
}
  where
    sound_of : (o : Option JobExecution) → Sound o j.status → Sound o failed
    sound_of none h = tt
    sound_of (some x) (_, claimed, _) = absurd (false≢true (sym claimed ∙ p))

queried-pending :
    (programs : List ℕ) (j : ScanJob) → is_queried programs j ≡ true → is_pending j.status ≡ true
queried-pending programs j h = ground arith

break_job-Keeps :
    (now : ℕ) (d : Dependency) (j : ScanJob)
    → is_pending j.status ≡ true
    → Keeps j (break_job now d j)
break_job-Keeps now satisfied j p = Keeps-refl j
break_job-Keeps now waiting j p = Keeps-refl j
break_job-Keeps now (broken message) j p = fail_job-Keeps now message j p

settle_dependency-Keeps :
    (now : ℕ) (programs : List ℕ) (jobs : List ScanJob) (j : ScanJob)
    → Keeps j (settle_dependency now programs jobs j)
settle_dependency-Keeps now programs jobs j = elim (Bool-cases (is_queried programs j)) [
  | inl e ↦
      rw e (break_job-Keeps now (dependency_of jobs j.depends_on) j (queried-pending programs j e))
  | inr e ↦ rw e (Keeps-refl j)
]

settle_case-Keeps :
    (now : ℕ) (programs : List ℕ) (jobs : List ScanJob) (cases : List AuthorizationTestCase)
    (j : ScanJob)
    → Keeps j (settle_case now programs jobs cases j)
settle_case-Keeps now programs jobs cases j =
    elim (Bool-cases (is_eligible programs jobs j && is_orphan cases j)) [
      | inl e ↦
          rw e (fail_job-Keeps now (orphan_message j) j (queried-pending programs j (ground arith)))
      | inr e ↦ rw e (Keeps-refl j)
    ]

pub get_pending_jobs-Effect :
    {gone : ScanJob → Bool} (now : ℕ) (user : CurrentUser) (db : Db)
    → Effect gone db (get_pending_jobs now user db).1
unfolding get_pending_jobs
get_pending_jobs-Effect now user db =
    let programs = accessible_engagement_ids user.github_id db in
    rewrites
      (λ j.
        settle_case now programs db.jobs db.test_cases (settle_dependency now programs db.jobs j))
      (λ j. Keeps-trans (settle_dependency-Keeps now programs db.jobs j) (
        settle_case-Keeps now programs db.jobs db.test_cases
          (settle_dependency now programs db.jobs j)))
      refl

module _ (P : ScanJob → Type 0) where
  All-oldest_first : (js : List ScanJob) → All P js → All P (oldest_first js)
  All-oldest_first [] h = tt
  All-oldest_first (j ∷ js) h =
      All-append P (oldest_first js) (j ∷ []) (All-oldest_first js h.1) (h.0, tt)

stage_jobs-free :
    (repr : Value → Text) (ids : ℕ → ℕ) (n program : ℕ) (previous : Option ℕ)
    (stages : List (PipelineStage × Fields))
    → All
        (λ j. IsSound j × (reserves j.execution ≡ false))
        (stage_jobs repr ids n program previous stages)
unfolding stage_jobs
stage_jobs-free repr ids n program previous [] = tt
stage_jobs-free repr ids n program previous ((stage, config) ∷ stages) =
    ((tt, refl), stage_jobs-free repr ids (suc n) program (some (ids n)) stages)

module _ {A : Type 0} (P Q : A → Type 0) where
  All-left : (xs : List A) → All (λ x. P x × Q x) xs → All P xs
  All-left [] h = tt
  All-left (x ∷ xs) h = (h.0.0, All-left xs h.1)

  All-right : (xs : List A) → All (λ x. P x × Q x) xs → All Q xs
  All-right [] h = tt
  All-right (x ∷ xs) h = (h.0.1, All-right xs h.1)

pub create_pipeline-Effect :
    {gone : ScanJob → Bool} (repr : Value → Text) (program : ℕ) (ids : ℕ → ℕ)
    (body : PipelineCreate) (user : CurrentUser) (db : Db)
    → Effect gone db (create_pipeline repr program ids body user db).1
unfolding create_pipeline
create_pipeline-Effect {gone} repr program ids body user db =
    transaction-cases (Effect gone db) db _ (unchanged refl) λ a h.
      let (_, _, h1) =
        bind_passed
          (raise_if (not (leb 1 (length body.stages) && leb (length body.stages) 8)) unprocessable)
          _ h in
      let (e, _, h2) = bind_passed (get_engagement_or_404 program user db) _ h1 in
      let (_, _, h3) = bind_passed (require_member_write e user db) _ h2 in
      let (_, _, h4) =
        bind_passed
          (raise_if
            (body.authorization_contract_required
              || any (λ stage. stage.authorization_contract_required) body.stages)
            bad_request)
          _ h3 in
      let (configs, _, h5) =
        bind_passed (validate_stages repr program e.max_request_rate db body.stages) _ h4 in
      let created = stage_jobs repr ids 0 program none configs in
      let free =
        All-oldest_first (λ j. IsSound j × (reserves j.execution ≡ false)) created
          (stage_jobs-free repr ids 0 program none configs) in
      subst (λ (r : List ScanJob × Db). Effect gone db r.1) (ok-injective h5)
        (adds (oldest_first created)
          (All-left IsSound (λ j. reserves j.execution ≡ false) (oldest_first created) free)
          (All-right IsSound (λ j. reserves j.execution ≡ false) (oldest_first created) free) refl)
