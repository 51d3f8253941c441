-- ===== src/Lifecycle/Policies.antt =====
-- Each call of routers/engagements.py as an effect on the database.
use mathlib.Core.Path.{subst}
use vardr_map.Base.{
  ℕ, ◌≤◌, ◌≡◌, refl, ap, ◌∙◌, Bool, false, ◌&&◌, ◌||◌, Option, some, arith, ◌==◌, ltb, any,
  if◌then◌else◌, inl, inr, is_some,
}
use vardr_map.Store.{
  Db, Engagement, ScanJob, find_engagement, conflict, ok, raise_if, ok-injective, bind_passed,
}
use vardr_map.Access.{
  CurrentUser, require_full_scope, require_member_write, require_engagement_owner,
  get_engagement_or_404,
}
use vardr_map.Budget.{reserved, require_idle, is_running}
use vardr_map.Engagements.{
  engage_stop_work, release_stop_work, idle_engagement, falls_short, configure_concurrency,
  configure_targets, configure_duration, delete_engagement,
}
use vardr_map.Lifecycle.Effect.{Effect, unchanged, policy, stops, removes_engagement}
use vardr_map.Lifecycle.Inversion.{transaction-cases, raise_if-eq_ok, get_engagement-found}

pub engage_stop_work-Effect :
    {gone : ScanJob → Bool} (program now : ℕ) (user : CurrentUser) (db : Db)
    → Effect gone db (engage_stop_work program now user db).1
unfolding engage_stop_work
engage_stop_work-Effect {gone} program now user db =
    transaction-cases (Effect gone db) db _ (unchanged refl) λ a h.
      let (e, got, h1) = bind_passed (get_engagement_or_404 program user db) _ h in
      let (_, _, h2) = bind_passed (require_member_write e user db) _ h1 in
      subst (λ (r : Engagement × Db). Effect gone db r.1) (ok-injective h2)
        (stops program e _ (get_engagement-found program user db got) refl refl
          (λ w. record { targets = w.targets; duration = w.duration }) refl)

pub release_stop_work-Effect :
    {gone : ScanJob → Bool} (program : ℕ) (user : CurrentUser) (db : Db)
    → Effect gone db (release_stop_work program user db).1
unfolding release_stop_work
release_stop_work-Effect {gone} program user db =
    transaction-cases (Effect gone db) db _ (unchanged refl) λ a h.
      let (e, got, h1) = bind_passed (get_engagement_or_404 program user db) _ h in
      let (_, _, h2) = bind_passed (require_engagement_owner e user) _ h1 in
      subst (λ (r : Engagement × Db). Effect gone db r.1) (ok-injective h2)
        (policy program e _ (get_engagement-found program user db got) refl (inl refl)
          (λ w. record { targets = w.targets; duration = w.duration }) refl)

-- What the policies' shared checks have found: the engagement, with no place taken.
idle-found :
    (program : ℕ) (user : CurrentUser) (db : Db) {e : Engagement}
    → idle_engagement program user db ≡ ok e
    → (find_engagement program db.engagements ≡ some e) × (reserved db.jobs program ≡ 0)
unfolding idle_engagement require_idle
idle-found program user db {e} h =
    let (_, _, h1) = bind_passed (require_full_scope user) _ h in
    let (x, got, h2) = bind_passed (get_engagement_or_404 program user db) _ h1 in
    let (_, _, h3) = bind_passed (require_engagement_owner x user) _ h2 in
    let (_, idle, h4) = bind_passed (require_idle db.jobs program) _ h3 in
    let none_ =
      raise_if-eq_ok
        (ltb 0 (reserved db.jobs program)
          || any (λ j. (j.program_id == program) && is_running j.status) db.jobs)
        conflict idle in
    (get_engagement-found program user db got ∙ ap (λ z. some z) (ok-injective h4), ground arith)

pub configure_concurrency-Effect :
    {gone : ScanJob → Bool} (program : ℕ) (limit : Option ℕ) (user : CurrentUser) (db : Db)
    → Effect gone db (configure_concurrency program limit user db).1
unfolding configure_concurrency
configure_concurrency-Effect {gone} program limit user db =
    transaction-cases (Effect gone db) db _ (unchanged refl) λ a h.
      let (e, got, h1) = bind_passed (idle_engagement program user db) _ h in
      let (found, idle) = idle-found program user db got in
      subst (λ (r : Engagement × Db). Effect gone db r.1) (ok-injective h1)
        (policy program e _ found refl (inr idle)
          (λ w. record { targets = w.targets; duration = w.duration }) refl)

-- A new limit that what is used does not pass.
falls_short-le :
    (limit : Option ℕ) (used n : ℕ) → falls_short limit used ≡ false → limit ≡ some n → used ≤ n
falls_short-le limit used n h k = let h' = rw k at h in ground arith

pub configure_targets-Effect :
    {gone : ScanJob → Bool} (program : ℕ) (limit : Option ℕ) (user : CurrentUser) (db : Db)
    → Effect gone db (configure_targets program limit user db).1
unfolding configure_targets
configure_targets-Effect {gone} program limit user db =
    transaction-cases (Effect gone db) db _ (unchanged refl) λ a h.
      let (e, got, h1) = bind_passed (idle_engagement program user db) _ h in
      let (_, room, h2) =
        bind_passed (raise_if (falls_short limit e.targets_spent) conflict) _ h1 in
      let (found, idle) = idle-found program user db got in
      subst (λ (r : Engagement × Db). Effect gone db r.1) (ok-injective h2)
        (policy program e _ found refl (inl refl)
          (λ w. record {
            targets =
                λ n k. falls_short-le limit e.targets_spent n (raise_if-eq_ok _ conflict room) k;
            duration = w.duration;
          })
          refl)

pub configure_duration-Effect :
    {gone : ScanJob → Bool} (program : ℕ) (limit : Option ℕ) (user : CurrentUser) (db : Db)
    → Effect gone db (configure_duration program limit user db).1
unfolding configure_duration
configure_duration-Effect {gone} program limit user db =
    transaction-cases (Effect gone db) db _ (unchanged refl) λ a h.
      let (e, got, h1) = bind_passed (idle_engagement program user db) _ h in
      let (_, room, h2) =
        bind_passed (raise_if (falls_short limit e.duration_allocated) conflict) _ h1 in
      let (found, idle) = idle-found program user db got in
      subst (λ (r : Engagement × Db). Effect gone db r.1) (ok-injective h2)
        (policy program e _ found refl (inl refl)
          (λ w. record {
            targets = w.targets;
            duration = λ n k.
                falls_short-le limit e.duration_allocated n (raise_if-eq_ok _ conflict room) k;
          })
          refl)

pub delete_engagement-Effect :
    (program : ℕ) (user : CurrentUser) (db : Db)
    → Effect (λ j. j.program_id == program) db (delete_engagement program user db).1
unfolding delete_engagement
delete_engagement-Effect program user db =
    transaction-cases (Effect (λ j. j.program_id == program) db) db _ (unchanged refl) λ a h.
      let (e, got, h1) = bind_passed (get_engagement_or_404 program user db) _ h in
      let (_, _, h2) = bind_passed (require_engagement_owner e user) _ h1 in
      let (_, _, h3) =
        bind_passed
          (if is_some e.concurrency_limit || ltb 0 (reserved db.jobs program)
            then require_idle db.jobs program
            else ok tt)
          _ h2 in
      let (_, _, h4) = bind_passed (raise_if (ltb 0 e.targets_spent) conflict) _ h3 in
      let (_, _, h5) = bind_passed (raise_if (ltb 0 e.duration_allocated) conflict) _ h4 in
      subst (λ (r : Unit {0} × Db). Effect (λ j. j.program_id == program) db r.1) (ok-injective h5)
        (removes_engagement program refl refl)
