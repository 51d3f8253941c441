-- ===== src/Lifecycle/Inversion.antt =====
-- What a successful call has read: the rows that its checks found.
use vardr_map.Base.{ℕ, ◌≡◌, ap, ◌∙◌, not, Option, none, some, List, arith, is_some}
use vardr_map.Store.{
  Db, Engagement, ScanJob, find_job, find_engagement, not_found, ok, raise_if, or_raise,
  ok-injective, bind_passed,
}
pub use vardr_map.Store.Laws.{transaction-cases, raise_if-eq_ok, or_raise-eq_ok}
use vardr_map.Access.{
  CurrentUser, require_member_write, get_engagement_or_404, accessible_engagement_ids,
  engagement_access,
}
use vardr_map.Execution.{accessible_job, if_accessible}
use vardr_map.Jobs.Update.{writable_engagement}

if_accessible-eq_some :
    (ids : List ℕ) (o : Option ScanJob) {j : ScanJob} → if_accessible ids o ≡ some j → o ≡ some j
if_accessible-eq_some ids none h = h
if_accessible-eq_some ids (some x) h = ground arith

pub accessible_job-found :
    (id : ℕ) (user : CurrentUser) (db : Db) {j : ScanJob}
    → or_raise (accessible_job id user db) not_found ≡ ok j
    → find_job id db.jobs ≡ some j
unfolding accessible_job
accessible_job-found id user db h =
    if_accessible-eq_some (accessible_engagement_ids user.github_id db) _
      (or_raise-eq_ok _ not_found h)

pub get_engagement-found :
    (program : ℕ) (user : CurrentUser) (db : Db) {e : Engagement}
    → get_engagement_or_404 program user db ≡ ok e
    → find_engagement program db.engagements ≡ some e
unfolding get_engagement_or_404
get_engagement-found program user db {e} h =
    let (e', found, h') =
      bind_passed (or_raise (find_engagement program db.engagements) not_found) _ h in
    let (_, _, same) =
      bind_passed (raise_if (not (is_some (engagement_access e' user.github_id db))) not_found) _
        h' in
    or_raise-eq_ok _ not_found found ∙ ap (λ z. some z) (ok-injective same)

pub writable_engagement-found :
    (job : ScanJob) (user : CurrentUser) (db : Db) {e : Engagement}
    → writable_engagement job user db ≡ ok e
    → find_engagement job.program_id db.engagements ≡ some e
unfolding writable_engagement
writable_engagement-found job user db h =
    let (e', got, h') = bind_passed (get_engagement_or_404 job.program_id user db) _ h in
    let (_, _, same) = bind_passed (require_member_write e' user db) _ h' in
    get_engagement-found job.program_id user db got ∙ ap (λ z. some z) (ok-injective same)
