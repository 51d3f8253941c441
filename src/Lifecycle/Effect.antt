-- ===== src/Lifecycle/Effect.antt =====
-- What one call does to the whole database, and the capacity invariant that it keeps.
use mathlib.Core.Path.{subst}
use vardr_map.Base.{
  ℕ, suc, ◌≤◌, ◌≡◌, ap, sym, ◌∙◌, Bool, false, not, some, List, [], ◌∷◌, ◌++◌, ◌==◌, map,
  Bool-cases, ◌⊎◌, inl, inr, All, select, at-All,
}
use vardr_map.Store.{
  Db, Engagement, ScanJob, find_job, find_engagement, save_job, save_engagement, erase_first,
  delete_job_row,
}
use vardr_map.Store.Laws.{first-mem, All-write_first}
use vardr_map.Budget.{reserved, reserves}
use vardr_map.Engagements.{cancel_in, without_engagement}
use vardr_map.Lifecycle.Row.{Keeps, IsSound, cancel_in-Keeps}
use vardr_map.Lifecycle.Table.{Takes, Change, same, write, take, add, drop, each}

-- What an engagement has charged and allocated stays within its limits.
pub record Within (e : Engagement) : Type 0 where
  pub targets : (limit : ℕ) → e.target_limit ≡ some limit → e.targets_spent ≤ limit
  pub duration : (limit : ℕ) → e.duration_limit ≡ some limit → e.duration_allocated ≤ limit

pub data Effect (gone : ScanJob → Bool) (db db' : Db) : Type 0 where
  unchanged : db' ≡ db → Effect gone db db'
  row :
      (id : ℕ) (j j' : ScanJob)
      → find_job id db.jobs ≡ some j
      → Keeps j j'
      → db' ≡ record db { jobs = save_job id j' db.jobs }
      → Effect gone db db'
  claims :
      (id : ℕ) (j j' : ScanJob) (e e' : Engagement)
      → find_job id db.jobs ≡ some j
      → find_engagement j.program_id db.engagements ≡ some e
      → Takes j j'
      → ((limit : ℕ)
          → e.concurrency_limit ≡ some limit
          → suc (reserved db.jobs j.program_id) ≤ limit)
      → e'.id ≡ e.id
      → e'.concurrency_limit ≡ e.concurrency_limit
      → (Within e → Within e')
      → db' ≡ record db {
        jobs = save_job id j' db.jobs;
        engagements = save_engagement j.program_id e' db.engagements;
      }
      → Effect gone db db'
  adds :
      (new : List ScanJob)
      → All IsSound new
      → All (λ j. reserves j.execution ≡ false) new
      → db' ≡ record db { jobs = new ++ db.jobs }
      → Effect gone db db'
  rewrites :
      (f : ScanJob → ScanJob)
      → ((j : ScanJob) → Keeps j (f j))
      → db' ≡ record db { jobs = map f db.jobs }
      → Effect gone db db'
  removes :
      (id : ℕ)
      → gone ≡ (λ j. j.id == id)
      → db' ≡ record db { jobs = delete_job_row id db.jobs }
      → Effect gone db db'
  policy :
      (program : ℕ) (e e' : Engagement)
      → find_engagement program db.engagements ≡ some e
      → e'.id ≡ e.id
      → ((e'.concurrency_limit ≡ e.concurrency_limit) ⊎ (reserved db.jobs program ≡ 0))
      → (Within e → Within e')
      → db' ≡ record db { engagements = save_engagement program e' db.engagements }
      → Effect gone db db'
  stops :
      (program : ℕ) (e e' : Engagement)
      → find_engagement program db.engagements ≡ some e
      → e'.id ≡ e.id
      → e'.concurrency_limit ≡ e.concurrency_limit
      → (Within e → Within e')
      → db' ≡ record db {
        engagements = save_engagement program e' db.engagements;
        jobs = map (cancel_in program) db.jobs;
      }
      → Effect gone db db'
  removes_engagement :
      (program : ℕ)
      → gone ≡ (λ j. j.program_id == program)
      → db' ≡ without_engagement program db
      → Effect gone db db'

pub Effect-Change :
    {gone : ScanJob → Bool} {db db' : Db} → Effect gone db db' → Change gone db.jobs db'.jobs
unfolding delete_job_row
Effect-Change (unchanged e) = same (ap (λ (d : Db). d.jobs) e)
Effect-Change (row id j j' found k e) = write id j j' found k (ap (λ (d : Db). d.jobs) e)
Effect-Change (claims id j j' _ _ found _ k _ _ _ _ e) =
    take id j j' found k (ap (λ (d : Db). d.jobs) e)
Effect-Change (rewrites f k e) = each f k (ap (λ (d : Db). d.jobs) e)
Effect-Change (adds new s r e) = add new s (ap (λ (d : Db). d.jobs) e)
Effect-Change {db} (removes id g e) =
    drop (ap (λ (d : Db). d.jobs) e ∙ ap (λ k. select (λ j. not (k j)) db.jobs) (sym g))
Effect-Change (policy _ _ _ _ _ _ _ e) = same (ap (λ (d : Db). d.jobs) e)
Effect-Change (stops program _ _ _ _ _ _ e) =
    each (cancel_in program) (cancel_in-Keeps program) (ap (λ (d : Db). d.jobs) e)
Effect-Change {db} (removes_engagement _ g e) =
    drop (ap (λ (d : Db). d.jobs) e ∙ ap (λ k. select (λ j. not (k j)) db.jobs) (sym g))

All-erase_first :
    {A : Type 0} (P : A → Type 0) (p : A → Bool) (xs : List A) → All P xs → All P (erase_first p xs)
All-erase_first P p [] h = tt
All-erase_first P p (x ∷ xs) h = elim (Bool-cases (p x)) [
  | inl e ↦ rw e h.1
  | inr e ↦ rw e (h.0, All-erase_first P p xs h.1)
]

-- Every call keeps all charges within their limits.
pub Effect-Within :
    {gone : ScanJob → Bool} {db db' : Db}
    → Effect gone db db'
    → All Within db.engagements
    → All Within db'.engagements
unfolding find_engagement save_engagement
Effect-Within (unchanged e) h = subst (λ (d : Db). All Within d.engagements) (sym e) h
Effect-Within (row _ _ _ _ _ e) h = subst (λ (d : Db). All Within d.engagements) (sym e) h
Effect-Within (adds _ _ _ e) h = subst (λ (d : Db). All Within d.engagements) (sym e) h
Effect-Within (rewrites _ _ e) h = subst (λ (d : Db). All Within d.engagements) (sym e) h
Effect-Within (removes _ _ e) h = subst (λ (d : Db). All Within d.engagements) (sym e) h
Effect-Within {db} (claims _ j _ x x' _ got _ _ _ _ within e) h =
    let m = (first-mem (λ y. y.id == j.program_id) db.engagements got).0 in
    subst (λ (d : Db). All Within d.engagements) (sym e)
      (All-write_first Within _ x' db.engagements (within (at-All Within m h)) h)
Effect-Within {db} (policy program x x' got _ _ within e) h =
    let m = (first-mem (λ y. y.id == program) db.engagements got).0 in
    subst (λ (d : Db). All Within d.engagements) (sym e)
      (All-write_first Within _ x' db.engagements (within (at-All Within m h)) h)
Effect-Within {db} (stops program x x' got _ _ within e) h =
    let m = (first-mem (λ y. y.id == program) db.engagements got).0 in
    subst (λ (d : Db). All Within d.engagements) (sym e)
      (All-write_first Within _ x' db.engagements (within (at-All Within m h)) h)
Effect-Within {db} (removes_engagement program _ e) h =
    subst (λ (d : Db). All Within d.engagements) (sym e) (All-erase_first Within _ db.engagements h)
