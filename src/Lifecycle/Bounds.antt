-- ===== src/Lifecycle/Bounds.antt =====
-- The capacity of engagements: the invariant, and that every call keeps it.
use mathlib.Core.Path.{subst}
use vardr_map.Base.{
  ℕ, ◌≤◌, ◌≡◌, refl, ap, sym, ◌∙◌, Bool, true, false, not, some, List, [], ◌∷◌, arith, ◌==◌,
  Bool-cases, inl, inr, first, select,
}
use vardr_map.Store.{
  Db, Engagement, ScanJob, find_engagement, save_job, save_engagement, write_first, erase_first,
  delete_job_row,
}
use vardr_map.Store.Laws.{first-mem, first-write_first, first-write_other}
use vardr_map.Budget.{reserved}
use vardr_map.Engagements.{cancel_in}
use vardr_map.Lifecycle.Row.{cancel_in-Keeps}
use vardr_map.Lifecycle.Capacity.{
  reserved-save_job, reserved-take, reserved-take_other, reserved-add, reserved-each,
  reserved-select, reserved-deleted,
}
use vardr_map.Lifecycle.Effect.{
  Effect, unchanged, row, claims, adds, rewrites, removes, policy, stops, removes_engagement,
}

-- No engagement with a concurrency limit holds more places than the limit.
pub record WithinCapacity (jobs : List ScanJob) (engagements : List Engagement) : Type 0 where
  pub bound :
      (program : ℕ) (e : Engagement) (limit : ℕ)
      → find_engagement program engagements ≡ some e
      → e.concurrency_limit ≡ some limit
      → reserved jobs program ≤ limit

-- Fewer places taken.
WithinCapacity-mono :
    {jobs jobs' : List ScanJob} {es : List Engagement}
    → ((program : ℕ) → reserved jobs' program ≤ reserved jobs program)
    → WithinCapacity jobs es
    → WithinCapacity jobs' es
WithinCapacity-mono le h = record {
  bound = λ p e limit found c. omega (arith, le p, h.bound p e limit found c);
}

-- Another row for one engagement: only its own bound is to be seen to.
WithinCapacity-save :
    (program : ℕ) (jobs : List ScanJob) (es : List Engagement) (e e' : Engagement)
    → find_engagement program es ≡ some e
    → e'.id ≡ e.id
    → ((p : ℕ) (x : Engagement) (limit : ℕ)
        → (p == program) ≡ false
        → find_engagement p es ≡ some x
        → x.concurrency_limit ≡ some limit
        → reserved jobs p ≤ limit)
    → ((limit : ℕ) → e'.concurrency_limit ≡ some limit → reserved jobs program ≤ limit)
    → WithinCapacity jobs (save_engagement program e' es)
unfolding find_engagement save_engagement
WithinCapacity-save program jobs es e e' found same_id others own = record {
  bound = λ p x limit f c. bound_of p x limit f c;
}
  where
    id_of : (e.id == program) ≡ true
    id_of = (first-mem (λ x. x.id == program) es found).1

    bound_of :
        (p : ℕ) (x : Engagement) (limit : ℕ)
        → first (λ y. y.id == p) (write_first (λ y. y.id == program) e' es) ≡ some x
        → x.concurrency_limit ≡ some limit
        → reserved jobs p ≤ limit
    bound_of p x limit f c = elim (Bool-cases (p == program)) [
      | inl eq ↦
          let is_program : p ≡ program = ground arith in
          let e_ : (e'.id == program) ≡ true = ground (arith, same_id, id_of) in
          let f' =
            subst (λ q. first (λ y. y.id == q) (write_first (λ y. y.id == program) e' es) ≡ some x)
              is_program f in
          let w = first-write_first (λ y. y.id == program) e' e es found e_ in
          let same : e' ≡ x = ground arith in
          subst (λ q. reserved jobs q ≤ limit) (sym is_program)
            (own limit (ap (λ (z : Engagement). z.concurrency_limit) same ∙ c))
      | inr ne ↦
          let e_ : (e'.id == p) ≡ false = ground (arith, same_id, id_of) in
          let w =
            first-write_other (λ y. y.id == p) (λ y. y.id == program) e' es (λ y h. ground arith)
              e_ in
          others p x limit ne (sym w ∙ f) c
    ]

first-erase_other :
    {A : Type 0} (q p : A → Bool) (xs : List A)
    → ((x : A) → p x ≡ true → q x ≡ false)
    → first q (erase_first p xs) ≡ first q xs
first-erase_other q p [] h = refl
first-erase_other q p (x ∷ xs) h = ground (arith, h x, first-erase_other q p xs h)

-- Every call keeps the bound.
pub Effect-WithinCapacity :
    {gone : ScanJob → Bool} {db db' : Db}
    → Effect gone db db'
    → WithinCapacity db.jobs db.engagements
    → WithinCapacity db'.jobs db'.engagements
unfolding find_engagement delete_job_row
Effect-WithinCapacity (unchanged e) h =
    subst (λ (d : Db). WithinCapacity d.jobs d.engagements) (sym e) h
Effect-WithinCapacity {db} (row id j j' found k e) h =
    subst (λ (d : Db). WithinCapacity d.jobs d.engagements) (sym e)
      (WithinCapacity-mono (λ p. reserved-save_job p id db.jobs found k) h)
Effect-WithinCapacity {db} (claims id j j' e e' found got k room same_id limit_ within eq) h =
    subst (λ (d : Db). WithinCapacity d.jobs d.engagements) (sym eq)
      (WithinCapacity-save j.program_id (save_job id j' db.jobs) db.engagements e e' got same_id
        (λ p x limit ne f c.
          let le = reserved-take_other p id db.jobs j' found (ground (arith, k.same_program)) in
          omega (arith, le, h.bound p x limit f c))
        (λ limit c.
          let le = reserved-take j.program_id id db.jobs j' found in
          let r = room limit (sym limit_ ∙ c) in omega arith))
Effect-WithinCapacity {db} (adds new s r e) h =
    subst (λ (d : Db). WithinCapacity d.jobs d.engagements) (sym e)
      (WithinCapacity-mono (λ p. reserved-add p new db.jobs r) h)
Effect-WithinCapacity {db} (rewrites f k e) h =
    subst (λ (d : Db). WithinCapacity d.jobs d.engagements) (sym e)
      (WithinCapacity-mono (λ p. reserved-each p f k db.jobs) h)
Effect-WithinCapacity {db} (removes id g e) h =
    subst (λ (d : Db). WithinCapacity d.jobs d.engagements) (sym e)
      (WithinCapacity-mono (λ p. reserved-select p (λ x. not (x.id == id)) db.jobs) h)
Effect-WithinCapacity {db} (policy program e e' got same_id change within eq) h =
    subst (λ (d : Db). WithinCapacity d.jobs d.engagements) (sym eq)
      (WithinCapacity-save program db.jobs db.engagements e e' got same_id
        (λ p x limit ne f c. h.bound p x limit f c)
        (λ limit c. elim change [
          | inl kept ↦ h.bound program e limit got (sym kept ∙ c)
          | inr idle ↦ omega (arith, idle)
        ]))
Effect-WithinCapacity {db} (stops program e e' got same_id kept within eq) h =
    subst (λ (d : Db). WithinCapacity d.jobs d.engagements) (sym eq)
      (WithinCapacity-mono
        (λ p. reserved-each p (cancel_in program) (cancel_in-Keeps program) db.jobs)
        (WithinCapacity-save program db.jobs db.engagements e e' got same_id
          (λ p x limit ne f c. h.bound p x limit f c)
          (λ limit c. h.bound program e limit got (sym kept ∙ c))))
Effect-WithinCapacity {db} (removes_engagement program g eq) h =
    subst (λ (d : Db). WithinCapacity d.jobs d.engagements) (sym eq)
      (record {
        bound = λ p e limit f c. elim (Bool-cases (p == program)) [
          | inl same_ ↦
              let is_program : p ≡ program = ground arith in
              let z = reserved-deleted program db.jobs in
              subst (λ q. reserved (select (λ j. not (j.program_id == program)) db.jobs) q ≤ limit)
                (sym is_program) (omega (arith, z))
          | inr ne ↦
              let w =
                first-erase_other (λ y. y.id == p) (λ y. y.id == program) db.engagements
                  (λ y h. ground arith) in
              let le = reserved-select p (λ j. not (j.program_id == program)) db.jobs in
              omega (arith, le, h.bound p e limit (sym w ∙ f) c)
        ];
      })
