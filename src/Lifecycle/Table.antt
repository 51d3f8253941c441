-- ===== src/Lifecycle/Table.antt =====
-- What one call does to the table `scan_jobs`, and what every such change keeps.
use mathlib.Core.Path.{subst}
use mathlib.Core.Bool.{false≢true}
use vardr_map.Base.{
  ℕ, ◌≡◌, ap, sym, ◌∙◌, Bool, true, false, not, some, List, [], ◌∷◌, ◌++◌, arith, ◌==◌, map,
  Bool-cases, inl, inr, All, ◌∈◌, here, there, mem-select, mem-append, mem-map_fixed, All-select,
  All-append, first, select, at-All,
}
use vardr_map.Store.{ScanJob, find_job, save_job, write_first}
use vardr_map.Store.Laws.{first-mem, All-write_first}
use vardr_map.Jobs.Update.{is_final}
use vardr_map.Lifecycle.Row.{IsSound, Keeps}

-- A claim: a row that was not finished is replaced by a sound one of the same job.
pub record Takes (j j' : ScanJob) : Type 0 where
  pub same_program : j'.program_id ≡ j.program_id
  pub open_before : is_final j.status ≡ false
  pub sound : IsSound j'

-- The change from one table to another, where the rows that `gone` names may be deleted.
pub data Change (gone : ScanJob → Bool) (js js' : List ScanJob) : Type 0 where
  same : js' ≡ js → Change gone js js'
  write :
      (id : ℕ) (j j' : ScanJob)
      → find_job id js ≡ some j
      → Keeps j j'
      → js' ≡ save_job id j' js
      → Change gone js js'
  take :
      (id : ℕ) (j j' : ScanJob)
      → find_job id js ≡ some j
      → Takes j j'
      → js' ≡ save_job id j' js
      → Change gone js js'
  add : (new : List ScanJob) → All IsSound new → js' ≡ new ++ js → Change gone js js'
  drop : js' ≡ select (λ j. not (gone j)) js → Change gone js js'
  each :
      (f : ScanJob → ScanJob)
      → ((j : ScanJob) → Keeps j (f j))
      → js' ≡ map f js
      → Change gone js js'

module _ {A : Type 0} (P : A → Type 0) where
  All-map : (f : A → A) (xs : List A) → ((x : A) → P x → P (f x)) → All P xs → All P (map f xs)
  All-map f [] h k = tt
  All-map f (x ∷ xs) h k = (h x k.0, All-map f xs h k.1)

module _ {A : Type 0} where
  -- A row that is not the first to fit outlives the write, and so does one that is written as it was.
  mem-write_first :
      (p : A → Bool) (b a : A) {y : A} (xs : List A)
      → first p xs ≡ some a
      → (y ≡ a → b ≡ y)
      → y ∈ xs
      → y ∈ write_first p b xs
  mem-write_first p b a {y} (x ∷ xs) h k here = elim (Bool-cases (p x)) [
    | inl e ↦ let same : b ≡ y = k (ground arith) in rw e (subst (λ z. y ∈ z ∷ xs) (sym same) here)
    | inr e ↦ rw e here
  ]
  mem-write_first p b a [] h k m = elim m [ ]
  mem-write_first p b a (x ∷ xs) h k (there m) = elim (Bool-cases (p x)) [
    | inl e ↦ rw e (there m)
    | inr e ↦ rw e (there (mem-write_first p b a xs (rw e at h) k m))
  ]

-- Every change keeps all rows sound.
pub Change-IsSound :
    {gone : ScanJob → Bool} {js js' : List ScanJob}
    → Change gone js js'
    → All IsSound js
    → All IsSound js'
unfolding find_job save_job
Change-IsSound {js} (same e) h = subst (All IsSound) (sym e) h
Change-IsSound {js} (write id j j' f k e) h =
    let m = (first-mem (λ x. x.id == id) js f).0 in
    subst (All IsSound) (sym e) (All-write_first IsSound _ j' js (k.sound (at-All IsSound m h)) h)
Change-IsSound {js} (take id j j' f k e) h =
    subst (All IsSound) (sym e) (All-write_first IsSound _ j' js k.sound h)
Change-IsSound {js} (add new s e) h = subst (All IsSound) (sym e) (All-append IsSound new js s h)
Change-IsSound {js} (drop e) h = subst (All IsSound) (sym e) (All-select IsSound _ js h)
Change-IsSound {js} (each f k e) h =
    subst (All IsSound) (sym e) (All-map IsSound f js (λ j s. (k j).sound s) h)

-- A finished row stays in the table as it is, unless it is deleted.
pub Change-final :
    {gone : ScanJob → Bool} {js js' : List ScanJob} {j : ScanJob}
    → Change gone js js'
    → All IsSound js
    → j ∈ js
    → is_final j.status ≡ true
    → gone j ≡ false
    → j ∈ js'
unfolding find_job save_job
Change-final {js} {j} (same e) h m f g = subst (λ xs. j ∈ xs) (sym e) m
Change-final {js} {j} (write id a b found k e) h m f g =
    subst (λ xs. j ∈ xs) (sym e)
      (mem-write_first _ b a js found
        (λ same.
          k.final (subst IsSound same (at-All IsSound m h))
            (ap (λ (x : ScanJob). is_final x.status) (sym same) ∙ f)
          ∙ sym same)
        m)
Change-final {js} {j} (take id a b found k e) h m f g =
    subst (λ xs. j ∈ xs) (sym e)
      (mem-write_first _ b a js found
        (λ same.
          absurd (
            false≢true
              (sym k.open_before ∙ ap (λ (x : ScanJob). is_final x.status) (sym same) ∙ f)))
        m)
Change-final {js} {j} (add new s e) h m f g = subst (λ xs. j ∈ xs) (sym e) (mem-append new m)
Change-final {js} {j} (drop e) h m f g = subst (λ xs. j ∈ xs) (sym e) (mem-select _ js (ap not g) m)
Change-final {js} {j} (each c k e) h m f g =
    subst (λ xs. j ∈ xs) (sym e) (mem-map_fixed c js ((k j).final (at-All IsSound m h) f) m)
