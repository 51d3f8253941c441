-- ===== src/Lifecycle/Capacity.antt =====
-- How a change of the table moves the number of reserved places.
use vardr_map.Base.{
  ℕ, suc, ◌≤◌, ◌≡◌, refl, Bool, true, false, not, some, List, [], ◌∷◌, ◌++◌, All, arith, ◌==◌, map,
  count, select,
}
use vardr_map.Store.{ScanJob, find_job, save_job}
use vardr_map.Store.Laws.{count-write_first}
use vardr_map.Budget.{reserves, reserves_in, reserved}
use vardr_map.Lifecycle.Row.{Keeps}

module _ {A : Type 0} where
  count-select : (q p : A → Bool) (xs : List A) → count q (select p xs) ≤ count q xs
  count-select q p [] = omega arith
  count-select q p (x ∷ xs) = ground (arith, count-select q p xs)

  count-select_none :
      (q p : A → Bool) (xs : List A)
      → ((x : A) → q x ≡ true → p x ≡ false)
      → count q (select p xs) ≡ 0
  count-select_none q p [] h = refl
  count-select_none q p (x ∷ xs) h = ground (arith, h x, count-select_none q p xs h)

  count-map :
      (q : A → Bool) (f : A → A) (xs : List A)
      → ((x : A) → q (f x) ≡ true → q x ≡ true)
      → count q (map f xs) ≤ count q xs
  count-map q f [] h = omega arith
  count-map q f (x ∷ xs) h = ground (arith, h x, count-map q f xs h)

Keeps-reserves_in :
    (program : ℕ) {j j' : ScanJob}
    → Keeps j j'
    → reserves_in program j' ≡ true
    → reserves_in program j ≡ true
Keeps-reserves_in program {j} {j'} k h = ground (arith, k.same_program, k.holds)

-- A call on one row that takes no capacity.
pub reserved-save_job :
    (program id : ℕ) (js : List ScanJob) {j j' : ScanJob}
    → find_job id js ≡ some j
    → Keeps j j'
    → reserved (save_job id j' js) program ≤ reserved js program
unfolding reserved find_job save_job
reserved-save_job program id js {j} {j'} found k = ground (
  arith,
  count-write_first (reserves_in program) (λ x. x.id == id) j' j js found,
  Keeps-reserves_in program k,
)

-- A claim takes one place at most, and only of its own engagement.
pub reserved-take :
    (program id : ℕ) (js : List ScanJob) {j : ScanJob} (j' : ScanJob)
    → find_job id js ≡ some j
    → reserved (save_job id j' js) program ≤ suc (reserved js program)
unfolding reserved find_job save_job
reserved-take program id js {j} j' found =
    ground (arith, count-write_first (reserves_in program) (λ x. x.id == id) j' j js found)

pub reserved-take_other :
    (program id : ℕ) (js : List ScanJob) {j : ScanJob} (j' : ScanJob)
    → find_job id js ≡ some j
    → (j'.program_id == program) ≡ false
    → reserved (save_job id j' js) program ≤ reserved js program
unfolding reserved find_job save_job
reserved-take_other program id js {j} j' found other =
    ground (arith, count-write_first (reserves_in program) (λ x. x.id == id) j' j js found)

-- Nor does a call on every row.
pub reserved-each :
    (program : ℕ) (f : ScanJob → ScanJob) (k : (j : ScanJob) → Keeps j (f j)) (js : List ScanJob)
    → reserved (map f js) program ≤ reserved js program
unfolding reserved
reserved-each program f k js =
    count-map (reserves_in program) f js (λ j h. Keeps-reserves_in program (k j) h)

pub reserved-select :
    (program : ℕ) (keep : ScanJob → Bool) (js : List ScanJob)
    → reserved (select keep js) program ≤ reserved js program
unfolding reserved
reserved-select program keep js = count-select (reserves_in program) keep js

-- Deleting an engagement's jobs frees all its places.
pub reserved-deleted :
    (program : ℕ) (js : List ScanJob)
    → reserved (select (λ j. not (j.program_id == program)) js) program ≡ 0
unfolding reserved
reserved-deleted program js = count-select_none (reserves_in program) _ js (λ j h. ground arith)

-- New jobs hold no place.
pub reserved-add :
    (program : ℕ) (new js : List ScanJob)
    → All (λ j. reserves j.execution ≡ false) new
    → reserved (new ++ js) program ≤ reserved js program
unfolding reserved
reserved-add program [] js r = omega arith
reserved-add program (j ∷ new) js r = ground (arith, reserved-add program new js r.1, r.0)
