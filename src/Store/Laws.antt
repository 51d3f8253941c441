-- ===== src/Store/Laws.antt =====
-- Searches after a write, counts of rows, and what a step that raises nothing has found.
use mathlib.Core.Path.{subst}
use vardr_map.Base.{
  inl, inr, ℕ, ◌+◌, ◌≡◌, refl, ap, Bool, true, false, Option, none, some, List, [], ◌∷◌, arith,
  first, count, Bool-cases, All, ◌∈◌, here, there,
}
use vardr_map.Store.{
  Db, Error, Result, ok, err, raise_if, or_raise, transaction, ok-injective, err-ne-ok, write_first,
  erase_first,
}

-- One if the row counts.
abbrev pub one_if : Bool → ℕ
one_if true = 1
one_if false = 0

module _ {A : Type 0} where
  pub first-mem :
      (p : A → Bool) (xs : List A) {a : A} → first p xs ≡ some a → (a ∈ xs) × (p a ≡ true)
  first-mem p [] h = cc
  first-mem p (x ∷ xs) {a} h = elim (Bool-cases (p x)) [
    | inl e ↦
        let same : x ≡ a = ground arith in subst (λ y. (y ∈ x ∷ xs) × (p y ≡ true)) same (here, e)
    | inr e ↦ let (m, q) = first-mem p xs {a = a} (ground arith) in (there m, q)
  ]

  -- A write to the first row that fits replaces that row in every count.
  pub count-write_first :
      (q p : A → Bool) (b a : A) (xs : List A)
      → first p xs ≡ some a
      → count q (write_first p b xs) + one_if (q a) ≡ count q xs + one_if (q b)
  count-write_first q p b a [] h = cc
  count-write_first q p b a (x ∷ xs) h = ground (arith, count-write_first q p b a xs)

  pub count-erase_first :
      (q p : A → Bool) (a : A) (xs : List A)
      → first p xs ≡ some a
      → count q (erase_first p xs) + one_if (q a) ≡ count q xs
  count-erase_first q p a [] h = cc
  count-erase_first q p a (x ∷ xs) h = ground (arith, count-erase_first q p a xs)

  pub first-write_first :
      (p : A → Bool) (b a : A) (xs : List A)
      → first p xs ≡ some a
      → p b ≡ true
      → first p (write_first p b xs) ≡ some b
  first-write_first p b a [] h k = cc
  first-write_first p b a (x ∷ xs) h k = ground (arith, first-write_first p b a xs)

  -- A search for rows that are not written does not see the write.
  pub first-write_other :
      (q p : A → Bool) (b : A) (xs : List A)
      → ((x : A) → p x ≡ true → q x ≡ false)
      → q b ≡ false
      → first q (write_first p b xs) ≡ first q xs
  first-write_other q p b [] h k = refl
  first-write_other q p b (x ∷ xs) h k = ground (arith, h x, first-write_other q p b xs h)

-- What a transaction leaves: the old state, or what its last step has built.
pub transaction-cases :
    {A : Type 0} (P : Db → Type 0) (db : Db) (r : Result (A × Db))
    → P db
    → ((a : A × Db) → r ≡ ok a → P a.1)
    → P (transaction db r).1
unfolding transaction
transaction-cases P db (ok a) old new = new a refl
transaction-cases P db (err e) old new = old

pub raise_if-eq_ok : (b : Bool) (e : Error) {u : Unit {0}} → raise_if b e ≡ ok u → b ≡ false
raise_if-eq_ok true e h = absurd (err-ne-ok h)
raise_if-eq_ok false e h = refl

pub or_raise-eq_ok :
    {A : Type 0} (o : Option A) (e : Error) {a : A} → or_raise o e ≡ ok a → o ≡ some a
or_raise-eq_ok none e h = absurd (err-ne-ok h)
or_raise-eq_ok (some x) e h = ap (λ z. some z) (ok-injective h)

-- What a successful transaction went through.
pub transaction-eq_ok :
    {A : Type 0} (db : Db) (m : Result (A × Db)) {a : A} {db' : Db}
    → transaction db m ≡ (ok a, db')
    → m ≡ ok (a, db')
unfolding transaction
transaction-eq_ok db (ok (x, d)) h =
    let p = ap (λ r. r.0) h in let q = ap (λ r. r.1) h in cc (ok-injective p, q)
transaction-eq_ok db (err e) h = let p = ap (λ r. r.0) h in absurd (err-ne-ok p)

module _ {A : Type 0} (P : A → Type 0) where
  pub All-write_first :
      (p : A → Bool) (b : A) (xs : List A) → P b → All P xs → All P (write_first p b xs)
  All-write_first p b [] h k = tt
  All-write_first p b (x ∷ xs) h k = elim (Bool-cases (p x)) [
    | inl e ↦ rw e (h, k.1)
    | inr e ↦ rw e (k.0, All-write_first p b xs h k.1)
  ]
