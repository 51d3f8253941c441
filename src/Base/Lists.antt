-- ===== src/Base/Lists.antt =====
-- Lists measured by native numbers and tested by Boolean functions.
use Prim.Native.Nat.{ℕ, zero, suc, ◌+◌}
use mathlib.Core.Path.{◌≡◌}
use mathlib.Core.Bool.{Bool, true, false, ◌&&◌, ◌||◌}
use mathlib.Core.List.{List, [], ◌∷◌, ◌++◌}
use mathlib.Core.Option.{Option, none, some}
use native.Mathlib.Omega.{arith}
use mathlib.Core.Logic.{inl, inr}
use vardr_map.Base.Tests.{if◌then◌else◌, Bool-cases}

module _ {ℓ} {A : Type ℓ} where
  abbrev pub length : List A → ℕ
  length [] = 0
  length (_ ∷ xs) = suc (length xs)

  abbrev pub any : (A → Bool) → List A → Bool
  any p [] = false
  any p (x ∷ xs) = p x || any p xs

  abbrev pub all : (A → Bool) → List A → Bool
  all p [] = true
  all p (x ∷ xs) = p x && all p xs

  -- `[x for x in xs if p(x)]`
  abbrev pub select : (A → Bool) → List A → List A
  select p [] = []
  select p (x ∷ xs) = let rest = select p xs in if p x then x ∷ rest else rest

  -- `query.filter(p).first()`
  abbrev pub first : (A → Bool) → List A → Option A
  first p [] = none
  first p (x ∷ xs) = if p x then some x else first p xs

  -- `query.filter(p).count()`
  abbrev pub count : (A → Bool) → List A → ℕ
  count p [] = 0
  count p (x ∷ xs) = let rest = count p xs in if p x then suc rest else rest

  abbrev pub take : ℕ → List A → List A
  take zero _ = []
  take (suc n) [] = []
  take (suc n) (x ∷ xs) = x ∷ take n xs

  abbrev pub drop : ℕ → List A → List A
  drop zero xs = xs
  drop (suc n) [] = []
  drop (suc n) (_ ∷ xs) = drop n xs

  pub length-append : (xs ys : List A) → length (xs ++ ys) ≡ length xs + length ys
  length-append [] ys = omega arith
  length-append (_ ∷ xs) ys = omega (arith, length-append xs ys)

module _ {ℓ κ} {A : Type ℓ} (P : A → Type κ) where
  abbrev pub All : List A → Type κ
  All [] = Unit
  All (x ∷ xs) = P x × All xs

-- `x in xs`, as the place where it stands.
infix 50 ◌∈◌
pub data ◌∈◌ {ℓ} {A : Type ℓ} (a : A) : List A → Type ℓ where
  here : {xs : List A} → a ∈ a ∷ xs
  there : {x : A} {xs : List A} → a ∈ xs → a ∈ x ∷ xs

pub at-All {ℓ κ} : {A : Type ℓ} (P : A → Type κ) {a : A} {xs : List A} → a ∈ xs → All P xs → P a
at-All P here h = h.0
at-All P (there m) h = at-All P m h.1

-- A Boolean search finds what stands in the list, and only that.
pub any-mem {ℓ} :
    {A : Type ℓ} (p : A → Bool) (xs : List A) → any p xs ≡ true → (a : A) × (a ∈ xs) × (p a ≡ true)
any-mem p (x ∷ xs) h = elim (Bool-cases (p x)) [
  | inl e ↦ (x, here, e)
  | inr e ↦ let (a, m, q) = any-mem p xs (ground arith) in (a, there m, q)
]
any-mem p [] h = cc

pub mem-any {ℓ} :
    {A : Type ℓ} (p : A → Bool) {a : A} {xs : List A} → a ∈ xs → p a ≡ true → any p xs ≡ true
mem-any p here h = ground arith
mem-any p (there {x = x} m) h = ground (arith, mem-any p m h)

pub any-eq_false {ℓ} :
    {A : Type ℓ} (p : A → Bool) {a : A} {xs : List A} → a ∈ xs → any p xs ≡ false → p a ≡ false
any-eq_false p here h = ground arith
any-eq_false p (there {x = x} m) h = any-eq_false p m (ground arith)
