-- ===== src/Base/Members.antt =====
-- Membership of the lists that the list functions make.
use mathlib.Core.Path.{◌≡◌, refl, subst, sym}
use mathlib.Core.Logic.{◌⊎◌, inl, inr}
use mathlib.Core.Bool.{Bool, true}
use mathlib.Core.List.{List, [], ◌∷◌, ◌++◌, map}
use vardr_map.Base.Tests.{Bool-cases}
use vardr_map.Base.Lists.{select, All, ◌∈◌, here, there}

module _ {A : Type 0} where
  pub mem-append : (xs : List A) {y : A} {ys : List A} → y ∈ ys → y ∈ xs ++ ys
  mem-append [] m = m
  mem-append (x ∷ xs) m = there (mem-append xs m)

  pub mem-append_left : {y : A} {xs : List A} (ys : List A) → y ∈ xs → y ∈ xs ++ ys
  mem-append_left ys here = here
  mem-append_left ys (there m) = there (mem-append_left ys m)

  pub mem-append_cases : {y : A} (xs : List A) {ys : List A} → y ∈ xs ++ ys → (y ∈ xs) ⊎ (y ∈ ys)
  mem-append_cases [] m = inr m
  mem-append_cases (x ∷ xs) here = inl here
  mem-append_cases (x ∷ xs) (there m) = elim (mem-append_cases xs m) [
    | inl l ↦ inl (there l)
    | inr r ↦ inr r
  ]

  pub mem-singleton : {x y : A} → y ∈ x ∷ [] → x ≡ y
  mem-singleton here = refl
  mem-singleton (there m) = elim m [ ]

  pub mem-select : (p : A → Bool) {y : A} (xs : List A) → p y ≡ true → y ∈ xs → y ∈ select p xs
  mem-select p [] t m = elim m [ ]
  mem-select p (x ∷ xs) t here = rw t here
  mem-select p (x ∷ xs) t (there m) = elim (Bool-cases (p x)) [
    | inl e ↦ rw e (there (mem-select p xs t m))
    | inr e ↦ rw e (mem-select p xs t m)
  ]

  under :
      (p : A → Bool) {x y : A} {xs ys : List A}
      → p x ≡ true
      → (y ∈ ys → (y ∈ xs) × (p y ≡ true))
      → y ∈ x ∷ ys
      → (y ∈ x ∷ xs) × (p y ≡ true)
  under p e rest here = (here, e)
  under p e rest (there n) = let (k, q) = rest n in (there k, q)

  pub select-mem : (p : A → Bool) {y : A} (xs : List A) → y ∈ select p xs → (y ∈ xs) × (p y ≡ true)
  select-mem p [] m = elim m [ ]
  select-mem p {y} (x ∷ xs) m = elim (Bool-cases (p x)) [
    | inl e ↦ under p e (select-mem p xs) (rw e at m)
    | inr e ↦ let (n, q) = select-mem p xs (rw e at m) in (there n, q)
  ]

  pub mem-map_fixed : (f : A → A) {y : A} (xs : List A) → f y ≡ y → y ∈ xs → y ∈ map f xs
  mem-map_fixed f [] e m = elim m [ ]
  mem-map_fixed f {y} (x ∷ xs) e here = subst (λ z. y ∈ z ∷ map f xs) (sym e) here
  mem-map_fixed f (x ∷ xs) e (there m) = there (mem-map_fixed f xs e m)

pub map-mem :
    {A B : Type 0} (f : A → B) {y : B} (xs : List A) → y ∈ map f xs → (x : A) × (x ∈ xs) × (f x ≡ y)
map-mem f [] m = elim m [ ]
map-mem f (x ∷ xs) here = (x, here, refl)
map-mem f (x ∷ xs) (there m) = let (z, n, e) = map-mem f xs m in (z, there n, e)

module _ {A : Type 0} (P : A → Type 0) where
  pub All-select : (p : A → Bool) (xs : List A) → All P xs → All P (select p xs)
  All-select p [] h = tt
  All-select p (x ∷ xs) h = elim (Bool-cases (p x)) [
    | inl e ↦ rw e (h.0, All-select p xs h.1)
    | inr e ↦ rw e (All-select p xs h.1)
  ]

  pub All-append : (xs ys : List A) → All P xs → All P ys → All P (xs ++ ys)
  All-append [] ys h k = k
  All-append (x ∷ xs) ys h k = (h.0, All-append xs ys h.1 k)

  pub All-split : (xs ys : List A) → All P (xs ++ ys) → All P xs × All P ys
  All-split [] ys h = (tt, h)
  All-split (x ∷ xs) ys h = let (k, l) = All-split xs ys h.1 in ((h.0, k), l)
