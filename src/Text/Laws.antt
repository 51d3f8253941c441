-- ===== src/Text/Laws.antt =====
-- Equality, prefixes and suffixes of texts.
use vardr_map.Base.{ℕ, ◌≡◌, refl, ◌↔◌, inl, inr, ap, true, [], ◌∷◌, ◌++◌, arith, Bool-cases}
use vardr_map.Text.{Text, eqb, starts_with, ends_with}

pub eqb_iff : (s t : Text) → (eqb s t ≡ true) ↔ (s ≡ t)
eqb_iff [] [] = ground arith
eqb_iff [] (b ∷ t) = ground arith
eqb_iff (a ∷ s) [] = ground arith
eqb_iff (a ∷ s) (b ∷ t) = ground (arith, eqb_iff s t)

pub eqb_refl : (s : Text) → eqb s s ≡ true
eqb_refl s = (eqb_iff s s).1 refl

-- A prefix is what a text begins with.
pub starts_with-split : (s p : Text) → starts_with s p ≡ true → (r : Text) × (s ≡ p ++ r)
unfolding starts_with
starts_with-split s [] h = (s, refl)
starts_with-split [] (b ∷ p) h = cc
starts_with-split (a ∷ s) (b ∷ p) h =
    let (r, e) = starts_with-split s p (ground arith) in (r, ground arith)

pub starts_with-append : (p r : Text) → starts_with (p ++ r) p ≡ true
unfolding starts_with
starts_with-append [] r = refl
starts_with-append (b ∷ p) r = ground (arith, starts_with-append p r)

-- A suffix is what a text ends with.
pub ends_with-split : (s p : Text) → ends_with s p ≡ true → (r : Text) × (s ≡ r ++ p)
unfolding ends_with
ends_with-split [] p h = ([], (eqb_iff [] p).0 h)
ends_with-split (c ∷ s) p h = elim (Bool-cases (eqb (c ∷ s) p)) [
  | inl e ↦ ([], (eqb_iff (c ∷ s) p).0 e)
  | inr e ↦ let (r, q) = ends_with-split s p (ground arith) in (c ∷ r, ap (λ (t : Text). c ∷ t) q)
]

pub ends_with_self : (p : Text) → ends_with p p ≡ true
unfolding ends_with
ends_with_self [] = refl
ends_with_self (c ∷ p) = ground (arith, eqb_refl p)

ends_with-cons : (c : ℕ) (s p : Text) → ends_with s p ≡ true → ends_with (c ∷ s) p ≡ true
unfolding ends_with
ends_with-cons c s p h = ground arith

pub ends_with-append : (r p : Text) → ends_with (r ++ p) p ≡ true
ends_with-append [] p = ends_with_self p
ends_with-append (c ∷ r) p = ends_with-cons c (r ++ p) p (ends_with-append r p)
