-- ===== src/Text/Scan.antt =====
-- Splitting, stripping and searching a text whose front part has none of the characters sought.
use vardr_map.Base.{ℕ, ◌≡◌, refl, Bool, true, false, not, [], ◌∷◌, ◌++◌, arith, ◌==◌, all}
use vardr_map.Text.{
  Text, starts_with, contains, before, after, contains_text, after_text, drop_while, rdrop_while,
  cons_unless, is_space, strip, count_char,
}

-- No character of the text is `c`.
abbrev pub lacks : ℕ → Text → Bool
lacks c s = all (λ d. not (d == c)) s

pub all_mono :
    (p q : ℕ → Bool) (s : Text)
    → ((d : ℕ) → p d ≡ true → q d ≡ true)
    → all p s ≡ true
    → all q s ≡ true
all_mono p q [] imp h = refl
all_mono p q (d ∷ s) imp h = ground (arith, imp d, all_mono p q s imp)

pub all-append :
    (p : ℕ → Bool) (s t : Text) → all p s ≡ true → all p t ≡ true → all p (s ++ t) ≡ true
all-append p [] t h k = k
all-append p (d ∷ s) t h k = ground (arith, all-append p s t)

module _ (c : ℕ) where
  pub before-skip : (s t : Text) → lacks c s ≡ true → before c (s ++ t) ≡ s ++ before c t
  unfolding before
  before-skip [] t h = refl
  before-skip (d ∷ s) t h = ground (arith, before-skip s t)

  pub after-skip : (s t : Text) → lacks c s ≡ true → after c (s ++ t) ≡ after c t
  unfolding after
  after-skip [] t h = refl
  after-skip (d ∷ s) t h = ground (arith, after-skip s t)

  pub contains-skip : (s t : Text) → lacks c s ≡ true → contains c (s ++ t) ≡ contains c t
  unfolding contains
  contains-skip [] t h = refl
  contains-skip (d ∷ s) t h = ground (arith, contains-skip s t)

  pub count_char-skip : (s t : Text) → lacks c s ≡ true → count_char c (s ++ t) ≡ count_char c t
  unfolding count_char
  count_char-skip [] t h = refl
  count_char-skip (d ∷ s) t h = ground (arith, count_char-skip s t)

  pub before-lacks : (s : Text) → lacks c s ≡ true → before c s ≡ s
  unfolding before
  before-lacks [] h = refl
  before-lacks (d ∷ s) h = ground (arith, before-lacks s)

  pub contains-lacks : (s : Text) → lacks c s ≡ true → contains c s ≡ false
  unfolding contains
  contains-lacks [] h = refl
  contains-lacks (d ∷ s) h = ground (arith, contains-lacks s)

  pub count_char-lacks : (s : Text) → lacks c s ≡ true → count_char c s ≡ 0
  unfolding count_char
  count_char-lacks [] h = refl
  count_char-lacks (d ∷ s) h = ground (arith, count_char-lacks s)

  pub starts_with-lacks :
      (s t : Text)
      → lacks c s ≡ true
      → starts_with t (c ∷ []) ≡ false
      → starts_with (s ++ t) (c ∷ []) ≡ false
  unfolding starts_with
  starts_with-lacks [] t h k = k
  starts_with-lacks (d ∷ s) t h k = ground arith

  -- A separator that begins with `c` is not found in the front part.
  pub contains_text-skip :
      (s t p : Text) → lacks c s ≡ true → contains_text (c ∷ p) (s ++ t) ≡ contains_text (c ∷ p) t
  unfolding contains_text
  contains_text-skip [] t p h = refl
  contains_text-skip (d ∷ s) t p h = ground (arith, contains_text-skip s t p)

  pub after_text-skip :
      (s t p : Text) → lacks c s ≡ true → after_text (c ∷ p) (s ++ t) ≡ after_text (c ∷ p) t
  unfolding after_text
  after_text-skip [] t p h = refl
  after_text-skip (d ∷ s) t p h = ground (arith, after_text-skip s t p)

  pub contains_text-lacks : (s p : Text) → lacks c s ≡ true → contains_text (c ∷ p) s ≡ false
  unfolding contains_text
  contains_text-lacks [] p h = refl
  contains_text-lacks (d ∷ s) p h = ground (arith, contains_text-lacks s p)

cons_unless-kept : (b : Bool) (c : ℕ) (s : Text) → b ≡ false → cons_unless b c s ≡ c ∷ s
cons_unless-kept b c [] e = rw e
cons_unless-kept b c (x ∷ s) e = refl

module _ (p : ℕ → Bool) where
  pub rdrop_while-skip :
      (s t : Text) → all (λ d. not (p d)) s ≡ true → rdrop_while p (s ++ t) ≡ s ++ rdrop_while p t
  rdrop_while-skip [] t h = refl
  rdrop_while-skip (d ∷ s) t h =
      rw (rdrop_while-skip s t (ground arith))
        (cons_unless-kept (p d) d (s ++ rdrop_while p t) (ground arith))

  pub rdrop_while-lacks : (s : Text) → all (λ d. not (p d)) s ≡ true → rdrop_while p s ≡ s
  rdrop_while-lacks [] h = refl
  rdrop_while-lacks (d ∷ s) h =
      rw (rdrop_while-lacks s (ground arith)) (cons_unless-kept (p d) d s (ground arith))

  pub drop_while-lacks : (s : Text) → all (λ d. not (p d)) s ≡ true → drop_while p s ≡ s
  drop_while-lacks [] h = refl
  drop_while-lacks (d ∷ s) h = ground arith

  drop_while-skip :
      (s : Text) (d : ℕ) (t : Text)
      → all (λ d. not (p d)) s ≡ true
      → p d ≡ false
      → drop_while p (s ++ (d ∷ t)) ≡ s ++ (d ∷ t)
  drop_while-skip [] d t h k = ground arith
  drop_while-skip (c ∷ s) d t h k = ground arith

abbrev pub no_space : Text → Bool
no_space s = all (λ d. not (is_space d)) s

-- A front part with no white space, and one character more, survives `strip`.
pub strip-skip :
    (s : Text) (d : ℕ) (t : Text)
    → no_space s ≡ true
    → is_space d ≡ false
    → strip (s ++ (d ∷ t)) ≡ s ++ rdrop_while is_space (d ∷ t)
unfolding strip
strip-skip s d t h k =
    rw (drop_while-skip is_space s d t h k) (rdrop_while-skip is_space s (d ∷ t) h)

pub strip-lacks : (s : Text) → no_space s ≡ true → strip s ≡ s
unfolding strip
strip-lacks s h = rw (drop_while-lacks is_space s h) (rdrop_while-lacks is_space s h)
