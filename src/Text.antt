-- ===== src/Text.antt =====
-- Python's `str`, as the list of its code points. Texts are ASCII: `strip`, `lower` and
-- `isdigit` treat the characters below 128 as Python does and leave the others alone.
pub mod Laws
pub mod Scan
use Prim.Native.Char.{code}
use vardr_map.Base.{
  ℕ, suc, ◌+◌, ◌*◌, ◌-◌, String, Bool, true, false, not, ◌&&◌, ◌||◌, List, [], ◌∷◌, ◌++◌, map, ltb,
  leb, ◌==◌, if◌then◌else◌, length, any, all, drop, count,
}

abbrev pub Text : Type 0
Text = List ℕ

abbrev pub text : String → Text
text String.[] = []
text (String.◌∷◌ c s) = code c ∷ text s

-- `s == t`
abbrev pub eqb : Text → Text → Bool
eqb [] [] = true
eqb [] (_ ∷ _) = false
eqb (_ ∷ _) [] = false
eqb (a ∷ s) (b ∷ t) = (a == b) && eqb s t

-- `s.startswith(p)`
unfoldable pub starts_with : Text → Text → Bool
starts_with s [] = true
starts_with [] (_ ∷ _) = false
starts_with (a ∷ s) (b ∷ p) = (a == b) && starts_with s p

-- `s.endswith(p)`
unfoldable pub ends_with : Text → Text → Bool
ends_with [] p = eqb [] p
ends_with (c ∷ s) p = eqb (c ∷ s) p || ends_with s p

-- `c in s` for one character
unfoldable pub contains : ℕ → Text → Bool
contains c s = any (λ d. d == c) s

-- `s.split(c, 1)[0]`
unfoldable pub before : ℕ → Text → Text
before c [] = []
before c (d ∷ s) = let rest = before c s in if d == c then [] else d ∷ rest

-- `s.split(c, 1)[1]`, where `c in s`
unfoldable pub after : ℕ → Text → Text
after c [] = []
after c (d ∷ s) = let rest = after c s in if d == c then s else rest

-- `sep in s`, `s.split(sep, 1)[0]` and `s.split(sep, 1)[1]` for a longer separator
unfoldable pub contains_text : Text → Text → Bool
unfolding starts_with
contains_text sep [] = eqb sep []
contains_text sep (d ∷ s) = starts_with (d ∷ s) sep || contains_text sep s

unfoldable pub before_text : Text → Text → Text
unfolding starts_with
before_text sep [] = []
before_text sep (d ∷ s) =
    let rest = before_text sep s in if starts_with (d ∷ s) sep then [] else d ∷ rest

unfoldable pub after_text : Text → Text → Text
unfolding starts_with
after_text sep [] = []
after_text sep (d ∷ s) =
    let rest = after_text sep s in
    if starts_with (d ∷ s) sep then drop (length sep) (d ∷ s) else rest

-- `s.split(c)`
unfoldable pub split : ℕ → Text → List Text
split c [] = [] ∷ []
split c (d ∷ s) = elim (split c s) [
  | [] ↦ [] ∷ []
  | part ∷ parts ↦ if d == c then [] ∷ part ∷ parts else (d ∷ part) ∷ parts
]

abbrev pub drop_while : (ℕ → Bool) → Text → Text
drop_while p [] = []
drop_while p (c ∷ s) = let rest = drop_while p s in if p c then rest else c ∷ s

abbrev pub cons_unless : Bool → ℕ → Text → Text
cons_unless drops c [] = if drops then [] else c ∷ []
cons_unless drops c (d ∷ s) = c ∷ d ∷ s

abbrev pub rdrop_while : (ℕ → Bool) → Text → Text
rdrop_while p [] = []
rdrop_while p (c ∷ s) = cons_unless (p c) c (rdrop_while p s)

-- `str.isspace` on one ASCII character
abbrev pub is_space : ℕ → Bool
is_space c = (leb 9 c && leb c 13) || (leb 28 c && leb c 32)

-- `s.strip()`
unfoldable pub strip : Text → Text
strip s = rdrop_while is_space (drop_while is_space s)

-- `s.rstrip(c)`
unfoldable pub rstrip : ℕ → Text → Text
rstrip c s = rdrop_while (λ d. d == c) s

abbrev pub lower_char : ℕ → ℕ
lower_char c = if leb b'A' c && leb c b'Z' then c + 32 else c

-- `s.lower()`
unfoldable pub lower : Text → Text
lower s = map lower_char s

abbrev pub upper_char : ℕ → ℕ
upper_char c = if leb b'a' c && leb c b'z' then c - 32 else c

-- `s.upper()`
unfoldable pub upper : Text → Text
upper s = map upper_char s

abbrev pub is_digit : ℕ → Bool
is_digit c = leb b'0' c && leb c b'9'

-- `s.isdigit()`, which is false of ""
unfoldable pub isdigit : Text → Bool
isdigit [] = false
isdigit (c ∷ s) = is_digit c && all is_digit s

abbrev pub digits_from : ℕ → Text → ℕ
digits_from n [] = n
digits_from n (c ∷ s) = digits_from (n * 10 + (c - b'0')) s

-- `int(s)`, where `s.isdigit()`
unfoldable pub to_int : Text → ℕ
to_int s = digits_from 0 s

-- `s.count(c)`
unfoldable pub count_char : ℕ → Text → ℕ
count_char c s = count (λ d. d == c) s
