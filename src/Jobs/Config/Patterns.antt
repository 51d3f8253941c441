-- ===== src/Jobs/Config/Patterns.antt =====
-- backend/routers/jobs.py: the regular expressions of the config's validation, `str` and `strip` on
-- its lists of words.
use vardr_map.Base.{
  ℕ, Bool, false, not, ◌&&◌, ◌||◌, List, [], ◌∷◌, ◌==◌, leb, all, any, map, select, if◌then◌else◌,
  length,
}
use vardr_map.Text.{Text, text, eqb, strip, is_digit}

abbrev pub one_of : List Text → Text → Bool
one_of ts t = any (λ s. eqb s t) ts

-- `[p.strip() for p in parts if p.strip()]`
unfoldable pub words : List Text → List Text
unfolding strip
words parts = select (λ t. not (eqb t [])) (map (λ p. strip p) parts)

abbrev pub is_lower : ℕ → Bool
is_lower c = leb 97 c && leb c 122

abbrev pub is_upper : ℕ → Bool
is_upper c = leb 65 c && leb c 90

abbrev pub is_alnum : ℕ → Bool
is_alnum c = is_lower c || is_upper c || is_digit c

-- `[A-Za-z0-9!#$%&'*+.^_`|~-]`
abbrev pub is_token_char : ℕ → Bool
is_token_char c = is_alnum c || any (λ d. d == c) (text "!#$%&'*+.^_`|~-")

abbrev pub is_name_char : ℕ → Bool
is_name_char c = is_lower c || is_digit c || c == b'_' || c == b'-'

-- A text without the one line break that `$` lets stand at the end.
abbrev pub chomp : Text → Text
chomp [] = []
chomp (c ∷ []) = if c == 10 then [] else c ∷ []
chomp (c ∷ d ∷ s) = c ∷ chomp (d ∷ s)

-- `^[class]{low,high}$`, where the class has no line break
abbrev pub matches_class : (ℕ → Bool) → ℕ → ℕ → Text → Bool
matches_class p low high s =
    let core = chomp s in all p core && leb low (length core) && leb (length core) high

-- `_HEADER_NAME`
unfoldable pub header_name : Text → Bool
header_name s = matches_class is_token_char 1 100 s

-- `_FFUF_WORDLIST`
unfoldable pub ffuf_wordlist : Text → Bool
ffuf_wordlist [] = false
ffuf_wordlist (c ∷ s) = (is_lower c || is_digit c) && matches_class is_name_char 0 39 s

-- `_FFUF_EXTENSION`
unfoldable pub ffuf_extension : Text → Bool
ffuf_extension [] = false
ffuf_extension (c ∷ s) = c == b'.' && matches_class is_alnum 1 10 s

-- `_FFUF_STATUS`
unfoldable pub ffuf_status : Text → Bool
ffuf_status s = matches_class is_digit 3 3 s
