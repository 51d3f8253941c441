-- ===== src/TestCases/Read.antt =====
-- backend/routers/test_cases.py: how the checks read a spec, and the origin of a URL in it.
use vardr_map.Base.{
  ℕ, Bool, true, false, not, ◌&&◌, ◌||◌, Option, none, some, List, [], ◌∷◌, ◌+◌, ◌++◌, ◌==◌, ltb,
  leb, map, if◌then◌else◌, any,
}
use vardr_map.Text.{Text, text, eqb, strip, lower}
use vardr_map.Json.{
  Value, str, num, bool, obj, arr, null, Fields, keys, get, find, items_of, dict_at, list_at,
  truthy, str_or,
}
use vardr_map.Store.{internal, Result, ok, err}
use vardr_map.Url.{SplitResult, urlsplit, hostname, port, has_userinfo}

-- `"i" in spec` and what it holds, and a case's identities with the reader of its write check
abbrev pub reader_list : Option Value → List Value
reader_list none = []
reader_list (some v) = v ∷ []

-- `_case_identities`, where `identities` is a list or is absent
abbrev pub case_identities : Fields → List Value
case_identities spec =
    list_at (text "identities") spec
    ++ reader_list (find (text "identity") (dict_at (text "write_verification") spec))

-- What `for x in v or []` goes over; a number or a Boolean raises a `TypeError`.
abbrev pub elements : Value → Result (List Value)
elements null = ok []
elements (bool b) = if b then err internal else ok []
elements (num n) = if truthy (num n) then err internal else ok []
elements (str s) = ok (map (λ c. str (c ∷ [])) s)
elements (obj fs) = ok (map str (keys fs))
elements (arr vs) = ok (items_of (arr vs))

-- `v not in {…}` raises a `TypeError` for a list or a dictionary.
abbrev pub is_hashable : Value → Bool
is_hashable (obj fs) = false
is_hashable (arr vs) = false
is_hashable v = true

abbrev pub is_one_of : List Text → Value → Bool
is_one_of names (str s) = any (eqb s) names
is_one_of names v = false

-- `len(s.encode())`
abbrev pub utf8_size : Text → ℕ
utf8_size [] = 0
utf8_size (c ∷ s) =
    (if ltb c 128 then 1 else if ltb c 2048 then 2 else if ltb c 65536 then 3 else 4) + utf8_size s

module _ (repr : Value → Text) where
  -- `str(d.get(k) or "")`, and that with `.strip()`
  abbrev pub text_at : Text → Fields → Text
  text_at k fs = str_or repr [] (get k fs)

  unfoldable pub stripped_at : Text → Fields → Text
  unfolding strip
  stripped_at k fs = strip (text_at k fs)

pub record Origin : Type 0 where
  pub scheme : Text
  pub host : Text
  pub port : ℕ

abbrev pub origin_eq : Origin → Origin → Bool
origin_eq a b = eqb a.scheme b.scheme && eqb a.host b.host && a.port == b.port

unfoldable pub is_plain_http : SplitResult → Bool
unfolding hostname
is_plain_http parsed =
    (eqb parsed.scheme (text "http") || eqb parsed.scheme (text "https"))
    && not (eqb (hostname parsed) [])
    && not (has_userinfo parsed)
    && eqb parsed.fragment []

abbrev pub default_port : Text → ℕ
default_port scheme = if eqb scheme (text "https") then 443 else 80

-- The port, where it is not 0.
abbrev pub port_or : ℕ → Option ℕ → Option ℕ
port_or default none = some default
port_or default (some p) = if p == 0 then none else some p

unfoldable pub with_port : SplitResult → Option ℕ → Option Origin
unfolding hostname
with_port parsed none = none
with_port parsed (some p) =
    some (record { scheme = parsed.scheme; host = lower (hostname parsed); port = p })

unfoldable pub read_port : SplitResult → Option (Option ℕ) → Option Origin
unfolding with_port
read_port parsed none = none
read_port parsed (some p) = with_port parsed (port_or (default_port parsed.scheme) p)

unfoldable pub origin_of : Option SplitResult → Option Origin
unfolding is_plain_http read_port port
origin_of none = none
origin_of (some parsed) = if is_plain_http parsed then read_port parsed (port parsed) else none

-- `_preflight_origin`; `none` stands for its `ValueError`s
unfoldable pub preflight_origin : Value → Option Origin
unfolding origin_of urlsplit
preflight_origin (str raw) = if leb (utf8_size raw) 2000 then origin_of (urlsplit raw) else none
preflight_origin v = none
