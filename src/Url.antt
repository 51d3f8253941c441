-- ===== src/Url.antt =====
-- Python's `urllib.parse.urlsplit` on ASCII text, as routers/test_cases.py and the rest of
-- backend/ use it: the parts of a URL, its host and its port. `none` stands for a `ValueError`.
use vardr_map.Base.{
  ℕ, Bool, true, false, not, ◌&&◌, ◌||◌, Option, none, some, [], ◌∷◌, ◌++◌, ◌==◌, leb, any, all,
  select, drop, if◌then◌else◌, ◌≡◌, refl,
}
use vardr_map.Text.{
  Text, text, eqb, starts_with, contains, before, after, drop_while, lower, isdigit, is_digit,
  to_int,
}
use vardr_map.Net.{Address, v6, ip_address}

pub record SplitResult : Type 0 where
  pub scheme : Text
  pub netloc : Text
  pub path : Text
  pub query : Text
  pub fragment : Text

abbrev pub is_alpha : ℕ → Bool
is_alpha c = (leb b'a' c && leb c b'z') || (leb b'A' c && leb c b'Z')

abbrev pub is_scheme_char : ℕ → Bool
is_scheme_char c = is_alpha c || is_digit c || c == b'+' || c == b'-' || c == b'.'

abbrev pub starts_alpha : Text → Bool
starts_alpha [] = false
starts_alpha (c ∷ s) = is_alpha c

-- Control characters and spaces at the start, and tabs and line ends anywhere, are dropped.
unfoldable pub clean : Text → Text
clean s = select (λ c. not (c == 9 || c == 10 || c == 13)) (drop_while (λ c. leb c 32) s)

unfoldable pub has_scheme : Text → Bool
unfolding contains before
has_scheme url = contains b':' url && starts_alpha url && all is_scheme_char (before b':' url)

-- The part before the first of `/`, `?` and `#`, and the part from there.
abbrev pub before_any : (ℕ → Bool) → Text → Text
before_any p [] = []
before_any p (c ∷ s) = let rest = before_any p s in if p c then [] else c ∷ rest

abbrev pub from_any : (ℕ → Bool) → Text → Text
from_any p [] = []
from_any p (c ∷ s) = let rest = from_any p s in if p c then c ∷ s else rest

abbrev pub ends_netloc : ℕ → Bool
ends_netloc c = c == b'/' || c == b'?' || c == b'#'

-- `s.rpartition("@")[2]`
unfoldable pub after_last : ℕ → Text → Text
unfolding contains
after_last c [] = []
after_last c (d ∷ s) =
    let rest = after_last c s in
    if contains c (d ∷ s) then (if contains c s then rest else s) else d ∷ s

abbrev pub is_hex : ℕ → Bool
is_hex c = is_digit c || (leb b'a' c && leb c b'f') || (leb b'A' c && leb c b'F')

-- `v1f.name`, the form for addresses to come
unfoldable pub is_future : Text → Bool
unfolding contains before after
is_future s =
    contains b'.' s
    && not (eqb (before b'.' s) [])
    && all is_hex (before b'.' s)
    && not (eqb (after b'.' s) [])

abbrev pub is_v6 : Option Address → Bool
is_v6 (some (v6 n)) = true
is_v6 _ = false

abbrev pub bracketed_host : Text → Bool
bracketed_host [] = false
bracketed_host (c ∷ s) = if c == b'v' then is_future s else is_v6 (ip_address (c ∷ s))

-- `_check_bracketed_netloc`
unfoldable pub bracketed_netloc : Text → Bool
unfolding contains before after starts_with ip_address
bracketed_netloc hostinfo =
    eqb (before b'[' hostinfo) []
    && (let port = after b']' (after b'[' hostinfo) in eqb port [] || starts_with port (text ":"))
    && bracketed_host (before b']' (after b'[' hostinfo))

unfoldable pub is_valid_netloc : Text → Bool
unfolding contains after_last
is_valid_netloc netloc =
    if contains b'[' netloc && contains b']' netloc
    then bracketed_netloc (after_last b'@' netloc)
    else not (contains b'[' netloc) && not (contains b']' netloc)

unfoldable pub split_path : Text → Text → Text → SplitResult
unfolding contains before after
split_path scheme netloc rest =
    let plain = before b'#' rest in
    record {
      scheme = scheme;
      netloc = netloc;
      path = before b'?' plain;
      query = after b'?' plain;
      fragment = after b'#' rest;
    }

unfoldable pub split_rest : Text → Text → Option SplitResult
unfolding starts_with
split_rest scheme url =
    if starts_with url (text "//")
    then (let netloc = before_any ends_netloc (drop 2 url) in
        if is_valid_netloc netloc
        then some (split_path scheme netloc (from_any ends_netloc (drop 2 url)))
        else none)
    else some (split_path scheme [] url)

unfoldable pub urlsplit : Text → Option SplitResult
unfolding clean before after lower
urlsplit raw =
    let url = clean raw in
    if has_scheme url
    then split_rest (lower (before b':' url)) (after b':' url)
    else split_rest [] url

-- `parsed.username is not None`
abbrev pub has_userinfo : SplitResult → Bool
has_userinfo parsed = any (λ c. c == b'@') parsed.netloc

unfoldable pub lower_zone : Text → Text
unfolding contains before lower
lower_zone host = lower (before b'%' host) ++ from_any (λ c. c == b'%') host

-- `parsed.hostname or ""`
unfoldable pub hostname : SplitResult → Text
unfolding contains before after after_last lower
hostname parsed =
    let hostinfo = after_last b'@' parsed.netloc in
    lower_zone
      (if contains b'[' hostinfo then before b']' (after b'[' hostinfo) else before b':' hostinfo)

unfoldable pub port_text : SplitResult → Text
unfolding contains after after_last
port_text parsed =
    let hostinfo = after_last b'@' parsed.netloc in
    if contains b'[' hostinfo
    then after b':' (after b']' (after b'[' hostinfo))
    else after b':' hostinfo

-- `parsed.port`: absent, a number, or a `ValueError`
unfoldable pub port : SplitResult → Option (Option ℕ)
unfolding isdigit to_int contains after after_last
port parsed =
    if eqb (port_text parsed) []
    then some none
    else if isdigit (port_text parsed) && leb (to_int (port_text parsed)) 65535
    then some (some (to_int (port_text parsed)))
    else none

-- A test that splits a URL unfolds this.
unfoldable pub splitting : Unit {0}
unfolding urlsplit split_rest split_path has_scheme is_valid_netloc bracketed_netloc is_future
    after_last clean lower_zone hostname port_text port contains before after starts_with lower
    isdigit to_int ip_address
splitting = tt

splits :
    urlsplit (text " HTTPS://u:p@Ex.COM:8443/a?b#c")
    ≡ some (record {
      scheme = text "https";
      netloc = text "u:p@Ex.COM:8443";
      path = text "/a";
      query = text "b";
      fragment = text "c";
    })
unfolding splitting
splits = refl

splits_host :
    hostname (record {
      scheme = [];
      netloc = text "u:p@Ex.COM:8443";
      path = [];
      query = [];
      fragment = [];
    })
    ≡ text "ex.com"
unfolding splitting
splits_host = refl

splits_port :
    port (record { scheme = []; netloc = text "[::1]:8443"; path = []; query = []; fragment = [] })
    ≡ some (some 8443)
unfolding splitting
splits_port = refl

unclosed : urlsplit (text "http://[::1/") ≡ none
unfolding splitting
unclosed = refl
