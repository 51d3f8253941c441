-- ===== src/Policy/Normal.antt =====
-- backend/policy.py: scheme, credentials, port and path do not take part in the comparison of hosts.
use mathlib.Core.List.{append-nil}
use vardr_map.Base.{
  suc, ℕ, ◌≡◌, refl, sym, ap, ◌∙◌, Bool, true, false, not, ◌&&◌, some, [], ◌∷◌, ◌++◌, arith, ◌==◌,
  all,
}
use vardr_map.Text.{
  Text, text, eqb, before, contains_text, after_text, is_space, rdrop_while, strip, rstrip, lower,
  is_digit, count_char, starts_with,
}
use vardr_map.Text.Scan.{
  lacks, all_mono, all-append, before-skip, count_char-skip, before-lacks, contains-lacks,
  count_char-lacks, starts_with-lacks, contains_text-skip, after_text-skip, contains_text-lacks,
  rdrop_while-skip, no_space, strip-skip, strip-lacks,
}
use vardr_map.Policy.Target.{
  scheme_mark, without_scheme, without_credentials, host_of, classify, normalize_target, read_host,
}

-- A character of a scheme, of a host name or of an IPv4 address.
abbrev pub is_plain : ℕ → Bool
is_plain c =
    not (is_space c) && not (c == b'/') && not (c == b'@') && not (c == b':') && not (c == b'[')

abbrev pub plain : Text → Bool
plain s = all is_plain s

-- `scheme://authority/path`
abbrev pub url : Text → Text → Text → Text
url scheme authority path = scheme ++ (scheme_mark ++ (authority ++ (b'/' ∷ path)))

plain-lacks : (c : ℕ) (s : Text) → is_plain c ≡ false → plain s ≡ true → lacks c s ≡ true
plain-lacks c s k h = all_mono is_plain _ s (λ d e. ground arith) h

plain-no_space : (s : Text) → plain s ≡ true → no_space s ≡ true
plain-no_space s h = all_mono is_plain _ s (λ d e. ground arith) h

digit_lacks : (c : ℕ) (s : Text) → is_digit c ≡ false → all is_digit s ≡ true → lacks c s ≡ true
digit_lacks c s k h = all_mono is_digit _ s (λ d e. ground arith) h

strip-url :
    (scheme authority path : Text)
    → plain scheme ≡ true
    → no_space authority ≡ true
    → strip (url scheme authority path) ≡ url scheme authority (rdrop_while is_space path)
strip-url scheme authority path h k =
    strip-skip scheme b':' (text "//" ++ (authority ++ (b'/' ∷ path))) (plain-no_space scheme h)
      refl
    ∙ ap (λ (t : Text). scheme ++ t)
        (rdrop_while-skip is_space scheme_mark (authority ++ (b'/' ∷ path)) refl
          ∙ ap (λ (t : Text). scheme_mark ++ t)
              (rdrop_while-skip is_space authority (b'/' ∷ path) k
                ∙ ap (λ (t : Text). authority ++ t)
                    (rdrop_while-skip is_space (b'/' ∷ []) path refl)))

without_scheme-url :
    (scheme authority path : Text)
    → plain scheme ≡ true
    → without_scheme (url scheme authority path) ≡ authority ++ (b'/' ∷ path)
unfolding without_scheme starts_with contains_text after_text
without_scheme-url scheme authority path h =
    let rest = scheme_mark ++ (authority ++ (b'/' ∷ path)) in
    let free = plain-lacks b':' scheme refl h in
    rw (contains_text-skip b':' scheme rest (text "//") free)
      (after_text-skip b':' scheme rest (text "//") free)

eqb-url : (scheme authority path : Text) → eqb (url scheme authority path) [] ≡ false
eqb-url [] authority path = refl
eqb-url (c ∷ s) authority path = refl

before-slash : (s path : Text) → s ++ before b'/' (b'/' ∷ path) ≡ s
unfolding before
before-slash s path = append-nil s

without_credentials-lacks :
    (authority rest : Text)
    → before b'/' (authority ++ rest) ≡ authority
    → lacks b'@' authority ≡ true
    → without_credentials (authority ++ rest) ≡ authority ++ rest
unfolding without_credentials
without_credentials-lacks authority rest e h = rw (e, contains-lacks b'@' authority h)

-- With an authority that has no white space, no "/" and no "@" the host is read from it alone.
normalize_target-authority :
    (scheme authority path : Text)
    → plain scheme ≡ true
    → no_space authority ≡ true
    → lacks b'/' authority ≡ true
    → lacks b'@' authority ≡ true
    → normalize_target (url scheme authority path) ≡ read_host (host_of authority)
unfolding normalize_target
normalize_target-authority scheme authority path h k no_slash no_at =
    let path' = rdrop_while is_space path in
    let front : before b'/' (authority ++ (b'/' ∷ path')) ≡ authority =
      before-skip b'/' authority (b'/' ∷ path') no_slash ∙ before-slash authority path' in
    rw (
      strip-url scheme authority path h k,
      eqb-url scheme authority path',
      without_scheme-url scheme authority path' h,
      without_credentials-lacks authority (b'/' ∷ path') front no_at,
      front,
    )

count_char-colon : (port : Text) → all is_digit port ≡ true → count_char b':' (b':' ∷ port) ≡ 1
unfolding count_char
count_char-colon port d = ap suc (count_char-lacks b':' port (digit_lacks b':' port refl d))

before-colon : (host port : Text) → host ++ before b':' (b':' ∷ port) ≡ host
unfolding before
before-colon host port = append-nil host

starts_with-colon : (port : Text) → starts_with (b':' ∷ port) (text "[") ≡ false
unfolding starts_with
starts_with-colon port = refl

starts_with-nil : starts_with [] (text "[") ≡ false
unfolding starts_with
starts_with-nil = refl

host_of-port :
    (host port : Text)
    → plain host ≡ true
    → all is_digit port ≡ true
    → host_of (host ++ (b':' ∷ port)) ≡ some host
unfolding host_of
host_of-port host port h d =
    let no_colon = plain-lacks b':' host refl h in
    let one : count_char b':' (host ++ (b':' ∷ port)) ≡ 1 =
      count_char-skip b':' host (b':' ∷ port) no_colon ∙ count_char-colon port d in
    let front : before b':' (host ++ (b':' ∷ port)) ≡ host =
      before-skip b':' host (b':' ∷ port) no_colon ∙ before-colon host port in
    rw (
      starts_with-lacks b'[' host (b':' ∷ port) (plain-lacks b'[' host refl h)
          (starts_with-colon port),
      one,
      front,
    )

host_of-plain : (host : Text) → plain host ≡ true → host_of host ≡ some host
unfolding host_of
host_of-plain host h =
    let bare : starts_with host (text "[") ≡ false =
      ap (λ (t : Text). starts_with t (text "[")) (sym (append-nil host))
      ∙ starts_with-lacks b'[' host [] (plain-lacks b'[' host refl h) starts_with-nil in
    rw (bare, count_char-lacks b':' host (plain-lacks b':' host refl h))

normalize_target-plain :
    (host : Text) → plain host ≡ true → normalize_target host ≡ read_host (some host)
unfolding normalize_target without_scheme without_credentials
normalize_target-plain [] h = unfold classify strip lower rstrip in refl
normalize_target-plain (c ∷ s) h =
    let host = c ∷ s in
    rw (
      strip-lacks host (plain-no_space host h),
      contains_text-lacks b':' host (text "//") (plain-lacks b':' host refl h),
      before-lacks b'/' host (plain-lacks b'/' host refl h),
      contains-lacks b'@' host (plain-lacks b'@' host refl h),
      before-lacks b'/' host (plain-lacks b'/' host refl h),
      host_of-plain host h,
    )

lacks-port :
    (c : ℕ) (host port : Text)
    → is_plain c ≡ false
    → not (b':' == c) && not (is_digit c) ≡ true
    → plain host ≡ true
    → all is_digit port ≡ true
    → lacks c (host ++ (b':' ∷ port)) ≡ true
lacks-port c host port k m h d =
    all-append (λ e. not (e == c)) host (b':' ∷ port) (plain-lacks c host k h)
      (ground (arith, digit_lacks c port))

no_space-port :
    (host port : Text)
    → plain host ≡ true
    → all is_digit port ≡ true
    → no_space (host ++ (b':' ∷ port)) ≡ true
no_space-port host port h d =
    all-append (λ e. not (is_space e)) host (b':' ∷ port) (plain-no_space host h)
      (all_mono is_digit (λ e. not (is_space e)) port (λ e x. ground arith) d)

-- The host of `scheme://host:port/path` is compared as the bare host is, whatever the scheme, the
-- port and the path are.
pub normalize_target-url :
    (scheme host port path : Text)
    → plain scheme ≡ true
    → plain host ≡ true
    → all is_digit port ≡ true
    → normalize_target (url scheme (host ++ (b':' ∷ port)) path) ≡ normalize_target host
normalize_target-url scheme host port path hs hh hp =
    normalize_target-authority scheme (host ++ (b':' ∷ port)) path hs
      (no_space-port host port hh hp) (lacks-port b'/' host port refl refl hh hp)
      (lacks-port b'@' host port refl refl hh hp)
    ∙ ap read_host (host_of-port host port hh hp)
    ∙ sym (normalize_target-plain host hh)
