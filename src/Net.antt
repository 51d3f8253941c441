-- ===== src/Net.antt =====
-- The part of Python's `ipaddress` that `policy.py` and `assets.py` use: `ip_address`,
-- `ip_network` with `strict=False`, and `address in network`. An invalid text is `none`.
pub mod Print
use vardr_map.Base.{
  ◌≡◌, refl, ◌%◌, ℕ, zero, suc, ◌+◌, ◌*◌, ◌-◌, ◌/◌, ◌^◌, Bool, false, not, ◌&&◌, ◌||◌, Option, none,
  some, List, [], ◌∷◌, ltb, leb, ◌==◌, if◌then◌else◌, length, is_some,
}
use vardr_map.Text.{Text, text, eqb, contains, before, after, split, isdigit, is_digit, to_int}

pub data Address : Type 0 where
  v4 v6 : ℕ → Address

-- `IPv4Address._parse_octet`
octet : Text → Option ℕ
octet [] = none
octet (c ∷ s) =
    if isdigit (c ∷ s)
      && leb (length s) 2
      && (eqb s [] || not (c == b'0'))
      && leb (to_int (c ∷ s)) 255
    then some (to_int (c ∷ s))
    else none

infixl 5 ◌>>=◌
abbrev ◌>>=◌ {ℓ κ} : {A : Type ℓ} {B : Type κ} → Option A → (A → Option B) → Option B
none >>= k = none
some a >>= k = k a

octets : List Text → Option ℕ
unfolding octet
octets (a ∷ b ∷ c ∷ d ∷ []) = do
  w ← octet a
  x ← octet b
  y ← octet c
  z ← octet d
  some (((w * 256 + x) * 256 + y) * 256 + z)
octets _ = none

unfoldable pub ipv4 : Text → Option ℕ
unfolding octets split isdigit to_int
ipv4 s = octets (split b'.' s)

abbrev hex_value : ℕ → Option ℕ
hex_value c =
    if is_digit c
    then some (c - b'0')
    else if leb b'a' c && leb c b'f'
    then some (c - 87)
    else if leb b'A' c && leb c b'F'
    then some (c - 55)
    else none

hex_from : ℕ → Text → Option ℕ
hex_from n [] = some n
hex_from n (c ∷ s) = elim (hex_value c) [ none ↦ none | some d ↦ hex_from (n * 16 + d) s ]

-- `IPv6Address._parse_hextet`
hextet : Text → Option ℕ
unfolding hex_from
hextet [] = none
hextet (c ∷ s) = if leb (length s) 3 then hex_from 0 (c ∷ s) else none

hextets : ℕ → List Text → Option ℕ
unfolding hextet
hextets n [] = some n
hextets n (p ∷ ps) = elim (hextet p) [ none ↦ none | some h ↦ hextets (n * 65536 + h) ps ]

abbrev add_part : Text → List Text × List Text → List Text × List Text
add_part p (hi, lo) = (p ∷ hi, lo)

-- The parts before and after the first empty part that is not the last.
split_gap : List Text → Option (List Text × List Text)
split_gap [] = none
split_gap (p ∷ []) = none
split_gap (p ∷ q ∷ r) =
    if eqb p [] then some ([], q ∷ r) else (do gap ← split_gap (q ∷ r); some (add_part p gap))

-- A leading or trailing empty part stands only next to the gap.
trim_hi : List Text → Option (List Text)
trim_hi ([] ∷ []) = some []
trim_hi ([] ∷ _ ∷ _) = none
trim_hi parts = some parts

trim_lo : List Text → Option (List Text)
trim_lo [] = some []
trim_lo ([] ∷ []) = some []
trim_lo (p ∷ []) = some (p ∷ [])
trim_lo (p ∷ q ∷ r) = do
  rest ← trim_lo (q ∷ r)
  elim rest [ [] ↦ none | x ∷ xs ↦ some (p ∷ x ∷ xs) ]

join_gap : List Text → List Text → Option ℕ
unfolding trim_hi trim_lo hextets
join_gap hi lo = do
  hi' ← trim_hi hi
  lo' ← trim_lo lo
  if ltb 7 (length hi' + length lo')
      then none
      else do h ← hextets 0 hi'; l ← hextets 0 lo'; some (h * 65536 ^ (8 - length hi') + l)

gapped : List Text → List Text → Option ℕ
unfolding split_gap join_gap
gapped hi lo = if is_some (split_gap lo) then none else join_gap hi lo

from_parts : List Text → Option ℕ
unfolding gapped
from_parts [] = none
from_parts (p ∷ ps) = if ltb (length ps) 2 || ltb 8 (length ps) then none else elim (split_gap ps) [
  | some (hi, lo) ↦ gapped (p ∷ hi) lo
  | none ↦ if length ps == 7 then hextets 0 (p ∷ ps) else none
]

hex_digit : ℕ → ℕ
hex_digit d = if ltb d 10 then d + b'0' else d + 87

-- `'%x'` of a number below 65536, padded to four digits.
hex4 : ℕ → Text
unfolding hex_digit
hex4 n =
    hex_digit (n / 4096)
    ∷ hex_digit (n / 256 % 16)
    ∷ hex_digit (n / 16 % 16)
    ∷ hex_digit (n % 16)
    ∷ []

-- A last part in dotted notation stands for two hextets.
expand_dotted : List Text → Option (List Text)
unfolding ipv4 hex4
expand_dotted [] = some []
expand_dotted (p ∷ []) =
    if contains b'.' p
    then (do n ← ipv4 p; some (hex4 (n / 65536) ∷ hex4 (n % 65536) ∷ []))
    else some (p ∷ [])
expand_dotted (p ∷ q ∷ r) = do rest ← expand_dotted (q ∷ r); some (p ∷ rest)

unscoped : Text → Option ℕ
unfolding expand_dotted from_parts split contains
unscoped s =
    let parts = split b':' s in
    if ltb (length parts) 3 then none else (do expanded ← expand_dotted parts; from_parts expanded)

-- `IPv6Address`, with the zone after `%` dropped.
unfoldable pub ipv6 : Text → Option ℕ
unfolding unscoped contains before after
ipv6 s =
    if contains b'%' s
    then (if eqb (after b'%' s) [] || contains b'%' (after b'%' s)
        then none
        else unscoped (before b'%' s))
    else unscoped s

unfoldable pub ip_address : Text → Option Address
unfolding ipv4 ipv6
ip_address s = elim (ipv4 s) [
  | some n ↦ some (v4 n)
  | none ↦ elim (ipv6 s) [ some n ↦ some (v6 n) | none ↦ none ]
]

-- A network is an address and the length of its prefix.
pub record Network : Type 0 where
  pub address : Address
  pub prefix : ℕ

-- `_prefix_from_ip_string`: a netmask, or else a host mask.
mask_prefix : ℕ → ℕ → Option ℕ
mask_prefix zero m = if m == 0 then some 0 else none
mask_prefix (suc k) m = if m == 2 ^ 32 - 2 ^ (31 - k) then some (suc k) else mask_prefix k m

parse_prefix : ℕ → Text → Option ℕ
unfolding isdigit to_int
parse_prefix max_length s = if isdigit s && leb (to_int s) max_length then some (to_int s) else none

v4_prefix : Text → Option ℕ
unfolding parse_prefix mask_prefix ipv4
v4_prefix s = elim (parse_prefix 32 s) [
  | some n ↦ some n
  | none ↦ elim (ipv4 s) [
    | none ↦ none
    | some m ↦ elim (mask_prefix 32 m) [ some n ↦ some n | none ↦ mask_prefix 32 (2 ^ 32 - 1 - m) ]
  ]
]

v4_network : Text → Option Text → Option Network
unfolding v4_prefix
v4_network s none = do n ← ipv4 s; some (record { address = v4 n; prefix = 32 })
v4_network s (some m) = do n ← ipv4 s; p ← v4_prefix m; some (record { address = v4 n; prefix = p })

v6_network : Text → Option Text → Option Network
unfolding parse_prefix ipv6
v6_network s none = do n ← ipv6 s; some (record { address = v6 n; prefix = 128 })
v6_network s (some m) = do
  n ← ipv6 s
  p ← parse_prefix 128 m
  some (record { address = v6 n; prefix = p })

network_of : Text → Option Text → Option Network
unfolding v4_network v6_network
network_of s mask = elim (v4_network s mask) [ some n ↦ some n | none ↦ v6_network s mask ]

unfoldable pub ip_network : Text → Option Network
unfolding network_of contains before after
ip_network s =
    if contains b'/' s
    then (if contains b'/' (after b'/' s)
        then none
        else network_of (before b'/' s) (some (after b'/' s)))
    else network_of s none

same_prefix : Address → Address → ℕ → Bool
same_prefix (v4 a) (v4 b) p = a / 2 ^ (32 - p) == b / 2 ^ (32 - p)
same_prefix (v6 a) (v6 b) p = a / 2 ^ (128 - p) == b / 2 ^ (128 - p)
same_prefix _ _ p = false

-- `address in network`
unfoldable pub within : Address → Network → Bool
unfolding same_prefix
within a n = same_prefix a n.address n.prefix

loopback : ip_address (text "::1") ≡ some (v6 1)
unfolding ip_address
loopback = refl

mapped : ip_address (text "::ffff:10.0.0.1") ≡ some (v6 281470849515521)
unfolding ip_address
mapped = refl

two_gaps : ip_address (text "1::2::3") ≡ none
unfolding ip_address
two_gaps = refl

leading_zero : ip_address (text "010.0.0.1") ≡ none
unfolding ip_address
leading_zero = refl

netmask :
    ip_network (text "10.1.2.3/255.255.0.0") ≡ some (record { address = v4 167838211; prefix = 16 })
unfolding ip_network
netmask = refl
