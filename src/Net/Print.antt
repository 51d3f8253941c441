-- ===== src/Net/Print.antt =====
-- Python's `str` of a number and of an `IPv6Address`.
use vardr_map.Base.{
  ℕ, zero, suc, ◌+◌, ◌-◌, ◌*◌, ◌/◌, ◌%◌, ◌^◌, ◌==◌, true, false, ltb, List, [], ◌∷◌, ◌++◌, map,
  take, drop, if◌then◌else◌, ◌≡◌, refl,
}
use vardr_map.Text.{Text, text}

-- The digits of a number, before those that are there; the number is fuel enough.
abbrev pub digits_before : ℕ → ℕ → Text → Text
digits_before zero n digits = (b'0' + n) ∷ digits
digits_before (suc fuel) n digits = elim (ltb n 10) [
  | true ↦ (b'0' + n) ∷ digits
  | false ↦ digits_before fuel (n / 10) ((b'0' + n % 10) ∷ digits)
]

abbrev pub str_nat : ℕ → Text
str_nat n = digits_before n n []

abbrev hex_digit : ℕ → ℕ
hex_digit d = if ltb d 10 then b'0' + d else b'a' + (d - 10)

-- `"%x"` of a number below 65536
abbrev pub str_hex : ℕ → Text
str_hex n =
    if ltb n 16
    then hex_digit n ∷ []
    else if ltb n 256
    then hex_digit (n / 16) ∷ hex_digit (n % 16) ∷ []
    else if ltb n 4096
    then hex_digit (n / 256) ∷ hex_digit (n / 16 % 16) ∷ hex_digit (n % 16) ∷ []
    else hex_digit (n / 4096)
      ∷ hex_digit (n / 256 % 16)
      ∷ hex_digit (n / 16 % 16)
      ∷ hex_digit (n % 16)
      ∷ []

abbrev pub hextets_of : ℕ → List ℕ
hextets_of n =
    n / 65536 ^ 7 % 65536
    ∷ n / 65536 ^ 6 % 65536
    ∷ n / 65536 ^ 5 % 65536
    ∷ n / 65536 ^ 4 % 65536
    ∷ n / 65536 ^ 3 % 65536
    ∷ n / 65536 ^ 2 % 65536
    ∷ n / 65536 % 65536
    ∷ n % 65536
    ∷ []

-- The longest run of zeros, the first of those: where it starts and how long it is. The arguments
-- are the index, the length of the present run, and the best run so far.
abbrev pub longest_run : ℕ → ℕ → ℕ × ℕ → List ℕ → ℕ × ℕ
longest_run i n best [] = best
longest_run i n best (h ∷ hs) =
    let longer =
      longest_run (suc i) (suc n) (if ltb best.1 (suc n) then (i - n, suc n) else best) hs in
    let broken = longest_run (suc i) 0 best hs in if h == 0 then longer else broken

abbrev pub join_colons : List Text → Text
join_colons [] = []
join_colons (t ∷ []) = t
join_colons (t ∷ u ∷ ts) = t ++ (b':' ∷ join_colons (u ∷ ts))

-- `_compress_hextets`
abbrev pub compress : ℕ × ℕ → List Text → Text
compress best parts =
    if ltb 1 best.1
    then join_colons (take best.0 parts) ++ text "::" ++ join_colons (drop (best.0 + best.1) parts)
    else join_colons parts

unfoldable pub str_v6 : ℕ → Text
str_v6 n = compress (longest_run 0 0 (0, 0) (hextets_of n)) (map str_hex (hextets_of n))

prints_port : str_nat 8443 ≡ text "8443"
prints_port = refl

prints_loopback : str_v6 1 ≡ text "::1"
unfolding str_v6
prints_loopback = refl

prints_zeros : str_v6 (8193 * 65536 ^ 7 + 255 * 65536 ^ 3 + 10) ≡ text "2001::ff:0:0:a"
unfolding str_v6
prints_zeros = refl
