-- ===== src/TestCases/Size.antt =====
-- The size in bytes of `json.dumps(value, separators=(",", ":"))`, which escapes all but the
-- printable ASCII characters.
use vardr_map.Base.{
  ℕ, zero, suc, ◌+◌, ◌/◌, ◌==◌, ◌||◌, ◌&&◌, ltb, leb, Bool, true, false, [], ◌∷◌, if◌then◌else◌,
  ◌≡◌, refl,
}
use vardr_map.Text.{Text, text}
use vardr_map.Json.{
  Value, str, num, bool, null, obj, arr, pos, negsuc, ℤ, Fields, field, end, Items, cons, nil,
}

abbrev pub is_short_escape : ℕ → Bool
is_short_escape c = c == 34 || c == 92 || (leb 8 c && leb c 10) || c == 12 || c == 13

abbrev pub char_size : ℕ → ℕ
char_size c =
    if is_short_escape c
    then 2
    else if leb 32 c && leb c 126
    then 1
    else if ltb c 65536
    then 6
    else 12

abbrev pub chars_size : Text → ℕ
chars_size [] = 2
chars_size (c ∷ s) = char_size c + chars_size s

-- The decimal digits of a number; the number itself is fuel enough.
abbrev pub digits_size : ℕ → ℕ → ℕ
digits_size zero n = 1
digits_size (suc fuel) n = elim (ltb n 10) [ true ↦ 1 | false ↦ suc (digits_size fuel (n / 10)) ]

abbrev pub number_size : ℤ → ℕ
number_size (pos n) = digits_size n n
number_size (negsuc n) = 1 + digits_size (n + 1) (n + 1)

abbrev mutual
  pub value_size : Value → ℕ
  value_size (str s) = chars_size s
  value_size (num n) = number_size n
  value_size (bool b) = if b then 4 else 5
  value_size null = 4
  value_size (obj fs) = fields_size fs
  value_size (arr vs) = items_size vs

  -- An object: the brackets and, after each entry, a comma or the last bracket.
  pub fields_size : Fields → ℕ
  fields_size end = 2
  fields_size (field k v end) = 2 + chars_size k + 1 + value_size v
  fields_size (field k v (field l w fs)) =
      chars_size k + 2 + value_size v + fields_size (field l w fs)

  pub items_size : Items → ℕ
  items_size nil = 2
  items_size (cons v nil) = 2 + value_size v
  items_size (cons v (cons w vs)) = value_size v + 1 + items_size (cons w vs)

dumps :
    value_size (
      obj (
        field
          (text "a")
          (arr (cons (num (pos 120)) (cons null nil)))
          (field (text "b\n") (bool true) end)))
    ≡ 27
dumps = refl
