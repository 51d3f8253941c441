-- ===== src/Json.antt =====
-- Decoded JSON values as Python holds them, and Python's `bool` and `int` on them. A float is
-- left out: no field that the modelled code reads is meant to be one.
use vardr_map.Base.{
  ◌≡◌, refl, ℕ, ◌+◌, ◌*◌, ◌-◌, Bool, true, false, not, ◌&&◌, Option, none, some, List, [], ◌∷◌,
  ◌==◌, leb, if◌then◌else◌,
}
use vardr_map.Text.{Text, text, eqb, strip, is_digit}

-- A whole number: `negsuc n` is -(n + 1).
pub data ℤ : Type 0 where
  pos : ℕ → ℤ
  negsuc : ℕ → ℤ

mutual
  -- The entries of an object, in their order.
  pub data Fields : Type 0 where
    field : (key : Text) → (value : Value) → (others : Fields) → Fields
    end : Fields

  -- The elements of an array.
  pub data Items : Type 0 where
    cons : (first : Value) → (others : Items) → Items
    nil : Items

  pub data Value : Type 0 where
    str : Text → Value
    num : ℤ → Value
    bool : Bool → Value
    null : Value
    obj : Fields → Value
    arr : Items → Value

-- `d.get(k)`, with `none` for a missing key
abbrev pub find : Text → Fields → Option Value
find k end = none
find k (field j v fs) = if eqb j k then some v else find k fs

abbrev pub keys : Fields → List Text
keys end = []
keys (field k _ fs) = k ∷ keys fs

-- `d.get(k)`, with `null` for Python's `None`
abbrev pub or_null : Option Value → Value
or_null none = null
or_null (some v) = v

abbrev pub get : Text → Fields → Value
get k fs = or_null (find k fs)

-- The dictionary, or the list, that a value is, or an empty one.
abbrev pub fields_of : Value → Fields
fields_of (obj fs) = fs
fields_of v = end

-- `d[k] = v`
unfoldable pub set_field : Text → Value → Fields → Fields
set_field k v end = field k v end
set_field k v (field j w fs) = if eqb j k then field j v fs else field j w (set_field k v fs)

abbrev pub items : Items → List Value
items nil = []
items (cons v vs) = v ∷ items vs

abbrev pub items_of : Value → List Value
items_of (arr vs) = items vs
items_of v = []

abbrev pub is_list : Value → Bool
is_list (arr vs) = true
is_list v = false

abbrev pub dict_at : Text → Fields → Fields
dict_at k fs = fields_of (get k fs)

abbrev pub list_at : Text → Fields → List Value
list_at k fs = items_of (get k fs)

abbrev pub is_text : Text → Value → Bool
is_text t (str s) = eqb s t
is_text t v = false

-- A text, or an empty one for any other value.
abbrev pub as_text : Value → Text
as_text (str s) = s
as_text v = []

-- A number that is not negative.
abbrev pub natural : Value → Option ℕ
natural (num (pos n)) = some n
natural v = none

abbrev pub has_value : Option ℕ → ℕ → Bool
has_value none n = false
has_value (some m) n = m == n

abbrev pub in_range : ℕ → ℕ → Option ℕ → Bool
in_range low high none = false
in_range low high (some n) = leb low n && leb n high

-- `a == b` on what can be a key: two scalars. Python takes `True` for 1, which is left out.
abbrev pub same_value : Value → Value → Bool
same_value null null = true
same_value (bool true) (bool b) = b
same_value (bool false) (bool b) = not b
same_value (num (pos m)) (num (pos n)) = m == n
same_value (num (negsuc m)) (num (negsuc n)) = m == n
same_value (str s) (str t) = eqb s t
same_value v w = false

-- What a number or a Boolean counts as.
abbrev pub as_number : Value → Option ℤ
as_number (num n) = some n
as_number (bool b) = some (pos (if b then 1 else 0))
as_number v = none

abbrev pub integer_eq : ℤ → ℤ → Bool
integer_eq (pos m) (pos n) = m == n
integer_eq (negsuc m) (negsuc n) = m == n
integer_eq _ _ = false

abbrev pub number_eq : Option ℤ → Option ℤ → Bool
number_eq (some m) (some n) = integer_eq m n
number_eq _ _ = false

abbrev pub fields_count : Fields → ℕ
fields_count end = 0
fields_count (field k v fs) = fields_count fs + 1

abbrev pub has_key : Option Value → Bool
has_key none = false
has_key (some v) = true

-- `a == b`: the order of a dictionary's entries does not count.
abbrev mutual
  pub value_eq : Value → Value → Bool
  value_eq (str s) w = is_text s w
  value_eq (num n) w = number_eq (some n) (as_number w)
  value_eq (bool b) w = number_eq (some (pos (if b then 1 else 0))) (as_number w)
  value_eq null null = true
  value_eq null w = false
  value_eq (obj fs) (obj gs) = fields_count fs == fields_count gs && fields_within fs gs
  value_eq (obj fs) w = false
  value_eq (arr vs) (arr ws) = items_eq vs ws
  value_eq (arr vs) w = false

  pub fields_within : Fields → Fields → Bool
  fields_within end gs = true
  fields_within (field k v fs) gs =
      has_key (find k gs) && value_eq v (or_null (find k gs)) && fields_within fs gs

  pub items_eq : Items → Items → Bool
  items_eq nil nil = true
  items_eq nil (cons w ws) = false
  items_eq (cons v vs) nil = false
  items_eq (cons v vs) (cons w ws) = value_eq v w && items_eq vs ws

-- `bool(v)`
abbrev pub truthy : Value → Bool
truthy null = false
truthy (bool b) = b
truthy (num (pos n)) = not (n == 0)
truthy (num (negsuc n)) = true
truthy (str s) = not (eqb s [])
truthy (arr nil) = false
truthy (arr (cons _ _)) = true
truthy (obj end) = false
truthy (obj (field _ _ _)) = true

-- `str(v)`, and `str(v or "")`; Python's text of a value that is no text is a parameter.
abbrev pub to_str : (Value → Text) → Value → Text
to_str repr (str s) = s
to_str repr v = repr v

abbrev pub str_or : (Value → Text) → Text → Value → Text
str_or repr default v = if truthy v then to_str repr v else default

-- `v in (None, "")`
abbrev pub is_blank : Value → Bool
is_blank null = true
is_blank (str s) = eqb s []
is_blank _ = false

abbrev pub negate : ℕ → ℤ
negate n = if n == 0 then pos 0 else negsuc (n - 1)

-- Digits with single underscores between them, as `int` reads them.
digits_after : ℕ → Text → Option ℕ
digits_after n [] = some n
digits_after n (c ∷ []) = if is_digit c then some (n * 10 + (c - b'0')) else none
digits_after n (c ∷ d ∷ s) =
    let plain = digits_after (n * 10 + (c - b'0')) (d ∷ s) in
    let joined = digits_after (n * 10 + (d - b'0')) s in
    if is_digit c then plain else if c == b'_' && is_digit d then joined else none

unsigned : Text → Option ℕ
unfolding digits_after
unsigned [] = none
unsigned (c ∷ s) = if is_digit c then digits_after (c - b'0') s else none

signed : Text → Option ℤ
unfolding unsigned
signed [] = none
signed (c ∷ s) =
    if c == b'-'
    then elim (unsigned s) [ none ↦ none | some n ↦ some (negate n) ]
    else if c == b'+'
    then elim (unsigned s) [ none ↦ none | some n ↦ some (pos n) ]
    else elim (unsigned (c ∷ s)) [ none ↦ none | some n ↦ some (pos n) ]

-- `int(v)`; `none` stands for a `TypeError` or a `ValueError`
unfoldable pub int : Value → Option ℤ
unfolding signed strip
int (num n) = some n
int (bool b) = some (pos (if b then 1 else 0))
int (str s) = signed (strip s)
int _ = none

underscore : int (str (text " -1_000 ")) ≡ some (negsuc 999)
unfolding int
underscore = refl
