-- ===== src/Jobs/Create/Ceiling.antt =====
-- The rate of a queued job stays under its engagement's ceiling.
use mathlib.Core.Path.{subst}
use mathlib.Core.Bool.{false≢true}
use vardr_map.Base.{
  ℕ, ◌≤◌, ◌≡◌, refl, String, Bool, true, false, not, ◌||◌, Option, none, some, arith, ltb, min,
  if◌then◌else◌, str_eq, eq_iff, Bool-cases, inl, inr,
}
use vardr_map.Text.{Text, text, eqb}
use vardr_map.Text.Laws.{eqb_iff}
use vardr_map.Json
use vardr_map.Json.{ℤ, pos, negsuc, Value, num, Fields, end, field, find, is_blank, set_field}
use vardr_map.Store.{bad_request, ok, raise_if, ok-injective, err-ne-ok, bind_passed}
use vardr_map.Jobs.Config.{
  int_bounds, ints_in_bounds, passes, is_between, validate_values, validate_job_config,
}
use vardr_map.Jobs.Create.{job_config, is_given}
use vardr_map.Jobs.Config.Rate.{default_rate, enforce_rate_ceiling, enforce, cap_rate, check_rate}

-- The value of a key is the one that was written last.
find-set_field : (k : Text) (v : Value) (fs : Fields) → find k (set_field k v fs) ≡ some v
unfolding set_field
find-set_field k v end = let same = (eqb_iff k k).1 refl in ground (arith, same)
find-set_field k v (field j w fs) = elim (Bool-cases (eqb j k)) [
  | inl e ↦ ground (arith, e)
  | inr e ↦ ground (arith, e, find-set_field k v fs)
]

abbrev RatePasses : Fields → Type 0
RatePasses config =
    passes true (λ v. is_between 1 1000 (Json.int v)) (find (text "rate") config) ≡ true

-- Each tool with a default rate has the bounds of a rate.
rate-bounded :
    (tool : String) (config : Fields) {d : ℕ}
    → default_rate tool ≡ some d
    → ints_in_bounds (int_bounds tool) config ≡ true
    → RatePasses config
unfolding default_rate ints_in_bounds int_bounds
rate-bounded tool config h k = elim (Bool-cases (str_eq tool "httpx")) [
  | inl e ↦ at "httpx" ((eq_iff tool "httpx").0 e) (λ b. ground arith)
  | inr n1 ↦ elim (Bool-cases (str_eq tool "nuclei")) [
    | inl e ↦ at "nuclei" ((eq_iff tool "nuclei").0 e) (λ b. ground arith)
    | inr n2 ↦ elim (Bool-cases (str_eq tool "katana")) [
      | inl e ↦ at "katana" ((eq_iff tool "katana").0 e) (λ b. ground arith)
      | inr n3 ↦ elim (Bool-cases (str_eq tool "ffuf")) [
        | inl e ↦ at "ffuf" ((eq_iff tool "ffuf").0 e) (λ b. ground arith)
        | inr n4 ↦ absurd (ground arith)
      ]
    ]
  ]
]
  where
    at :
        (name : String)
        → tool ≡ name
        → (ints_in_bounds (int_bounds name) config ≡ true → RatePasses config)
        → RatePasses config
    at name e f = f (subst (λ t. ints_in_bounds (int_bounds t) config ≡ true) e k)

-- A rate that is a number and not above the ceiling.
abbrev pub IsCapped : ℕ → Fields → Type 0
IsCapped ceiling config =
    (v : Value) × (n : ℕ) × (find (text "rate") config ≡ some v)
    × (Json.int v ≡ some (pos n))
    × (n ≤ ceiling)

-- The ceiling is written where the job gives no rate.
written :
    (ceiling d : ℕ) (config : Fields) {config' : Fields}
    → ok (set_field (text "rate") (num (pos (min d ceiling))) config) ≡ ok config'
    → IsCapped ceiling config'
unfolding Json.int
written ceiling d config h = subst (IsCapped ceiling) (ok-injective h) (
  num (pos (min d ceiling)),
  min d ceiling,
  find-set_field (text "rate") _ config,
  refl,
  omega arith,
)

-- A rate that is given and that passes both checks.
kept :
    (ceiling : ℕ) (config : Fields) (raw : Value) (o : Option ℤ) {config' : Fields}
    → find (text "rate") config ≡ some raw
    → Json.int raw ≡ o
    → is_between 1 1000 o ≡ true
    → check_rate ceiling o config ≡ ok config'
    → IsCapped ceiling config'
kept ceiling config raw none e m q k = absurd (false≢true q)
kept ceiling config raw (some (negsuc n)) e m q k = absurd (false≢true q)
kept ceiling config raw (some (pos n)) e m q k = elim (Bool-cases (ltb ceiling n)) [
  | inl above ↦ absurd (err-ne-ok (rw above at k))
  | inr below ↦ subst (IsCapped ceiling) (ok-injective (rw below at k)) (raw, n, e, m, ground arith)
]

cap_rate-IsCapped :
    (ceiling d : ℕ) (config : Fields) (o : Option Value) {config' : Fields}
    → find (text "rate") config ≡ o
    → passes true (λ v. is_between 1 1000 (Json.int v)) o ≡ true
    → cap_rate ceiling d o config ≡ ok config'
    → IsCapped ceiling config'
unfolding Json.int
cap_rate-IsCapped ceiling d config none e p h = written ceiling d config h
cap_rate-IsCapped ceiling d config (some raw) e p h = elim (Bool-cases (is_blank raw)) [
  | inl b ↦ written ceiling d config (rw b at h)
  | inr b ↦
      kept ceiling config raw (Json.int raw) e refl
        (subst (λ c. (c || is_between 1 1000 (Json.int raw)) ≡ true) b p) (rw b at h)
]

-- The last of the checks of `_validate_job_config`.
validated-bounds :
    (repr : Value → Text) (tool : String) (config : Fields) {u : Unit {0}}
    → validate_job_config repr tool config ≡ ok u
    → ints_in_bounds (int_bounds tool) config ≡ true
unfolding validate_job_config
validated-bounds repr tool config {u} h =
    let (_, _, h1) = bind_passed (validate_values repr tool config) _ h in
    checked (ints_in_bounds (int_bounds tool) config) h1
  where
    checked : (b : Bool) → raise_if (not b) bad_request ≡ ok u → b ≡ true
    checked true h = refl
    checked false h = absurd (err-ne-ok h)

-- Where an engagement has a ceiling and the tool sends traffic at a rate, the config that is stored
-- for a queued job states a rate, a number that is not above the ceiling.
pub job_config-IsCapped :
    (repr : Value → Text) (ceiling d : ℕ) (tool : String) (config config' : Fields)
    → default_rate tool ≡ some d
    → job_config repr (some ceiling) tool config ≡ ok config'
    → IsCapped ceiling config'
unfolding job_config enforce_rate_ceiling
job_config-IsCapped repr ceiling d tool config config' has h =
    let (_, checked, h1) =
      bind_passed (if is_given config then validate_job_config repr tool config else ok tt) _ h in
    cap_rate-IsCapped ceiling d config (find (text "rate") config) refl (passes_rate config checked)
      (subst (λ o. enforce (some ceiling) o config ≡ ok config') has h1)
  where
    passes_rate :
        (fs : Fields)
        → (if is_given fs then validate_job_config repr tool fs else ok tt) ≡ ok tt
        → RatePasses fs
    passes_rate end k = refl
    passes_rate (field key v fs) k =
        rate-bounded tool (field key v fs) has (validated-bounds repr tool (field key v fs) k)
