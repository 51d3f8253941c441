-- ===== src/Assessment/Judged.antt =====
-- backend/assessments.py: what an evaluated identity rests on, before the scanner's rows are read.
use mathlib.Core.Bool.{false≢true}
use vardr_map.Base.{
  ◌≡◌, refl, ap, sym, ◌∙◌, Bool, true, false, not, ◌&&◌, ◌||◌, Option, none, some, List, [], ◌∷◌,
  arith, if◌then◌else◌, Bool-cases, inl, inr,
}
use vardr_map.Text.{Text, text, eqb}
use vardr_map.Json.{Value, Fields, get, as_text}
use vardr_map.Assessment.Case.{
  State, evaluated, inconclusive, state_eq, Item, settle, is_evaluated, is_skipped, reported_for,
  has_error, expected_for, id_of,
}
use vardr_map.Assessment.Judge.{
  judge_row, judge_rows, judge, is_allow, is_deny, first_item, decision_for, outcome_of,
}

-- The expectation was reviewed: it is neither skipped nor unknown.
abbrev pub is_reviewed : Item → Bool
is_reviewed item =
    not (eqb item.expected_decision (text "skip") || eqb item.expected_decision (text "unknown"))

-- The decision that the item stands for: the scanner's, or else the HTTP outcome.
abbrev pub allows : Option Text → Text → Bool
allows none outcome = eqb outcome (text "allow")
allows (some d) outcome = eqb d (text "allowed")

abbrev pub shows_allow : Item → Bool
shows_allow item = allows item.reported_decision item.observed_outcome

-- The spec has exactly one row of expected access for the item's identity, the item's decision is
-- that row's, and it is reviewed.
abbrev pub IsReviewed : Fields → Item → Type 0
IsReviewed spec item =
    (e : Fields) × (expected_for item.identity_id spec ≡ e ∷ [])
    × (item.expected_decision ≡ as_text (get (text "decision") e))
    × (is_reviewed item ≡ true)

-- An evaluated item has a reviewed expectation, and if that is to allow then it was allowed.
pub record IsSupported (spec : Fields) (item : Item) : Type 0 where
  pub reviewed : is_evaluated item ≡ true → IsReviewed spec item
  pub allowed :
      is_evaluated item ≡ true
      → eqb item.expected_decision (text "allow") ≡ true
      → shows_allow item ≡ true

pub settled-IsSupported :
    {spec : Fields} (state : State) (reason : Text) (item : Item)
    → state_eq state evaluated ≡ false
    → IsSupported spec (settle state reason item)
settled-IsSupported state reason item h = record {
  reviewed = λ e. absurd (false≢true (sym h ∙ e));
  allowed = λ e. absurd (false≢true (sym h ∙ e));
}

-- The tests of `judge_row`, whatever they test.
judged :
    (fault allow deny expects_allow : Bool) (a b c d : Text)
    → state_eq
        (if◌then◌else◌ {A = State × Text} fault
          (inconclusive, a)
          (if not (allow || deny)
            then (inconclusive, b)
            else if expects_allow && not allow
            then (inconclusive, c)
            else (evaluated, d))).0
        evaluated
      ≡ true
    → expects_allow ≡ true
    → allow ≡ true
judged fault allow deny expects_allow a b c d h k = ground arith

and_right : (a b : Bool) → (a && b) ≡ true → b ≡ true
and_right a b h = ground arith

judge_row-allowed :
    (spec : Fields) (decision outcome : Text) (row : Fields)
    → state_eq (judge_row spec decision outcome row).0 evaluated ≡ true
    → eqb decision (text "allow") ≡ true
    → eqb outcome (text "allow") ≡ true
unfolding judge_row
judge_row-allowed spec decision outcome row h k = and_right _ (eqb outcome (text "allow")) (
    judged (has_error row) (is_allow row outcome) (is_deny spec row outcome)
      (eqb decision (text "allow")) _ _ _ _ h k)

judge_rows-allowed :
    (spec : Fields) (decision outcome : Text) (rows : List Fields)
    → state_eq (judge_rows spec decision outcome rows).0 evaluated ≡ true
    → eqb decision (text "allow") ≡ true
    → eqb outcome (text "allow") ≡ true
judge_rows-allowed spec decision outcome [] h k = absurd (false≢true h)
judge_rows-allowed spec decision outcome (row ∷ []) h k =
    judge_row-allowed spec decision outcome row h k
judge_rows-allowed spec decision outcome (_ ∷ _ ∷ _) h k = absurd (false≢true h)

judge-reviewed :
    (spec : Fields) (decision outcome : Text) (rows : List Fields)
    → state_eq (judge spec decision outcome rows).0 evaluated ≡ true
    → (not (eqb decision (text "skip") || eqb decision (text "unknown")) ≡ true)
      × (state_eq (judge_rows spec decision outcome rows).0 evaluated ≡ true)
unfolding judge
judge-reviewed spec decision outcome rows h =
    elim (Bool-cases (eqb decision (text "skip") || eqb decision (text "unknown"))) [
      | inl e ↦ absurd (false≢true (rw e at h))
      | inr e ↦ (ap not e, rw e at h)
    ]

-- A decision that is neither skipped nor unknown is that of a single row.
decision_for-single :
    (repr : Value → Text) (es : List Fields)
    → not (eqb (decision_for repr es) (text "skip") || eqb (decision_for repr es) (text "unknown"))
      ≡ true
    → (e : Fields) × (es ≡ e ∷ []) × (decision_for repr es ≡ as_text (get (text "decision") e))
decision_for-single repr [] h = absurd (false≢true h)
decision_for-single repr (e ∷ []) h = (e, refl, refl)
decision_for-single repr (_ ∷ _ ∷ _) h = absurd (false≢true h)

pub first_item-IsSupported :
    (repr : Value → Text) (spec : Fields) (executions : List Fields) (identity : Fields)
    → IsSupported spec (first_item repr spec executions identity)
unfolding first_item
first_item-IsSupported repr spec executions identity =
    let rows = reported_for repr (id_of identity) executions in
    let decision = decision_for repr (expected_for (id_of identity) spec) in
    let outcome = outcome_of repr rows in
    record {
      reviewed = λ e.
          let r = (judge-reviewed spec decision outcome rows e).0 in
          let (row, only, same) = decision_for-single repr (expected_for (id_of identity) spec) r in
          (row, only, same, r);
      allowed = λ e k.
          judge_rows-allowed spec decision outcome rows
            (judge-reviewed spec decision outcome rows e).1 k;
    }

-- What is not skipped at first has a reviewed expectation.
pub first_item-IsReviewed :
    (repr : Value → Text) (spec : Fields) (executions : List Fields) (identity : Fields)
    → is_skipped (first_item repr spec executions identity) ≡ false
    → IsReviewed spec (first_item repr spec executions identity)
unfolding first_item judge
first_item-IsReviewed repr spec executions identity h =
    elim (Bool-cases (is_reviewed (first_item repr spec executions identity))) [
      | inl r ↦
          let (row, only, same) = decision_for-single repr (expected_for (id_of identity) spec) r in
          (row, only, same, r)
      | inr e ↦ absurd (false≢true (sym h ∙ ground arith))
    ]
