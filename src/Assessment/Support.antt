-- ===== src/Assessment/Support.antt =====
-- backend/assessments.py: what an evaluated identity rests on.
use mathlib.Core.Path.{subst}
use mathlib.Core.Bool.{false≢true}
use vardr_map.Base.{
  ℕ, ◌≡◌, refl, sym, ◌∙◌, Bool, true, false, not, ◌&&◌, some, List, [], ◌∷◌, arith, map, any,
  select, Bool-cases, ◌⊎◌, inl, inr, All, ◌∈◌, at-All,
}
use vardr_map.Text.{Text, text, eqb}
use vardr_map.Json.{Value, Fields, end, is_text}
use vardr_map.Assessment.Case.{
  State, evaluated, inconclusive, skipped, state_eq, Item, is_evaluated, is_skipped, reported_for,
  identities_of, expected_for, id_of, single,
}
use vardr_map.Assessment.Preflight.{Session, assess_preflight}
use vardr_map.Assessment.Rows.{SemanticRow, safe_semantic_row}
use vardr_map.Assessment.Semantics.{
  is_decided, decision_of, with_row, conclude, is_protected, weigh, index_holds, apply_row,
  apply_rows, apply_semantics,
}
use vardr_map.Assessment.Judge.{first_item}
use vardr_map.Assessment.Credentials.{
  is_rejected, note_credentials, recorded, credential_status_of, note_reader,
}
use vardr_map.Assessment.Assess.{
  demote_evaluated, demote_unskipped, is_established, settled_items, is_baseline, assess,
}
use vardr_map.Assessment.Judged.{
  IsReviewed, IsSupported, allows, first_item-IsSupported, first_item-IsReviewed,
  settled-IsSupported, shows_allow,
}

decision_of-allow :
    (row : SemanticRow)
    → eqb (decision_of row) (text "allow") ≡ true
    → eqb row.decision (text "allowed") ≡ true
decision_of-allow row h = elim (Bool-cases (eqb row.decision (text "allowed"))) [
  | inl e ↦ e
  | inr e ↦ absurd (false≢true (rw e at h))
]

conclude-IsSupported :
    (spec : Fields) (borne_out : Bool) (row : SemanticRow) (item : Item)
    → item.reported_decision ≡ some row.decision
    → IsReviewed spec item
    → IsSupported spec (conclude borne_out row item)
conclude-IsSupported spec false row item d r = settled-IsSupported inconclusive _ item refl
conclude-IsSupported spec true row item d r =
    elim (Bool-cases (eqb item.expected_decision (text "allow"))) [
      | inl e ↦ elim (Bool-cases (eqb (decision_of row) (text "allow"))) [
        | inl k ↦
            rw (e, k)
              (record {
                reviewed = λ _. r;
                allowed = λ _ _.
                    subst (λ o. allows o item.observed_outcome ≡ true) (sym d)
                      (decision_of-allow row k);
              })
        | inr k ↦ rw (e, k) (settled-IsSupported inconclusive _ item refl)
      ]
      | inr e ↦
          rw e (record { reviewed = λ _. r; allowed = λ _ k. absurd (false≢true (sym e ∙ k)) })
    ]

-- A row's metadata says nothing of the HTTP outcome, and its decision is the one that counts.
module _ (spec configured : Fields) (executions : List Fields) (row : SemanticRow) (item : Item)
    (r : IsReviewed spec item) where
  weigh-IsSupported :
      (actual : List Fields)
      → IsSupported spec (weigh spec configured executions row (with_row spec row item) actual)
  weigh-IsSupported [] = settled-IsSupported inconclusive _ (with_row spec row item) refl
  weigh-IsSupported (e ∷ []) =
      elim (Bool-cases (index_holds item.identity_id executions row.execution_index)) [
        | inl k ↦ rw k (conclude-IsSupported spec _ row (with_row spec row item) refl r)
        | inr k ↦ rw k (settled-IsSupported inconclusive _ (with_row spec row item) refl)
      ]
  weigh-IsSupported (_ ∷ _ ∷ _) = settled-IsSupported inconclusive _ (with_row spec row item) refl

module _ (spec configured : Fields) (executions : List Fields) (verified : Bool) (item : Item)
    (known : is_skipped item ≡ false → IsReviewed spec item) where
  skipped-not_evaluated : (s : State) → state_eq s skipped ≡ true → state_eq s evaluated ≡ false
  skipped-not_evaluated s h = ground arith

  apply_row-IsSupported :
      (row : SemanticRow)
      → IsSupported spec (apply_row spec configured executions verified row item)
  unfolding apply_row
  apply_row-IsSupported row = elim (Bool-cases (is_skipped item)) [
    | inl s ↦
        let off = skipped-not_evaluated item.state s in
        rw s (record {
          reviewed = λ e. absurd (false≢true (sym off ∙ e));
          allowed = λ e. absurd (false≢true (sym off ∙ e));
        })
    | inr s ↦ elim (Bool-cases verified) [
      | inr v ↦ rw (s, v) (settled-IsSupported inconclusive _ (with_row spec row item) refl)
      | inl v ↦ elim (Bool-cases (is_decided row.decision)) [
        | inr d ↦ rw (s, v, d) (settled-IsSupported inconclusive _ (with_row spec row item) refl)
        | inl d ↦ rw (s, v, d) (weigh-IsSupported spec configured executions row item (known s) _)
      ]
    ]
  ]

  apply_rows-IsSupported :
      (rows : List SemanticRow)
      → IsSupported spec item
      → IsSupported spec (apply_rows spec configured executions verified item rows)
  apply_rows-IsSupported [] h =
      elim (Bool-cases (is_protected spec configured && not (is_skipped item))) [
        | inl e ↦ rw e (settled-IsSupported inconclusive _ item refl)
        | inr e ↦ rw e h
      ]
  apply_rows-IsSupported (row ∷ []) h =
      elim (Bool-cases (eqb row.expected_access item.expected_decision)) [
        | inl e ↦ rw e (apply_row-IsSupported row)
        | inr e ↦ rw e (settled-IsSupported inconclusive _ item refl)
      ]
  apply_rows-IsSupported (_ ∷ _ ∷ _) h = settled-IsSupported inconclusive _ item refl

note_credentials-IsSupported :
    (repr : Value → Text) (verified : Bool) (spec : Fields) (session : Session)
    (executions : List Fields) (item : Item)
    → IsSupported spec item
    → IsSupported spec (note_credentials repr verified spec session executions item)
unfolding note_credentials
note_credentials-IsSupported repr verified spec session executions item h =
    let rows = reported_for repr item.identity_id executions in
    let noted = record item {
      credential_status =
          recorded verified (credential_status_of spec session rows item.identity_id);
      verification = note_reader verified spec session item.verification;
    } in
    elim (Bool-cases (is_rejected spec rows item)) [
      | inl e ↦ rw e (settled-IsSupported inconclusive _ noted refl)
      | inr e ↦ rw e (record { reviewed = h.reviewed; allowed = h.allowed })
    ]

demote_evaluated-IsSupported :
    {spec : Fields} (ok : Bool) (reason : Text) (item : Item)
    → IsSupported spec item
    → IsSupported spec (demote_evaluated ok reason item)
demote_evaluated-IsSupported ok reason item h = elim (Bool-cases (not ok && is_evaluated item)) [
  | inl e ↦ rw e (settled-IsSupported inconclusive reason item refl)
  | inr e ↦ rw e h
]

demote_unskipped-IsSupported :
    {spec : Fields} (ok : Bool) (item : Item)
    → IsSupported spec item
    → IsSupported spec (demote_unskipped ok item)
demote_unskipped-IsSupported ok item h = elim (Bool-cases (not ok && not (is_skipped item))) [
  | inl e ↦ rw e (settled-IsSupported inconclusive _ item refl)
  | inr e ↦ rw e h
]

All-map :
    {A B : Type 0} (P : B → Type 0) (f : A → B) (xs : List A)
    → ((x : A) → P (f x))
    → All P (map f xs)
All-map P f [] h = tt
All-map P f (x ∷ xs) h = (h x, All-map P f xs h)

module _ (repr : Value → Text) (digest : Fields → Text) where
  applied-IsSupported :
      (spec : Fields) (executions : List Fields) (verified : Bool) (semantic : List SemanticRow)
      (identity : Fields)
      → IsSupported spec (
          apply_semantics spec executions semantic verified
            (first_item repr spec executions identity))
  unfolding apply_semantics first_item
  applied-IsSupported spec executions verified semantic identity =
      apply_rows-IsSupported spec (single end (expected_for (id_of identity) spec)) executions
        verified (first_item repr spec executions identity)
        (first_item-IsReviewed repr spec executions identity)
        (select (λ r. is_text r.identity_id (id_of identity)) semantic)
        (first_item-IsSupported repr spec executions identity)

  settled_items-IsSupported :
      (reason : Text) (ok : Bool) (spec : Fields) (executions : List Fields) (verified : Bool)
      (session : Session) (semantic : List SemanticRow)
      → All (IsSupported spec) (
          map
            (demote_evaluated ok reason)
            (settled_items repr digest spec executions verified session semantic))
  unfolding settled_items
  settled_items-IsSupported reason ok spec executions verified session semantic =
      over (identities_of spec)
    where
      settled : Fields → Item
      settled identity = demote_unskipped (is_established session) (
          demote_evaluated verified (text "case_snapshot_unverified") (
            note_credentials repr verified spec session executions (
              apply_semantics spec executions semantic verified
                (first_item repr spec executions identity))))

      over :
          (ids : List Fields)
          → All (IsSupported spec) (map (demote_evaluated ok reason) (map settled ids))
      over [] = tt
      over (i ∷ is) = (
        demote_evaluated-IsSupported ok reason (settled i) (
            demote_unskipped-IsSupported (is_established session) _ (
              demote_evaluated-IsSupported verified _ _ (
                note_credentials-IsSupported repr verified spec session executions _
                  (applied-IsSupported spec executions verified semantic i)))),
        over is,
      )

  -- For an identity that is evaluated the spec has exactly one row of expected access, the item
  -- shows the decision of that row, and this is neither skip nor unknown; and if it is to allow,
  -- then access was allowed: by the scanner's decision, or, where there is none, by the HTTP
  -- outcome.
  pub assess-evaluated :
      (spec : Fields) (executions : List Fields) (n : ℕ) (verified : Bool)
      (preflight semantic : List Fields) (i : Item)
      → i ∈ (assess repr digest spec executions n verified preflight semantic).identities
      → is_evaluated i ≡ true
      → IsReviewed spec i
        × ((eqb i.expected_decision (text "allow") ≡ false) ⊎ (shows_allow i ≡ true))
  unfolding assess
  assess-evaluated spec executions n verified preflight semantic i m e =
      let session = assess_preflight repr spec preflight verified in
      let rows = map safe_semantic_row semantic in
      let baseline =
        verified
        && any is_baseline (settled_items repr digest spec executions verified session rows) in
      let h : IsSupported spec i = at-All (IsSupported spec) m (
        settled_items-IsSupported (text "legitimate_baseline_missing") baseline spec executions
          verified session rows) in
      (
        h.reviewed e,
        elim (Bool-cases (eqb i.expected_decision (text "allow"))) [
          | inl k ↦ inr (h.allowed e k)
          | inr k ↦ inl k
        ],
      )
