-- ===== src/Assessment/Assess.antt =====
-- backend/assessments.py: `assess`, which says what a run establishes of its case.
use vardr_map.Base.{
  ℕ, Bool, true, false, not, ◌&&◌, ◌||◌, Option, none, some, List, [], ◌∷◌, ◌++◌, ◌==◌, ltb, any,
  count, length, map, select, if◌then◌else◌,
}
use vardr_map.Text.{Text, text, eqb}
use vardr_map.Json.{Value, Fields, is_text}
use vardr_map.Assessment.Case.{
  State, evaluated, inconclusive, missing, skipped, state_eq, Item, settle, is_evaluated,
  is_skipped, identities_of, key_of,
}
use vardr_map.Assessment.Preflight.{Check, Session, assess_preflight}
use vardr_map.Assessment.Report.{Status, Counts, Assessment}
use vardr_map.Assessment.Rows.{SemanticRow, safe_semantic_row}
use vardr_map.Assessment.Semantics.{is_end, apply_semantics}
use vardr_map.Assessment.Judge.{first_item}
use vardr_map.Assessment.Credentials.{note_credentials}

-- The loops that follow: an unverified snapshot, a session that is not established, no baseline.
abbrev pub demote_evaluated : Bool → Text → Item → Item
demote_evaluated ok reason item =
    if not ok && is_evaluated item then settle inconclusive reason item else item

abbrev pub is_established : Session → Bool
is_established session = established session.status
  where
    established : Check → Bool
    established Check.passed = true
    established Check.not_configured = true
    established _ = false

abbrev pub demote_unskipped : Bool → Item → Item
demote_unskipped ok item =
    if not ok && not (is_skipped item)
    then settle inconclusive (text "identity_preflight_not_established") item
    else item

abbrev pub is_baseline : Item → Bool
is_baseline item = eqb item.expected_decision (text "allow") && is_evaluated item

-- A list of texts as `sorted(set(…))` leaves it.
abbrev pub text_le : Text → Text → Bool
text_le [] t = true
text_le (c ∷ s) [] = false
text_le (c ∷ s) (d ∷ t) = ltb c d || (c == d && text_le s t)

abbrev pub insert_text : Text → List Text → List Text
insert_text t [] = t ∷ []
insert_text t (u ∷ us) =
    let rest = insert_text t us in
    if eqb t u then u ∷ us else if text_le t u then t ∷ u ∷ us else u ∷ rest

abbrev pub sorted_set : List Text → List Text
sorted_set [] = []
sorted_set (t ∷ ts) = insert_text t (sorted_set ts)

abbrev pub note_if : Bool → Text → List Text
note_if true reason = reason ∷ []
note_if false reason = []

abbrev pub in_state : State → Item → Bool
in_state state item = state_eq item.state state

abbrev pub counts_of : List Item → Counts
counts_of items = record {
  evaluated = count (in_state evaluated) items;
  inconclusive = count (in_state inconclusive) items;
  missing = count (in_state missing) items;
  skipped = count (in_state skipped) items;
}

unfoldable pub status_of : List Item → ℕ → Status
status_of items unexpected =
    if ltb 0 (length items) && count (in_state evaluated) items == length items && unexpected == 0
    then Status.conclusive
    else if ltb 0 (count (in_state evaluated) items)
    then Status.partial
    else Status.inconclusive

-- `sha256` of the case's canonical text is a parameter, and so is Python's `str` of what is no text.
module _ (repr : Value → Text) (digest : Fields → Text) where
  abbrev pub case_hash : Fields → Option Text
  case_hash spec = if is_end spec then none else some (digest spec)

  -- The items before the question of the baseline.
  unfoldable pub settled_items :
      Fields → List Fields → Bool → Session → List SemanticRow → List Item
  unfolding first_item apply_semantics note_credentials
  settled_items spec executions case_verified session semantic =
      map
        (λ identity. demote_unskipped (is_established session) (
          demote_evaluated case_verified (text "case_snapshot_unverified") (
            note_credentials repr case_verified spec session executions (
              apply_semantics spec executions semantic case_verified
                (first_item repr spec executions identity)))))
        (identities_of spec)

  abbrev pub is_unexpected : List Item → Fields → Bool
  is_unexpected items row = not (any (λ i. is_text (key_of repr row) i.identity_id) items)

  abbrev pub reasons_of : Fields → Bool → Bool → ℕ → List Item → List Text
  reasons_of spec case_verified baseline unexpected items = sorted_set (
      map (λ i. i.reason) (select (λ i. not (is_evaluated i)) items)
      ++ (note_if (not baseline) (text "legitimate_baseline_missing")
          ++ (note_if (ltb 0 unexpected) (text "unexpected_identity")
              ++ (note_if (is_end spec) (text "case_snapshot_missing")
                  ++ note_if (not case_verified) (text "case_snapshot_unverified")))))

  -- `assess`
  unfoldable pub assess : Fields → List Fields → ℕ → Bool → List Fields → List Fields → Assessment
  unfolding assess_preflight safe_semantic_row settled_items status_of
  assess spec executions candidate_count case_verified preflight semantic =
      let session = assess_preflight repr spec preflight case_verified in
      let settled =
        settled_items spec executions case_verified session (map safe_semantic_row semantic) in
      let baseline = case_verified && any is_baseline settled in
      let items = map (demote_evaluated baseline (text "legitimate_baseline_missing")) settled in
      let unexpected = count (is_unexpected items) executions in
      record {
        status = status_of items unexpected;
        counts = counts_of items;
        unexpected = unexpected;
        baseline_valid = baseline;
        candidate_findings = candidate_count;
        identities = items;
        reasons = reasons_of spec case_verified baseline unexpected items;
        case_hash = case_hash spec;
        case_snapshot_verified = not (is_end spec) && case_verified;
        preflight = session;
      }
