-- ===== src/Assessment/Semantics.antt =====
-- backend/assessment_evidence.py: `apply_semantics`, by which a scanner's own decision replaces what
-- the HTTP outcome alone suggests, where its evidence bears it out.
use vardr_map.Base.{
  ℕ, zero, suc, Bool, true, false, not, ◌&&◌, ◌||◌, Option, none, some, List, [], ◌∷◌, ◌++◌, ◌==◌,
  leb, ltb, all, any, length, select, if◌then◌else◌,
}
use vardr_map.Text.{Text, text, eqb}
use vardr_map.Json.{
  Value, obj, arr, find, items, Fields, end, get, items_of, is_list, list_at, is_text, natural,
  in_range, has_value, same_value, truthy,
}
use vardr_map.Assessment.Case.{
  evaluated, inconclusive, Verification, Item, settle, is_evaluated, is_skipped, single,
  status_code, has_error, expected_for, oracle_of, reader_of,
}
use vardr_map.Assessment.Rows.{SemanticRow}

abbrev pub get_elem? {ℓ} : {A : Type ℓ} → List A → ℕ → Option A
get_elem? [] i = none
get_elem? (x ∷ xs) zero = some x
get_elem? (x ∷ xs) (suc i) = get_elem? xs i

abbrev pub is_decided : Text → Bool
is_decided d = eqb d (text "allowed") || eqb d (text "denied")

-- `"allow" if row["decision"] == "allowed" else "deny"`
abbrev pub decision_of : SemanticRow → Text
decision_of row = if eqb row.decision (text "allowed") then text "allow" else text "deny"

abbrev pub is_status : Value → Bool
is_status v = in_range 100 599 (natural v)

-- The status is one of the codes, if there are any.
abbrev pub is_listed : List Value → Option ℕ → Bool
is_listed [] status = true
is_listed (c ∷ cs) none = false
is_listed (c ∷ cs) (some n) = any (λ v. has_value (natural v) n) (c ∷ cs)

abbrev pub constrains : Option Value → Option ℕ → Bool
constrains none status = true
constrains (some (arr codes)) status = all is_status (items codes) && is_listed (items codes) status
constrains (some v) status = false

-- `status_constraint`
unfoldable pub status_constraint : Fields → Option ℕ → Bool
status_constraint rule status = constrains (find (text "status_codes") rule) status

-- A rule that a matched index points to.
abbrev pub rule_at : List Value → ℕ → Option Value
rule_at rules i = get_elem? rules i

abbrev pub supports : Text → Option ℕ → Option Value → Bool
supports decision status none = false
supports decision status (some (obj rule)) =
    is_text decision (get (text "decision") rule) && status_constraint rule status
supports decision status (some v) = false

-- The source `response_assertion`: the rules that matched say so of this status.
unfoldable pub assertions_hold : Fields → SemanticRow → Fields → Bool
unfolding status_constraint
assertions_hold configured row execution =
    let rules = get (text "response_assertions") configured in
    not (has_error execution)
    && in_range 100 599 (status_code execution)
    && (not (truthy rules) || is_list rules)
    && ltb 0 (length row.matched_assertions)
    && eqb row.reason (text "assertion_matched")
    && all (λ i. supports (decision_of row) (status_code execution) (rule_at (items_of rules) i))
        row.matched_assertions

-- `s == (v or default)`
abbrev pub is_text_or : Text → Text → Value → Bool
is_text_or default s v = if truthy v then is_text s v else eqb s default

abbrev pub is_success : ℕ → Bool
is_success s = leb 200 s && ltb s 300

abbrev pub is_before : Fields → ℕ → Bool
is_before oracle s =
    if is_text (text "created") (get (text "strategy") oracle) then s == 404 else is_success s

abbrev pub is_client_error : Value → Bool
is_client_error v = in_range 400 499 (natural v)

abbrev pub reset_holds : Fields → ℕ → Bool
reset_holds oracle s = not (truthy (get (text "reset") oracle)) || (is_success s && not (s == 202))

abbrev pub may_deny : Fields → Bool
may_deny execution =
    not (has_error execution)
    && in_range 100 599 (status_code execution)
    && not (has_value (status_code execution) 202)

abbrev pub is_end : Fields → Bool
is_end end = true
is_end fs = false

-- `oracle.get("after_status", [])` is a list.
abbrev pub is_absent_or_list : Option Value → Bool
is_absent_or_list none = true
is_absent_or_list (some v) = is_list v

-- The source `write_verification`: a reader saw the state before, after and after a reset.
unfoldable pub write_holds : Fields → Fields → SemanticRow → Fields → Option Verification → Bool
write_holds oracle reader row execution none = false
write_holds oracle reader row execution (some v) =
    let after_codes = list_at (text "after_status") oracle in
    not (is_end oracle)
    && is_absent_or_list (find (text "after_status") oracle)
    && all is_client_error after_codes
    && is_text v.reader_identity_id (get (text "id") reader)
    && is_text_or (text "legacy_change") v.strategy (get (text "strategy") oracle)
    && is_text_or (text "legacy") v.environment (get (text "environment") oracle)
    && length v.before_statuses == 2
    && ltb 0 v.after_status
    && eqb row.reason
        (if eqb row.decision (text "allowed") then text "state_changed" else text "state_unchanged")
    && not (eqb v.environment (text "unknown"))
    && all (is_before oracle) v.before_statuses
    && (is_success v.after_status
        || v.after_status == 404
        || any (λ c. has_value (natural c) v.after_status) after_codes)
    && reset_holds oracle v.reset_status
    && (eqb row.decision (text "allowed") || may_deny execution)

-- A response assertion or a write's verification is declared.
abbrev pub is_protected : Fields → Fields → Bool
is_protected spec configured =
    truthy (get (text "response_assertions") configured)
    || truthy (get (text "write_verification") spec)

-- The reader that reported is the declared one.
abbrev pub reader_matches : Fields → Option Verification → Option Verification
reader_matches reader none = none
reader_matches reader (some v) =
    if is_text v.reader_identity_id (get (text "id") reader) then some v else none

-- The row's metadata, copied to the item.
abbrev pub with_row : Fields → SemanticRow → Item → Item
with_row spec row item = record item {
  reported_decision = some row.decision;
  source = row.source;
  credential_status = row.credential_status;
  write_verification = row.write_verification;
  matched_assertions = row.matched_assertions;
  verification = reader_matches (reader_of spec) row.verification;
}

abbrev pub same_at : Value → Option Fields → Bool
same_at identity none = false
same_at identity (some e) = same_value (get (text "identity_id") e) identity

-- The row's index names an execution of this identity.
abbrev pub index_holds : Value → List Fields → Option ℕ → Bool
index_holds identity executions none = true
index_holds identity executions (some i) = same_at identity (get_elem? executions i)

-- `valid`
unfoldable pub is_borne_out : Fields → Fields → SemanticRow → Fields → Item → Bool
unfolding assertions_hold write_holds
is_borne_out spec configured row execution item =
    if eqb row.source (text "response_assertion")
    then assertions_hold configured row execution
    else if eqb row.source (text "write_verification")
    then write_holds (oracle_of spec) (reader_of spec) row execution row.verification
    else eqb row.source (text "http_status")
      && not (is_protected spec configured)
      && is_evaluated item
      && eqb item.observed_outcome (decision_of row)

abbrev pub inconsistent : Item → Item
inconsistent item = settle inconclusive (text "semantic_assessment_inconsistent") item

abbrev pub conclude : Bool → SemanticRow → Item → Item
conclude borne_out row item =
    if not borne_out
    then inconsistent item
    else if eqb item.expected_decision (text "allow") && not (eqb (decision_of row) (text "allow"))
    then settle inconclusive (text "legitimate_baseline_denied") item
    else settle evaluated (text "reported_" ++ row.source) item

-- The execution that the row is about.
abbrev pub weigh : Fields → Fields → List Fields → SemanticRow → Item → List Fields → Item
weigh spec configured executions row item (execution ∷ []) =
    if index_holds item.identity_id executions row.execution_index
    then conclude (is_borne_out spec configured row execution item) row item
    else inconsistent item
weigh spec configured executions row item _ = inconsistent item

unfoldable pub apply_row : Fields → Fields → List Fields → Bool → SemanticRow → Item → Item
unfolding is_borne_out
apply_row spec configured executions verified row item =
    let noted = with_row spec row item in
    if is_skipped item
    then noted
    else if not verified
    then settle inconclusive (text "case_snapshot_unverified") noted
    else if not (is_decided row.decision)
    then settle inconclusive row.reason noted
    else weigh spec configured executions row noted
        (select (λ e. same_value (get (text "identity_id") e) item.identity_id) executions)

abbrev pub apply_rows : Fields → Fields → List Fields → Bool → Item → List SemanticRow → Item
apply_rows spec configured executions verified item [] =
    if is_protected spec configured && not (is_skipped item)
    then settle inconclusive (text "semantic_assessment_missing") item
    else item
apply_rows spec configured executions verified item (row ∷ []) =
    if eqb row.expected_access item.expected_decision
    then apply_row spec configured executions verified row item
    else inconsistent item
apply_rows spec configured executions verified item (_ ∷ _ ∷ _) = inconsistent item

-- The body of the loop of `apply_semantics`.
unfoldable pub apply_semantics : Fields → List Fields → List SemanticRow → Bool → Item → Item
unfolding apply_row
apply_semantics spec executions semantic verified item =
    apply_rows spec (single end (expected_for item.identity_id spec)) executions verified item
      (select (λ r. is_text r.identity_id item.identity_id) semantic)
