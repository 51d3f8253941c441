-- ===== src/Assessment/Tests.antt =====
-- A run of backend/assessments.py on a case with one identity to allow and one to deny.
use vardr_map.Base.{ℕ, ◌≡◌, ◌↔◌, ◌⊎◌, refl, true, false, none, List, [], ◌∷◌, ◌∈◌, here}
use vardr_map.Text.{Text, text, eqb}
use vardr_map.Json.{Value, Fields, str, num, pos, obj, arr, cons, nil, field, end}
use vardr_map.Assessment.Case.{Item, evaluated}
use vardr_map.Assessment.Semantics.{apply_row, apply_semantics}
use vardr_map.Assessment.Preflight.{assess_preflight}
use vardr_map.Assessment.Report.{Status, Assessment}
use vardr_map.Assessment.Judge.{judge_row, judge, first_item}
use vardr_map.Assessment.Credentials.{note_credentials}
use vardr_map.Assessment.Assess.{status_of, settled_items, assess}
use vardr_map.Assessment.Conclusive.{Conclusive, assess-conclusive}
use vardr_map.Assessment.Judged.{IsReviewed, shows_allow}
use vardr_map.Assessment.Support.{assess-evaluated}

abbrev no_repr : Value → Text
no_repr v = []

abbrev no_digest : Fields → Text
no_digest fs = text "sha256:0"

abbrev identity : Value → Value
identity id = obj (field (text "id") id end)

abbrev expectation : Text → Text → Value
expectation id decision =
    obj (field (text "identity_id") (str id) (field (text "decision") (str decision) end))

abbrev spec : Fields
spec =
    field (text "identities")
      (arr (cons (identity (str (text "owner"))) (cons (identity (str (text "guest"))) nil)))
      (field (text "expected_access")
        (arr (
          cons (expectation (text "owner") (text "allow"))
            (cons (expectation (text "guest") (text "deny")) nil)))
        end)

abbrev execution : Text → Text → ℕ → Fields
execution id outcome status = field (text "identity_id") (str id) (
    field (text "observed_outcome") (str outcome)
      (field (text "status_code") (num (pos status)) end))

abbrev executions : List Fields
executions =
    execution (text "owner") (text "allow") 200 ∷ execution (text "guest") (text "deny") 403 ∷ []

abbrev result : Assessment
result = assess no_repr no_digest spec executions 0 true [] []

unfoldable assessing : Unit {0}
unfolding assess assess_preflight settled_items first_item judge judge_row apply_row apply_semantics
    note_credentials status_of
assessing = tt

runs_conclusive : result.status ≡ Status.conclusive
unfolding assessing
runs_conclusive = refl

-- Without the run of the owner the denial of the guest shows nothing.
runs_without_owner :
    (assess no_repr no_digest spec
      (execution (text "guest") (text "deny") 403 ∷ [])
      0
      true
      []
      []).status
    ≡ Status.inconclusive
unfolding assessing
runs_without_owner = refl

assess-conclusive_example : (result.status ≡ Status.conclusive) ↔ Conclusive result true
assess-conclusive_example = assess-conclusive no_repr no_digest spec executions 0 true [] []

abbrev owner_item : Item
owner_item = record {
  identity_id = str (text "owner");
  expected_decision = text "allow";
  observed_outcome = text "allow";
  state = evaluated;
  reason = text "reported_allow_or_deny";
  reported_decision = none;
  source = [];
  credential_status = text "anonymous_identity";
  write_verification = [];
  matched_assertions = [];
  verification = none;
}

owner_stands : owner_item ∈ result.identities
unfolding assessing
owner_stands = here

assess-evaluated_example :
    IsReviewed spec owner_item
    × ((eqb owner_item.expected_decision (text "allow") ≡ false) ⊎ (shows_allow owner_item ≡ true))
assess-evaluated_example =
    assess-evaluated no_repr no_digest spec executions 0 true [] [] owner_item owner_stands refl
