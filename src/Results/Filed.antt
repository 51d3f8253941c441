-- ===== src/Results/Filed.antt =====
-- backend/routers/jobs.py: the rows that an accepted upload files.
use vardr_map.Base.{
  ◌≡◌, ◌⊎◌, inl, inr, refl, Bool, true, false, none, some, List, [], ◌∷◌, ◌++◌, map, any, take, leb,
  length, arith, Bool-cases,
}
use vardr_map.Text.{Text, text, eqb, lower, strip}
use vardr_map.Json.{Value, str, num, bool, null, obj, arr, Fields, field, get, dict_at}
use vardr_map.Store.{ScanJob}
use vardr_map.Redaction.Laws.{AreRedacted, redact_mapping-AreRedacted}
use vardr_map.Assessment.Case.{Item}
use vardr_map.Results.Payload.{VardrGateUpload, dump_preflight}
use vardr_map.Results.Rows.{
  ScanItem, Evidence, severities, outcomes, known_or, short_identity, outcome_of, text_or,
  text_or_null, identity_of, severity_of, finding_description, scan_item, execution_evidence,
  preflight_evidence,
}
use vardr_map.Results.Upload.{ResultDb, text_at, write_result}

-- Two lists of one length, related row by row.
abbrev pub Pairs : {A B : Type 0} → (A → B → Type 0) → List A → List B → Type 0
Pairs R [] [] = Unit
Pairs R (x ∷ xs) (y ∷ ys) = R x y × Pairs R xs ys
Pairs R _ _ = ⊥

Pairs-map :
    {A B : Type 0} (R : A → B → Type 0) (f : A → B) (xs : List A)
    → ((x : A) → R x (f x))
    → Pairs R xs (map f xs)
Pairs-map R f [] h = tt
Pairs-map R f (x ∷ xs) h = (h x, Pairs-map R f xs h)

known_or-known :
    (known : List Text) (default t : Text)
    → any (eqb default) known ≡ true
    → any (eqb (known_or known default t)) known ≡ true
known_or-known known default t h = elim (Bool-cases (any (eqb t) known)) [
  | inl e ↦ rw e e
  | inr e ↦ rw e h
]

known_or-same :
    (known : List Text) (default t : Text) → any (eqb t) known ≡ true → known_or known default t ≡ t
known_or-same known default t h = rw h refl

module _ (repr : Value → Text) (hash : Fields → Text) (redact_text : Text → Text) where
  -- The severity that a finding states.
  abbrev stated_severity : Fields → Text
  stated_severity finding =
      strip (lower (text_or repr redact_text (text "info") (text "severity") finding))

  -- The item that a finding of this job becomes.
  pub record IsFiled (job : ScanJob) (template target : Text) (finding : Fields) (item : ScanItem)
      : Type 0 where
    pub of_program : item.program_id ≡ job.program_id
    pub of_job : item.job_id ≡ job.id
    pub of_case : item.template_id ≡ template
    pub at_target : item.asset ≡ target
    pub category : item.type ≡ take 50 (text_or repr redact_text [] (text "category") finding)
    pub known_severity : any (eqb item.severity) severities ≡ true
    pub severity_kept :
        any (eqb (stated_severity finding)) severities ≡ true
        → item.severity ≡ stated_severity finding
    pub title_redacted :
        (eqb (take 200 (redact_text (text_or repr redact_text [] (text "message") finding))) []
          ≡ false)
        → item.title ≡ take 200 (redact_text (text_or repr redact_text [] (text "message") finding))
    pub description_redacted : (t : Text) × (item.description ≡ redact_text t)

  -- A piece of evidence of this job for a row of the upload: all that it holds is redacted.
  pub record IsEvidence (job : ScanJob) (template : Text) (row : Fields) (piece : Evidence)
      : Type 0 where
    pub of_program : piece.program_id ≡ job.program_id
    pub of_job : piece.job_id ≡ job.id
    pub of_case : piece.case_ref ≡ template
    pub identity :
        (piece.identity_id ≡ none)
        ⊎ (piece.identity_id
            ≡ some
                (redact_text (text_or repr redact_text (text "unknown") (text "identity_id") row)))
    pub known_outcome : any (eqb piece.observed_outcome) (text "unknown" ∷ outcomes) ≡ true
    pub body_redacted : AreRedacted redact_text [] piece.body

  -- What the first upload for a job adds to the tables, and the numbers that it answers with.
  pub record Filed (job : ScanJob) (body : VardrGateUpload) (spec : Fields) (template : Text)
      (store store' : ResultDb) : Type 0 where
    pub items : List ScanItem
    pub executions : List Evidence
    pub preflights : List Evidence
    pub items_added : store'.scan_items ≡ items ++ store.scan_items
    pub evidence_added : store'.evidence ≡ (executions ++ preflights) ++ store.evidence
    pub findings_filed :
        Pairs
          (IsFiled job template (
            take 2000 (text_at repr hash redact_text (text "url") (dict_at (text "request") spec))))
          body.findings
          items
    pub executions_filed : Pairs (IsEvidence job template) body.executions executions
    pub preflights_filed :
        Pairs (IsEvidence job template) (map dump_preflight body.preflight) preflights

  scan_item-IsFiled :
      (job : ScanJob) (template target : Text) (finding : Fields)
      → IsFiled job template target finding (scan_item repr redact_text job template target finding)
  unfolding scan_item severity_of finding_description
  scan_item-IsFiled job template target finding = record {
    of_program = refl;
    of_job = refl;
    of_case = refl;
    at_target = refl;
    category = refl;
    known_severity = known_or-known severities (text "info") (stated_severity finding) refl;
    severity_kept = known_or-same severities (text "info") (stated_severity finding);
    title_redacted = λ h. rw h refl;
    description_redacted = (_, refl);
  }

  short_identity-cases :
      (t : Text)
      → (short_identity repr redact_text t ≡ none) ⊎ (short_identity repr redact_text t ≡ some t)
  short_identity-cases t = elim (Bool-cases (leb (length t) 200)) [
    | inl e ↦ inr (rw e refl)
    | inr e ↦ inl (rw e refl)
  ]

  outcome_of-known : (v : Value) → any (eqb (outcome_of v)) (text "unknown" ∷ outcomes) ≡ true
  outcome_of-known (str s) = elim (Bool-cases (any (eqb s) outcomes)) [
    | inl e ↦ rw e (ground (arith, e))
    | inr e ↦ rw e refl
  ]
  outcome_of-known (num n) = refl
  outcome_of-known (bool b) = refl
  outcome_of-known null = refl
  outcome_of-known (obj fs) = refl
  outcome_of-known (arr vs) = refl

  execution_evidence-IsEvidence :
      (job : ScanJob) (body : VardrGateUpload) (template : Text) (verified : Bool)
      (decided : List Item) (row : Fields)
      → IsEvidence job template row
          (execution_evidence repr redact_text job body template verified decided row)
  unfolding execution_evidence
  execution_evidence-IsEvidence job body template verified decided row = record {
    of_program = refl;
    of_job = refl;
    of_case = refl;
    identity = short_identity-cases (identity_of repr redact_text row);
    known_outcome = outcome_of-known (get (text "observed_outcome") row);
    body_redacted = (redact_mapping-AreRedacted redact_text [] _).1;
  }

  preflight_evidence-IsEvidence :
      (job : ScanJob) (body : VardrGateUpload) (template : Text) (verified : Bool) (row : Fields)
      → IsEvidence job template row
          (preflight_evidence repr redact_text job body template verified row)
  unfolding preflight_evidence
  preflight_evidence-IsEvidence job body template verified row =
      let noted = field (text "phase") (str (text "identity_preflight")) (
        field (text "case_hash") (text_or_null body.case_hash)
          (field (text "case_snapshot_verified") (bool verified) row)) in
      record {
        of_program = refl;
        of_job = refl;
        of_case = refl;
        identity = short_identity-cases (identity_of repr redact_text row);
        known_outcome = refl;
        body_redacted = (redact_mapping-AreRedacted redact_text [] noted).1;
      }

  pub write_result-Filed :
      (job : ScanJob) (body : VardrGateUpload) (spec : Fields) (template : Text) (store : ResultDb)
      → Filed job body spec template store
          (write_result repr hash redact_text job body spec template store).1
  unfolding write_result
  write_result-Filed job body spec template store = record {
    items = _;
    executions = _;
    preflights = _;
    items_added = refl;
    evidence_added = refl;
    findings_filed =
        Pairs-map (IsFiled job template _) _ body.findings (scan_item-IsFiled job template _);
    executions_filed =
        Pairs-map (IsEvidence job template) _ body.executions
          (execution_evidence-IsEvidence job body template _ _);
    preflights_filed =
        Pairs-map (IsEvidence job template) _ (map dump_preflight body.preflight)
          (preflight_evidence-IsEvidence job body template _);
  }
