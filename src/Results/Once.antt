-- ===== src/Results/Once.antt =====
-- backend/routers/jobs.py: a result is stored once.
use mathlib.Core.Path.{subst}
use mathlib.Core.Bool.{false≢true}
use vardr_map.Base.{
  ℕ, ◌+◌, ◌≡◌, inl, inr, refl, sym, ap, ◌∙◌, true, false, not, ◌&&◌, ◌||◌, Option, none, some, List,
  [], ◌∷◌, ◌++◌, length, length-append, map, ltb, take, str_eq, arith, Bool-cases,
}
use vardr_map.Text.{Text, text, eqb}
use vardr_map.Text.Laws.{eqb_refl}
use vardr_map.Json.{Value, Fields}
use vardr_map.Store.{
  ScanJob, Db, find_job, bad_request, not_found, conflict, payload_too_large, ok, err, raise_if,
  or_raise, ok-injective, err-ne-ok, bind_passed,
}
use vardr_map.Store.Laws.{raise_if-eq_ok}
use vardr_map.Access.{CurrentUser}
use vardr_map.Budget.{vardrgate}
use vardr_map.Execution.{accessible_job}
use vardr_map.Jobs.Update.{writable_engagement}
use vardr_map.Jobs.Claim.{is_managed}
use vardr_map.Lifecycle.Inversion.{accessible_job-found}
use vardr_map.Assessment.Semantics.{is_end}
use vardr_map.TestCases.Size.{fields_size}
use vardr_map.Results.Payload.{VardrGateUpload, receipt_payload, legacy_payload}
use vardr_map.Results.Upload.{
  JobResultReceipt, ResultDb, Stored, max_result_bytes, find_receipt, from_receipt, snapshot_of,
  authoritative_spec, text_at, template_of, answer_again, write_result, store_first, store_by,
  store_gate_result, upload_job_result,
}

length-map : {A B : Type 0} (f : A → B) (xs : List A) → length (map f xs) ≡ length xs
length-map f [] = refl
length-map f (x ∷ xs) = omega (arith, length-map f xs)

length-maps :
    {A B C D : Type 0} (f : A → D) (xs : List A) (g : C → D) (h : B → C) (ys : List B)
    → length (map f xs ++ map g (map h ys)) ≡ length xs + length ys
length-maps f [] g h ys = omega (arith, length-map g (map h ys), length-map h ys)
length-maps f (x ∷ xs) g h ys = omega (arith, length-maps f xs g h ys)

module _ (repr : Value → Text) (hash : Fields → Text) (redact_text : Text → Text) where
  -- What a result that is stored for the first time adds.
  pub record Recorded (body : VardrGateUpload) (s : Stored) (store store' : ResultDb) : Type 0 where
    pub items : s.scan_items_created ≡ length body.findings
    pub evidence : s.evidence_created ≡ length body.executions + length body.preflight
    pub items_added : length store'.scan_items ≡ s.scan_items_created + length store.scan_items
    pub evidence_added : length store'.evidence ≡ s.evidence_created + length store.evidence
    pub receipt :
        find_receipt s.job_id store'.receipts
        ≡ some (record {
          job_id = s.job_id;
          payload_hash = hash (receipt_payload body);
          scan_items_created = s.scan_items_created;
          evidence_created = s.evidence_created;
        })

  find-head :
      (r : JobResultReceipt) (rs : List JobResultReceipt) → find_receipt r.job_id (r ∷ rs) ≡ some r
  unfolding find_receipt
  find-head r rs = ground arith

  write_result-Recorded :
      (job : ScanJob) (body : VardrGateUpload) (spec : Fields) (template : Text) (store : ResultDb)
      → let r = write_result repr hash redact_text job body spec template store in
        Recorded body r.0 store r.1
  unfolding write_result
  write_result-Recorded job body spec template store = record {
    items = length-map _ body.findings;
    evidence = length-maps _ body.executions _ _ body.preflight;
    items_added = length-append _ store.scan_items;
    evidence_added = length-append _ store.evidence;
    receipt = find-head _ store.receipts;
  }

  -- What a call that succeeds went through.
  pub record Passed (id : ℕ) (body : VardrGateUpload) (user : CurrentUser) (db : Db)
      (store : ResultDb) (r : Stored × ResultDb) : Type 0 where
    pub job : ScanJob
    pub row : find_job id db.jobs ≡ some job
    pub reach :
        (other : VardrGateUpload) (other_store : ResultDb)
        → upload_job_result repr hash redact_text id other user db other_store
          ≡ store_gate_result repr hash redact_text job other db other_store
    pub small : ltb max_result_bytes (fields_size (receipt_payload body)) ≡ false
    pub stored :
        store_by repr hash redact_text (find_receipt job.id store.receipts) job body db store ≡ ok r

  pub upload-Passed :
      (id : ℕ) (body : VardrGateUpload) (user : CurrentUser) (db : Db) (store : ResultDb)
      {r : Stored × ResultDb}
      → upload_job_result repr hash redact_text id body user db store ≡ ok r
      → Passed id body user db store r
  unfolding upload_job_result store_gate_result
  upload-Passed id body user db store h =
      let (job, seen, h1) = bind_passed (or_raise (accessible_job id user db) not_found) _ h in
      let (_, may, h2) = bind_passed (writable_engagement job user db) _ h1 in
      let (_, free, h3) = bind_passed (raise_if (is_managed job) conflict) _ h2 in
      let (_, gate, h4) =
        bind_passed (raise_if (not (str_eq job.tool_type vardrgate)) bad_request) _ h3 in
      let (_, small_, h5) =
        bind_passed
          (raise_if (ltb max_result_bytes (fields_size (receipt_payload body))) payload_too_large) _
          h4 in
      record {
        job = job;
        row = accessible_job-found id user db seen;
        reach = λ other other_store. rw (seen, may, free, gate) refl;
        small = raise_if-eq_ok _ payload_too_large small_;
        stored = h5;
      }

  -- A first result that is accepted is written with the case's own identifier.
  pub store_first-written :
      (job : ScanJob) (body : VardrGateUpload) (db : Db) (store : ResultDb) {r : Stored × ResultDb}
      → store_first repr hash redact_text job body db store ≡ ok r
      → let authority = authoritative_spec repr hash redact_text job db in
        write_result repr hash redact_text job body authority
          (template_of repr hash redact_text body authority)
          store
        ≡ r
  unfolding store_first
  store_first-written job body db store h =
      let spec = snapshot_of job.case_snapshot in
      let authority = authoritative_spec repr hash redact_text job db in
      let (_, _, h1) =
        bind_passed
          (raise_if
            (not (is_end spec)
              && not (eqb body.case_hash [])
              && not (eqb body.case_hash (hash spec)))
            bad_request)
          _ h in
      let (_, _, h2) =
        bind_passed
          (raise_if
            (not (is_end authority)
              && not (eqb (take 200 body.test_case_id) [])
              && not (
                  eqb (take 200 body.test_case_id)
                    (text_at repr hash redact_text (text "id") authority)))
            bad_request)
          _ h1 in
      ok-injective h2

  -- The first result of a job, with the job's identifier in its answer.
  pub store_first-Recorded :
      (job : ScanJob) (body : VardrGateUpload) (db : Db) (store : ResultDb) {r : Stored × ResultDb}
      → store_first repr hash redact_text job body db store ≡ ok r
      → Recorded body r.0 store r.1 × (r.0.job_id ≡ job.id) × (r.0.already_processed ≡ false)
  unfolding write_result
  store_first-Recorded job body db store h =
      let authority = authoritative_spec repr hash redact_text job db in
      subst
        (λ (r : Stored × ResultDb).
          Recorded body r.0 store r.1 × (r.0.job_id ≡ job.id) × (r.0.already_processed ≡ false))
        (store_first-written job body db store h)
        (
          write_result-Recorded job body authority
              (template_of repr hash redact_text body authority) store,
          refl,
          refl,
        )

  pub answer-kept :
      (body : VardrGateUpload) (receipt : JobResultReceipt) {s : Stored}
      → answer_again repr hash redact_text body receipt ≡ ok s
      → from_receipt receipt ≡ s
  answer-kept body receipt h =
      elim (Bool-cases (
        eqb receipt.payload_hash (hash (receipt_payload body))
        || eqb receipt.payload_hash (hash (legacy_payload body)))) [
          | inl e ↦ ok-injective (rw e at h)
          | inr e ↦ absurd (err-ne-ok (rw e at h))
        ]

  again-eq :
      (body : VardrGateUpload) (receipt : JobResultReceipt)
      → receipt.payload_hash ≡ hash (receipt_payload body)
      → answer_again repr hash redact_text body receipt ≡ ok (from_receipt receipt)
  again-eq body receipt e =
      let same : eqb receipt.payload_hash (hash (receipt_payload body)) ≡ true =
        subst (λ t. eqb receipt.payload_hash t ≡ true) e (eqb_refl receipt.payload_hash) in
      rw same refl

  other-eq :
      (body : VardrGateUpload) (receipt : JobResultReceipt)
      → eqb receipt.payload_hash (hash (receipt_payload body)) ≡ false
      → eqb receipt.payload_hash (hash (legacy_payload body)) ≡ false
      → answer_again repr hash redact_text body receipt ≡ err conflict
  other-eq body receipt e k = rw (e, k) refl

  -- After a first upload of a job's result, a later one by the same caller, with the other tables
  -- as they were, stores nothing: the same payload gets the same numbers again, as already
  -- processed, and one that is not too large and has another hash, both with and without its
  -- assessments, is a conflict.
  pub upload_job_result-once :
      (id : ℕ) (body : VardrGateUpload) (user : CurrentUser) (db : Db) (store store' : ResultDb)
      (s : Stored)
      → upload_job_result repr hash redact_text id body user db store ≡ ok (s, store')
      → s.already_processed ≡ false
      → (upload_job_result repr hash redact_text id body user db store'
          ≡ ok (record s { already_processed = true }, store'))
        × ((other : VardrGateUpload)
            → ltb max_result_bytes (fields_size (receipt_payload other)) ≡ false
            → eqb (hash (receipt_payload body)) (hash (receipt_payload other)) ≡ false
            → eqb (hash (receipt_payload body)) (hash (legacy_payload other)) ≡ false
            → upload_job_result repr hash redact_text id other user db store' ≡ err conflict)
  unfolding store_gate_result
  upload_job_result-once id body user db store store' s h fresh =
      let p = upload-Passed id body user db store h in
      let (recorded, same_id) = found p.job (find_receipt p.job.id store.receipts) p.stored in
      let there_ =
        subst (λ j. find_receipt j store'.receipts ≡ some (receipt_of s)) same_id
          recorded.receipt in
      (
        p.reach body store' ∙ (rw (p.small, there_, again-eq body (receipt_of s) refl) refl),
        λ other small e k.
            p.reach other store' ∙ (rw (small, there_, other-eq other (receipt_of s) e k) refl),
      )
    where
      receipt_of : Stored → JobResultReceipt
      receipt_of t = record {
        job_id = t.job_id;
        payload_hash = hash (receipt_payload body);
        scan_items_created = t.scan_items_created;
        evidence_created = t.evidence_created;
      }

      found :
          (job : ScanJob) (o : Option JobResultReceipt)
          → store_by repr hash redact_text o job body db store ≡ ok (s, store')
          → Recorded body s store store' × (s.job_id ≡ job.id)
      found job none k =
          let (recorded, same_id, _) = store_first-Recorded job body db store k in
          (recorded, same_id)
      found job (some receipt) k =
          let (again, e, same) =
            bind_passed (answer_again repr hash redact_text body receipt) _ k in
          absurd (
            false≢true (
              sym fresh
              ∙ ap (λ (r : Stored × ResultDb). r.0.already_processed) (sym (ok-injective same))
              ∙ ap (λ (t : Stored). t.already_processed) (sym (answer-kept body receipt e))))
