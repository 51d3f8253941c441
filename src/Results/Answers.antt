-- ===== src/Results/Answers.antt =====
-- backend/routers/jobs.py: what an upload that succeeds answers and files.
use mathlib.Core.Path.{subst}
use vardr_map.Base.{
  ℕ, ◌≡◌, ◌⊎◌, inl, inr, refl, sym, ap, ◌∙◌, false, Option, none, some, Bool-cases,
}
use vardr_map.Text.{Text, eqb}
use vardr_map.Text.Laws.{eqb_iff}
use vardr_map.Json.{Value, Fields}
use vardr_map.Store.{ScanJob, Db, find_job, ok, ok-injective, err-ne-ok, bind_passed}
use vardr_map.Access.{CurrentUser}
use vardr_map.Results.Payload.{VardrGateUpload, receipt_payload, legacy_payload}
use vardr_map.Results.Filed.{Filed, write_result-Filed}
use vardr_map.Results.Upload.{
  JobResultReceipt, ResultDb, Stored, find_receipt, from_receipt, authoritative_spec, template_of,
  answer_again, store_by, upload_job_result,
}
use vardr_map.Results.Once.{
  Recorded, upload-Passed, answer-kept, store_first-written, store_first-Recorded,
}

module _ (repr : Value → Text) (hash : Fields → Text) (redact_text : Text → Text) where
  -- The answer to an upload for a job that has a receipt already.
  pub record Again (job : ScanJob) (body : VardrGateUpload) (s : Stored) (store store' : ResultDb)
      : Type 0 where
    pub receipt : JobResultReceipt
    pub found : find_receipt job.id store.receipts ≡ some receipt
    pub answer : s ≡ from_receipt receipt
    pub same_payload :
        (receipt.payload_hash ≡ hash (receipt_payload body))
        ⊎ (receipt.payload_hash ≡ hash (legacy_payload body))
    pub kept : store' ≡ store

  -- The answer to the first upload for a job, with the rows that it files.
  pub record First (job : ScanJob) (body : VardrGateUpload) (db : Db) (s : Stored)
      (store store' : ResultDb) : Type 0 where
    pub no_receipt : find_receipt job.id store.receipts ≡ none
    pub fresh : s.already_processed ≡ false
    pub of_job : s.job_id ≡ job.id
    pub recorded : Recorded repr hash redact_text body s store store'
    pub filed :
        let spec = authoritative_spec repr hash redact_text job db in
        Filed repr hash redact_text job body spec
          (template_of repr hash redact_text body spec)
          store
          store'

  again-same_payload :
      (body : VardrGateUpload) (receipt : JobResultReceipt) {s : Stored}
      → answer_again repr hash redact_text body receipt ≡ ok s
      → (receipt.payload_hash ≡ hash (receipt_payload body))
        ⊎ (receipt.payload_hash ≡ hash (legacy_payload body))
  again-same_payload body receipt h =
      elim (Bool-cases (eqb receipt.payload_hash (hash (receipt_payload body)))) [
        | inl e ↦ inl ((eqb_iff _ _).0 e)
        | inr e ↦ elim (Bool-cases (eqb receipt.payload_hash (hash (legacy_payload body)))) [
          | inl k ↦ inr ((eqb_iff _ _).0 k)
          | inr k ↦ absurd (err-ne-ok (rw (e, k) at h))
        ]
      ]

  -- An upload that succeeds is for a job of the table, and one of two things holds. The job has a
  -- receipt with the hash of the payload, with or without its assessments, and the answer repeats
  -- that receipt's numbers and nothing is stored. Or it has none, and there are added a scan item
  -- for each finding and a piece of evidence for each execution and each preflight, in their order,
  -- and a receipt with the hash of the payload and their numbers. Each of these rows has the job's,
  -- its engagement's and its case's identifier. An item has the case's URL, cut to 2000, the
  -- finding's category, cut to 50, a known severity, which is the finding's if that is known, the
  -- redacted message, cut to 200, for its title unless that is empty, and a redacted description. A
  -- piece of evidence has the row's redacted identity or none, a known outcome and a redacted body.
  pub upload_job_result-stored :
      (id : ℕ) (body : VardrGateUpload) (user : CurrentUser) (db : Db) (store store' : ResultDb)
      (s : Stored)
      → upload_job_result repr hash redact_text id body user db store ≡ ok (s, store')
      → (job : ScanJob) × (find_job id db.jobs ≡ some job)
        × (Again job body s store store' ⊎ First job body db s store store')
  upload_job_result-stored id body user db store store' s h =
      let p = upload-Passed repr hash redact_text id body user db store h in
      (p.job, p.row, by_receipt p.job (find_receipt p.job.id store.receipts) refl p.stored)
    where
      by_receipt :
          (job : ScanJob) (o : Option JobResultReceipt)
          → find_receipt job.id store.receipts ≡ o
          → store_by repr hash redact_text o job body db store ≡ ok (s, store')
          → Again job body s store store' ⊎ First job body db s store store'
      by_receipt job none n k =
          let spec = authoritative_spec repr hash redact_text job db in
          let template = template_of repr hash redact_text body spec in
          let (recorded, of_job, fresh) =
            store_first-Recorded repr hash redact_text job body db store k in
          inr (record {
            no_receipt = n;
            fresh = fresh;
            of_job = of_job;
            recorded = recorded;
            filed =
                subst
                  (λ (r : Stored × ResultDb).
                    Filed repr hash redact_text job body spec template store r.1)
                  (store_first-written repr hash redact_text job body db store k)
                  (write_result-Filed repr hash redact_text job body spec template store);
          })
      by_receipt job (some receipt) n k =
          let (again, e, same) =
            bind_passed (answer_again repr hash redact_text body receipt) _ k in
          let pair = ok-injective same in
          inl (record {
            receipt = receipt;
            found = n;
            answer =
                ap (λ (r : Stored × ResultDb). r.0) (sym pair)
                ∙ sym (answer-kept repr hash redact_text body receipt e);
            same_payload = again-same_payload body receipt e;
            kept = ap (λ (r : Stored × ResultDb). r.1) (sym pair);
          })
