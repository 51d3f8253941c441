-- ===== src/Lib.antt =====
-- VardrMap, the backend: a service that keeps penetration-test engagements and hands scan jobs to
-- runners. This library models its core: who may reach an engagement, what the policy says of a
-- target, the life of a job from the queue to its end, with the budgets that bound it, the test
-- cases that a job runs, and what the result of a run establishes.
--
-- The parts and the files that model them (paths from the repository's root):
--   Base, Text, Net, Json,  lists and options over native numbers; Python's `str` methods on ASCII
--   Url                     texts as lists of character codes; `ipaddress` and the printing of
--                           its addresses (Net/Print); decoded JSON; `urlsplit`.
--   Store                   the rows of backend/models.py that the handlers read and write, the
--                           searches and writes on a table, and the result of a handler: `ok`,
--                           or the status of an HTTP error. `transaction` undoes a handler that
--                           raises before it commits.
--   Policy                  backend/policy.py. Target: `normalize_target`, `_scheme_and_port`,
--                           `_path_of`. Match: `_host_matches`, `_excludes_host`,
--                           `_rule_matches`, `_path_within`. Decision: `evaluate_engagement`,
--                           `evaluate`, `evaluate_all`. Gates, Rules, Hosts, Paths and Normal
--                           hold the theorems.
--   Enforcement             backend/enforcement.py, which reads the facts for the policy from the
--                           database and refuses for stop-work alone.
--   Access                  backend/deps.py: roles (Roles) and reach (Reach).
--   Budget                  backend/concurrency_budget.py, backend/duration_budget.py and
--                           backend/target_budget.py, with its `binding` in Binding.
--   Members                 backend/routers/members.py, with its Roster.
--   Execution               backend/execution_control.py: the lease of an attempt.
--   Jobs                    backend/routers/jobs.py. Targets: `_resolve_targets`. Config: the
--                           validation of a config (Patterns, Headers, Ffuf, Rate). Create:
--                           `create_job`, with its Ceiling. Update: `update_job`, `delete_job`.
--                           Claim: `claim_job`. Control: `refresh_execution`, `finish_execution`.
--                           Pipeline: `create_pipeline`. Pending: `get_pending_jobs`, which hands
--                           jobs to the runner.
--   Redaction               backend/redaction.py: `redact_mapping`.
--   TestCases               backend/routers/test_cases.py. Read: how a spec is read, the origin of
--                           a URL. Credentials, Preflight, Spec: the checks. Size: the size of a
--                           JSON text. Routes: the calls. Reviewed: `save_reviewed_cases` of
--                           backend/routers/case_authoring.py. Safe, Accepted, Table: the
--                           theorems.
--   Assessment              backend/assessments.py and backend/assessment_evidence.py. Case, Rows:
--                           what is read of a case and of the scanner's rows. Preflight: the
--                           sessions. Semantics: what the scanner's rows change. Judge,
--                           Credentials, Assess: `assess`. Conclusive, Judged, Support: what its
--                           answer rests on.
--   Results                 `store_gate_result` of backend/routers/jobs.py. Payload: what a receipt
--                           is made of. Rows: scan items and evidence. Upload: the call. Once: a
--                           second upload. Filed, Answers: the rows that are filed. It uses
--                           Assessment, Redaction and Jobs.
--   Engagements             backend/routers/engagements.py: stop-work, budget policies, deletion.
--   Lifecycle               what the handlers of the two routers keep together. Row, Lease: one
--                           job's row. Table, Capacity: the table of jobs. Effect, Bounds: the
--                           database.
--                           Inversion, Granting: what a successful call has passed through.
--                           Handlers, Policies: each handler as an effect. Calls, Run: any
--                           sequence of calls. Claims: claims and stop-work. Controller, Control:
--                           leases and reports. Queue, Ready, Handoff, Stages: pipelines and the
--                           hand-off.
--
-- A handler takes the database and returns its result and the database it leaves. Calls run one
-- after the other: the source takes row locks on the engagement and the job, and the claim is one
-- conditional update. The sequences of Lifecycle are of the calls that its Calls lists; an upload of
-- a result, which writes of a job its column `assessment` alone, is in Results. Identifiers are only
-- compared and are numbers; the identifier of a new job, the token of a claim and the time are
-- arguments. A job's execution has the job's id for its key, and is kept in the job.
--
-- Parameters: the hash of a token (`hashlib.sha256`), `str` of a value that is no text, the hash of
-- a dictionary's canonical text, and `redact_text` and `strip_html`, whose regular expressions and
-- sanitizer are not modelled. The calls on jobs take the origins of a stored case as an argument,
-- so that what is shown of them holds for any; Budget/Binding is the source's.
-- Every loop is structural recursion. The one fuel is that of the decimal digits of a number in
-- TestCases/Size and Net/Print: the number itself, more than it has digits.
--
-- A case is assessed with the shapes that the code takes for granted: where `expected_access` or
-- `deny_status` is null the code raises a TypeError, and the model reads an empty list.
--
-- Not modelled: messages and log lines, the audit log, webhooks and listeners; non-ASCII texts and
-- floats; the managed issuance, imports, reports and the other routers.
pub mod Base
pub mod Text
pub mod Net
pub mod Policy
pub mod Json
pub mod Store
pub mod Url
pub mod Access
pub mod Members
pub mod Enforcement
pub mod Budget
pub mod Execution
pub mod Jobs
pub mod Redaction
pub mod TestCases
pub mod Assessment
pub mod Results
pub mod Engagements
pub mod Lifecycle
