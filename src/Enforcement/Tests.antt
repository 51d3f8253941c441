-- ===== src/Enforcement/Tests.antt =====
-- Findings of backend/enforcement.py on a stopped engagement and on one whose grant was revoked.
use vardr_map.Base.{
  ◌≤◌, ◌≡◌, ◌≢◌, ◌↔◌, refl, true, none, some, List, [], ◌∷◌, ◌∈◌, is_some, All, select, ◌==◌, false,
  Option,
}
use vardr_map.Text.{Text, text}
use vardr_map.Policy.Decision.{
  allowed, capability_prohibited, AuthorizationSnapshot, aware, evaluate,
}
use vardr_map.Policy.Decision.{Reason}
use vardr_map.Policy.Gates.{IsOpen}
use vardr_map.Store.{Db, Engagement, Authorization, forbidden, ok, err}
use vardr_map.Enforcement.{check, authorization, latest, snapshot_of, build_input}
use vardr_map.Enforcement.Laws.{
  check-refuses, check-clear, authorization-latest, check-ne-capability_prohibited,
}

abbrev engagement : Engagement
engagement = record {
  id = 1;
  owner_github_id = 7;
  org_id = none;
  engagement_type = "pentest";
  engagement_status = "active";
  stop_work_at = some 90;
  max_request_rate = none;
  concurrency_limit = none;
  target_limit = none;
  targets_spent = 0;
  duration_limit = none;
  duration_allocated = 0;
  managed_authority_revision = 0;
}

abbrev grant : Authorization
grant = record {
  program_id = 1;
  status = "active";
  window_start = none;
  window_end = none;
  created_at = 10;
}

abbrev revocation : Authorization
revocation = record {
  program_id = 1;
  status = "revoked";
  window_start = none;
  window_end = none;
  created_at = 20;
}

abbrev db : Db
db = record {
  org_members = [];
  members = [];
  authorizations = grant ∷ revocation ∷ [];
  scope_items = [];
  recon_items = [];
  test_cases = [];
  engagements = engagement ∷ [];
  jobs = [];
}

abbrev targets : List Text
targets = text "api.example.com" ∷ []

check-refuses_example :
    ((check db engagement "httpx" targets (aware 100) ≡ err forbidden)
      ↔ (is_some engagement.stop_work_at ≡ true))
    × (is_some engagement.stop_work_at ≡ false
        → (finding : Option Reason) × (check db engagement "httpx" targets (aware 100)
            ≡ ok finding))
check-refuses_example = check-refuses db engagement "httpx" targets (aware 100)

check-clear_example : (check db engagement "httpx" targets (aware 100) ≡ ok none) ↔ (
    IsOpen (build_input engagement "httpx" db (aware 100))
    × All
        (λ t.
          evaluate (record (build_input engagement "httpx" db (aware 100)) { target = t })
          ≡ allowed)
        targets)
check-clear_example = check-clear db engagement "httpx" targets (aware 100)

check-ne-capability_prohibited_example :
    check db engagement "httpx" targets (aware 100) ≢ ok (some capability_prohibited)
check-ne-capability_prohibited_example =
    check-ne-capability_prohibited db engagement "httpx" targets (aware 100)

abbrev revoked : AuthorizationSnapshot
revoked = record {
  status = "revoked";
  window_start = none;
  window_end = none;
  permitted_capabilities = [];
}

sees_revocation : authorization 1 db ≡ some revoked
unfolding authorization latest
sees_revocation = refl

authorization-latest_example :
    (a : Authorization) × (a ∈ db.authorizations)
    × (a.program_id ≡ 1)
    × (snapshot_of (some a) ≡ some revoked)
    × All (λ b. b.created_at ≤ a.created_at) (select (λ row. row.program_id == 1) db.authorizations)
authorization-latest_example = authorization-latest 1 db sees_revocation
