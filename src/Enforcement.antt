-- ===== src/Enforcement.antt =====
-- backend/enforcement.py: the facts that the policy needs, and the advisory outcome.
pub mod Laws
mod Tests
use vardr_map.Base.{
  ℕ, String, Bool, true, false, not, ◌&&◌, ◌||◌, Option, none, some, List, [], ◌∷◌, ◌++◌, map, ◌==◌,
  ltb, leb, if◌then◌else◌, select, is_some, str_eq,
}
use vardr_map.Text.{Text, eqb}
use vardr_map.Policy.Match.{ScopeRule}
use vardr_map.Policy.Decision.{
  Reason, allowed, stop_work_active, DateTime, AuthorizationSnapshot, PolicyInput, evaluate_all,
}
use vardr_map.Store.{Authorization, ScopeItem, Engagement, Db, Error, forbidden, Result, ok, err}

abbrev pub rule_of : ScopeItem → ScopeRule
rule_of row = record {
  value = row.value;
  kind = if str_eq row.kind "" then "domain" else row.kind;
  excluded = str_eq row.scope_type "out";
}

-- `_scope_rules`
unfoldable pub scope_rules : ℕ → Db → List ScopeRule
scope_rules program db =
    map rule_of (select (λ row. row.program_id == program && not (eqb row.value [])) db.scope_items)

-- `order_by(created_at.desc()).first()`; which of several rows of one moment comes first is not
-- stated by the query, and here it is the first of them.
unfoldable pub latest : Option Authorization → List Authorization → Option Authorization
latest best [] = best
latest none (a ∷ rows) = latest (some a) rows
latest (some b) (a ∷ rows) = latest (some (if ltb b.created_at a.created_at then a else b)) rows

abbrev pub snapshot_of : Option Authorization → Option AuthorizationSnapshot
snapshot_of none = none
snapshot_of (some row) = some (record {
  status = row.status;
  window_start = row.window_start;
  window_end = row.window_end;
  permitted_capabilities = [];
})

-- `_authorization`
unfoldable pub authorization : ℕ → Db → Option AuthorizationSnapshot
authorization program db =
    snapshot_of (latest none (select (λ row. row.program_id == program) db.authorizations))

unfoldable pub build_input : Engagement → String → Db → DateTime → PolicyInput
build_input engagement capability db now = record {
  engagement_status = engagement.engagement_status;
  engagement_type = engagement.engagement_type;
  target = [];
  capability = capability;
  now = now;
  stop_work = is_some engagement.stop_work_at;
  authorization = authorization engagement.id db;
  scope_rules = scope_rules engagement.id db;
}

-- `None` for nothing to flag, the decision to warn of, or a refusal for stop-work alone.
unfoldable pub outcome : Reason → Result (Option Reason)
outcome allowed = ok none
outcome stop_work_active = err forbidden
outcome reason = ok (some reason)

unfoldable pub check : Db → Engagement → String → List Text → DateTime → Result (Option Reason)
check db engagement capability targets now =
    outcome (evaluate_all (build_input engagement capability db now) targets)

-- `as_warnings`, of what `check` returns.
unfoldable pub as_warnings : Option Reason → List Reason
as_warnings none = []
as_warnings (some allowed) = []
as_warnings (some reason) = reason ∷ []
