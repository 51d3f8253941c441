-- ===== src/Members/Tests.antt =====
-- A collaborator who is invited to an engagement and then removed.
use vardr_map.Base.{◌≡◌, ◌==◌, refl, arith, false, none, some, List, [], ◌∷◌}
use vardr_map.Store.{Db, Engagement, ok, err, not_found, transaction, find_engagement}
use vardr_map.Access.{
  CurrentUser, accessing, get_engagement_or_404, require_engagement_owner, invited_role, org_role,
}
use vardr_map.Members.{add_member, remove_member, add, MemberEvent, perform, run}
use vardr_map.Members.Roster.{IsRoster, remove_member-revokes}

abbrev engagement : Engagement
engagement = record {
  id = 1;
  owner_github_id = 7;
  org_id = none;
  engagement_type = "bug_bounty";
  engagement_status = "active";
  stop_work_at = none;
  max_request_rate = none;
  concurrency_limit = none;
  target_limit = none;
  targets_spent = 0;
  duration_limit = none;
  duration_allocated = 0;
  managed_authority_revision = 0;
}

abbrev start : Db
start = record {
  org_members = [];
  members = [];
  authorizations = [];
  scope_items = [];
  recon_items = [];
  test_cases = [];
  engagements = engagement ∷ [];
  jobs = [];
}

abbrev owner : CurrentUser
owner = record { github_id = 7; scope = "full" }

abbrev guest : CurrentUser
guest = record { github_id = 8; scope = "full" }

abbrev invitation : List MemberEvent
invitation = record { call = add 1 (record { github_id = 8; role = "viewer" }); user = owner } ∷ []

-- The guest sees the engagement before the removal and not after it.
invites : get_engagement_or_404 1 guest (run invitation start) ≡ ok engagement
unfolding accessing find_engagement get_engagement_or_404 require_engagement_owner transaction
    perform add_member
invites = refl

removes : remove_member 1 8 owner (run invitation start) ≡ (ok tt, start)
unfolding accessing find_engagement get_engagement_or_404 require_engagement_owner transaction
    perform add_member remove_member
removes = refl

start-IsRoster : IsRoster start.members
start-IsRoster = record { once = λ p g. omega arith; few = λ p. omega arith }

remove_member-revokes_example :
    IsRoster start.members
    × (invited_role 1 8 start ≡ none)
    × ((removed : CurrentUser) (e : Engagement)
        → removed.github_id ≡ 8
        → find_engagement 1 start.engagements ≡ some e
        → (e.owner_github_id == 8) ≡ false
        → org_role e.org_id 8 start ≡ none
        → get_engagement_or_404 1 removed start ≡ err not_found)
remove_member-revokes_example =
    remove_member-revokes invitation start start-IsRoster 1 8 owner start removes
