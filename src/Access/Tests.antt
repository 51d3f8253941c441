-- ===== src/Access/Tests.antt =====
-- Access of backend/deps.py in a database of one engagement.
use vardr_map.Base.{
  String, ◌≡◌, ◌≢◌, ◌↔◌, ◌⊎◌, refl, true, none, some, [], ◌∷◌, here, there, is_some,
}
use vardr_map.Store.{Db, Engagement, OrganizationMember, find_engagement, not_found, ok, err}
use vardr_map.Access.{
  CurrentUser, accessing, engagement_access, get_engagement_or_404, accessible_engagement_ids,
  contains_id, invited_role, org_role,
}
use vardr_map.Access.Reach.{HasUniqueId, HaveRoles, accessible-iff-access}
use vardr_map.Access.Roles.{RanksBelow, engagement_access-highest, get_engagement-hides}

abbrev engagement : Engagement
engagement = record {
  id = 1;
  owner_github_id = 7;
  org_id = some 3;
  engagement_type = "pentest";
  engagement_status = "active";
  stop_work_at = none;
  max_request_rate = none;
  concurrency_limit = none;
  target_limit = none;
  targets_spent = 0;
  duration_limit = none;
  duration_allocated = 0;
  managed_authority_revision = 0;
}

abbrev colleague : OrganizationMember
colleague = record { org_id = 3; github_id = 8; role = "admin" }

abbrev db : Db
db = record {
  org_members = colleague ∷ [];
  members = record { program_id = 1; member_github_id = 8; role = "viewer" } ∷ [];
  authorizations = [];
  scope_items = [];
  recon_items = [];
  test_cases = [];
  engagements = engagement ∷ [];
  jobs = [];
}

only_row-HasUniqueId : HasUniqueId engagement db.engagements
only_row-HasUniqueId r here h = refl
only_row-HasUniqueId r (there m) h = elim m [ ]

only_member-HaveRoles : HaveRoles db.org_members
only_member-HaveRoles m here h = cc h
only_member-HaveRoles m (there k) h = elim k [ ]

accessible-iff-access_example :
    contains_id 1 (accessible_engagement_ids 8 db) ≡ is_some (engagement_access engagement 8 db)
accessible-iff-access_example =
    accessible-iff-access 8 db engagement here only_row-HasUniqueId only_member-HaveRoles

is_admin : engagement_access engagement 8 db ≡ some "admin"
unfolding accessing
is_admin = refl

engagement_access-highest_example :
    ((◌≡◌ {A = String} "admin" "owner") ⊎ (engagement.owner_github_id ≢ 8))
    × RanksBelow (invited_role 1 8 db) "admin"
    × RanksBelow (org_role (some 3) 8 db) "admin"
engagement_access-highest_example = engagement_access-highest engagement 8 db "admin" is_admin

abbrev stranger : CurrentUser
stranger = record { github_id = 9; scope = "full" }

get_engagement-hides_example :
    ((get_engagement_or_404 1 stranger db ≡ ok engagement) ↔ (
      (find_engagement 1 db.engagements ≡ some engagement)
      × (is_some (engagement_access engagement 9 db) ≡ true)))
    × (((x : Engagement) × (get_engagement_or_404 1 stranger db ≡ ok x))
        ⊎ (get_engagement_or_404 1 stranger db ≡ err not_found))
get_engagement-hides_example = get_engagement-hides 1 stranger db engagement
