-- ===== src/Access.antt =====
-- backend/deps.py: who may reach an engagement, and with what role.
pub mod Roles
pub mod Reach
mod Tests
use vardr_map.Base.{
  ℕ, String, Bool, true, false, not, ◌&&◌, ◌||◌, Option, none, some, List, [], ◌∷◌, ◌++◌, map, ◌==◌,
  ltb, if◌then◌else◌, any, first, select, is_some, str_eq,
}
use vardr_map.Store.{
  OrganizationMember, EngagementMember, Engagement, Db, find_engagement, Error, not_found,
  forbidden, Result, ok, err, ◌>>=◌, ◌>>◌, raise_if, or_raise,
}

-- What `get_current_user` returns, less the name and the address.
pub record CurrentUser : Type 0 where
  pub github_id : ℕ
  pub scope : String

-- `ROLE_RANK.get(r, 0)`
unfoldable pub rank : String → ℕ
rank r =
    if str_eq r "owner"
    then 3
    else if str_eq r "admin"
    then 2
    else if str_eq r "member"
    then 1
    else 0

abbrev pub member_role : Option OrganizationMember → Option String
member_role none = none
member_role (some m) = some m.role

-- `member[0] or "member"`
abbrev pub guest_role : Option EngagementMember → Option String
guest_role none = none
guest_role (some m) = some (if str_eq m.role "" then "member" else m.role)

unfoldable pub org_role : Option ℕ → ℕ → Db → Option String
org_role none github_id db = none
org_role (some org) github_id db =
    member_role (first (λ m. m.org_id == org && m.github_id == github_id) db.org_members)

unfoldable pub invited_role : ℕ → ℕ → Db → Option String
invited_role program github_id db =
    guest_role (first (λ m. m.program_id == program && m.member_github_id == github_id) db.members)

-- `if role: roles.append(role)`, which passes over an empty role.
abbrev pub append_role : Option String → List String → List String
append_role none roles = roles
append_role (some role) roles = if str_eq role "" then roles else roles ++ role ∷ []

abbrev pub append_invited : Option String → List String → List String
append_invited none roles = roles
append_invited (some role) roles = roles ++ role ∷ []

-- `max(roles, key=rank)`: the first of the highest.
abbrev pub max_role : String → List String → String
max_role best [] = best
max_role best (r ∷ rs) = max_role (if ltb (rank best) (rank r) then r else best) rs

abbrev pub highest : List String → Option String
highest [] = none
highest (r ∷ rs) = some (max_role r rs)

unfoldable pub engagement_access : Engagement → ℕ → Db → Option String
engagement_access e github_id db =
    if e.owner_github_id == github_id
    then some "owner"
    else highest (
        append_invited (invited_role e.id github_id db)
          (append_role (org_role e.org_id github_id db) []))

unfoldable pub get_engagement_or_404 : ℕ → CurrentUser → Db → Result Engagement
get_engagement_or_404 program user db = do
  e ← or_raise (find_engagement program db.engagements) not_found
  raise_if (not (is_some (engagement_access e user.github_id db))) not_found
  ok e

-- De-duplication that keeps the order of first occurrences.
abbrev pub contains_id : ℕ → List ℕ → Bool
contains_id x xs = any (λ y. y == x) xs

unfoldable pub dedup_from : List ℕ → List ℕ → List ℕ
dedup_from seen [] = []
dedup_from seen (x ∷ xs) =
    let again = dedup_from seen xs in
    let fresh = dedup_from (x ∷ seen) xs in if contains_id x seen then again else x ∷ fresh

abbrev pub in_org : List ℕ → Option ℕ → Bool
in_org orgs none = false
in_org orgs (some org) = contains_id org orgs

unfoldable pub owned_ids : ℕ → Db → List ℕ
owned_ids github_id db =
    map (λ e. e.id) (select (λ e. e.owner_github_id == github_id) db.engagements)

unfoldable pub org_ids : ℕ → Db → List ℕ
org_ids github_id db = map (λ m. m.org_id) (select (λ m. m.github_id == github_id) db.org_members)

unfoldable pub via_org_ids : ℕ → Db → List ℕ
via_org_ids github_id db =
    map (λ e. e.id) (select (λ e. in_org (org_ids github_id db) e.org_id) db.engagements)

unfoldable pub invited_ids : ℕ → Db → List ℕ
invited_ids github_id db =
    map (λ m. m.program_id) (select (λ m. m.member_github_id == github_id) db.members)

unfoldable pub accessible_engagement_ids : ℕ → Db → List ℕ
accessible_engagement_ids github_id db =
    dedup_from [] ((owned_ids github_id db ++ via_org_ids github_id db) ++ invited_ids github_id db)

unfoldable pub require_engagement_owner : Engagement → CurrentUser → Result (Unit {0})
require_engagement_owner e user = raise_if (not (e.owner_github_id == user.github_id)) forbidden

abbrev pub is_viewer : Option String → Bool
is_viewer none = false
is_viewer (some role) = str_eq role "viewer"

unfoldable pub require_member_write : Engagement → CurrentUser → Db → Result (Unit {0})
require_member_write e user db =
    raise_if (is_viewer (engagement_access e user.github_id db)) forbidden

unfoldable pub require_full_scope : CurrentUser → Result (Unit {0})
require_full_scope user = raise_if (str_eq user.scope "runner") forbidden

-- A test that evaluates the checks above unfolds this too.
unfoldable pub accessing : Unit {0}
unfolding find_engagement org_role invited_role rank engagement_access dedup_from owned_ids org_ids
    via_org_ids invited_ids accessible_engagement_ids
accessing = tt
