-- ===== src/Members.antt =====
-- backend/routers/members.py: inviting collaborators to an engagement, and removing them.
pub mod Roster
mod Tests
use vardr_map.Base.{
  ℕ, String, Bool, true, false, not, ◌&&◌, ◌||◌, List, [], ◌∷◌, ◌==◌, any, count, first, leb,
  str_eq, if◌then◌else◌,
}
use vardr_map.Store.{
  EngagementMember, Db, Error, bad_request, not_found, conflict, unprocessable, Result, ok, err,
  ◌>>=◌, ◌>>◌, raise_if, or_raise, Handler, transaction, erase_first,
}
use vardr_map.Access.{CurrentUser, get_engagement_or_404, require_engagement_owner}

abbrev pub max_members : ℕ
max_members = 20

pub record MemberAdd : Type 0 where
  pub github_id : ℕ
  pub role : String

abbrev pub is_role : String → Bool
is_role role = str_eq role "member" || str_eq role "viewer"

abbrev pub is_member : ℕ → ℕ → EngagementMember → Bool
is_member program github_id m = m.program_id == program && m.member_github_id == github_id

abbrev pub is_of : ℕ → EngagementMember → Bool
is_of program m = m.program_id == program

-- `POST /engagements/{program_id}/members`
unfoldable pub add_member : ℕ → MemberAdd → CurrentUser → Handler EngagementMember
add_member program body user db = transaction db do
  raise_if (not (is_role body.role)) unprocessable
  e ← get_engagement_or_404 program user db
  require_engagement_owner e user
  raise_if (body.github_id == user.github_id) bad_request
  raise_if (any (is_member program body.github_id) db.members) conflict
  raise_if (leb max_members (count (is_of program) db.members)) bad_request
  let member : EngagementMember = record {
    program_id = program;
    member_github_id = body.github_id;
    role = body.role;
  }
  ok (member, record db { members = member ∷ db.members })

-- `DELETE /engagements/{program_id}/members/{member_github_id}`
unfoldable pub remove_member : ℕ → ℕ → CurrentUser → Handler (Unit {0})
remove_member program github_id user db = transaction db do
  e ← get_engagement_or_404 program user db
  require_engagement_owner e user
  or_raise (first (is_member program github_id) db.members) not_found
  ok (tt, record db { members = erase_first (is_member program github_id) db.members })

pub data MemberCall : Type 0 where
  add : ℕ → MemberAdd → MemberCall
  remove : ℕ → ℕ → MemberCall

pub record MemberEvent : Type 0 where
  pub call : MemberCall
  pub user : CurrentUser

unfoldable pub perform : MemberCall → CurrentUser → Db → Db
perform (add program body) user db = (add_member program body user db).1
perform (remove program github_id) user db = (remove_member program github_id user db).1

abbrev pub run : List MemberEvent → Db → Db
run [] db = db
run (e ∷ es) db = run es (perform e.call e.user db)
