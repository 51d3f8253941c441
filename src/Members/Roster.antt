-- ===== src/Members/Roster.antt =====
-- backend/routers/members.py: who is a member, once, and who no longer is.
use mathlib.Core.Path.{subst}
use vardr_map.Base.{
  ℕ, ◌≡◌, ◌≤◌, refl, sym, Bool, false, not, none, some, List, [], ◌∷◌, ◌==◌, any, count, first, leb,
  arith, Bool-cases, inl, inr,
}
use vardr_map.Store.{
  EngagementMember, Engagement, Db, bad_request, not_found, conflict, unprocessable, ok, err,
  raise_if, or_raise, find_engagement, erase_first, ok-injective, bind_passed,
}
use vardr_map.Store.Laws.{
  first-mem, count-erase_first, transaction-cases, transaction-eq_ok, raise_if-eq_ok,
  or_raise-eq_ok, one_if,
}
use vardr_map.Access.{
  CurrentUser, get_engagement_or_404, require_engagement_owner, engagement_access, invited_role,
  org_role,
}
use vardr_map.Members.{
  max_members, MemberAdd, is_role, is_member, is_of, add_member, remove_member, MemberCall, add,
  remove, MemberEvent, perform, run,
}

-- Nobody is a member of an engagement twice, and no engagement has more than 20 members.
pub record IsRoster (ms : List EngagementMember) : Type 0 where
  pub once : (program github_id : ℕ) → count (is_member program github_id) ms ≤ 1
  pub few : (program : ℕ) → count (is_of program) ms ≤ max_members

count_none : {A : Type 0} (p : A → Bool) (xs : List A) → any p xs ≡ false → count p xs ≡ 0
count_none p [] h = refl
count_none p (x ∷ xs) h = ground (arith, count_none p xs)

first-none : {A : Type 0} (p : A → Bool) (xs : List A) → count p xs ≡ 0 → first p xs ≡ none
first-none p [] h = refl
first-none p (x ∷ xs) h = ground (arith, first-none p xs)

added-IsRoster :
    (m : EngagementMember) (ms : List EngagementMember)
    → any (is_member m.program_id m.member_github_id) ms ≡ false
    → leb max_members (count (is_of m.program_id) ms) ≡ false
    → IsRoster ms
    → IsRoster (m ∷ ms)
added-IsRoster m ms new room h = record {
  once = λ p g. once_of p g (h.once p g);
  few = λ p. few_of p (h.few p);
}
  where
    none_yet : count (is_member m.program_id m.member_github_id) ms ≡ 0
    none_yet = count_none (is_member m.program_id m.member_github_id) ms new

    once_of : (p g : ℕ) → count (is_member p g) ms ≤ 1 → count (is_member p g) (m ∷ ms) ≤ 1
    once_of p g le = elim (Bool-cases (is_member p g m)) [
      | inr e ↦ rw e le
      | inl e ↦
          let same_p : m.program_id ≡ p = ground (arith, e) in
          let same_g : m.member_github_id ≡ g = ground (arith, e) in
          let zero_ =
            subst (λ q. count (is_member q g) ms ≡ 0) same_p
              (subst (λ y. count (is_member m.program_id y) ms ≡ 0) same_g none_yet) in
          rw e (omega (arith, zero_))
    ]

    few_of : (p : ℕ) → count (is_of p) ms ≤ max_members → count (is_of p) (m ∷ ms) ≤ max_members
    few_of p le = elim (Bool-cases (is_of p m)) [
      | inr e ↦ rw e le
      | inl e ↦
          let same_p : m.program_id ≡ p = ground (arith, e) in
          let room_ = subst (λ q. leb max_members (count (is_of q) ms) ≡ false) same_p room in
          rw e (ground (arith, room_))
    ]

erased-le :
    (q p : EngagementMember → Bool) (m : EngagementMember) (ms : List EngagementMember)
    → first p ms ≡ some m
    → count q (erase_first p ms) ≤ count q ms
erased-le q p m ms h = let eq = count-erase_first q p m ms h in omega (arith, eq)

erased-IsRoster :
    (p : EngagementMember → Bool) (m : EngagementMember) (ms : List EngagementMember)
    → first p ms ≡ some m
    → IsRoster ms
    → IsRoster (erase_first p ms)
erased-IsRoster p m ms found h = record {
  once = λ q g. omega (arith, erased-le (is_member q g) p m ms found, h.once q g);
  few = λ q. omega (arith, erased-le (is_of q) p m ms found, h.few q);
}

add_member-IsRoster :
    (program : ℕ) (body : MemberAdd) (user : CurrentUser) (db : Db)
    → IsRoster db.members
    → IsRoster (add_member program body user db).1.members
unfolding add_member
add_member-IsRoster program body user db old =
    transaction-cases (λ d. IsRoster d.members) db _ old
      λ a h.
        let (_, _, h1) = bind_passed (raise_if (not (is_role body.role)) unprocessable) _ h in
        let (e, _, h2) = bind_passed (get_engagement_or_404 program user db) _ h1 in
        let (_, _, h3) = bind_passed (require_engagement_owner e user) _ h2 in
        let (_, _, h4) =
          bind_passed (raise_if (body.github_id == user.github_id) bad_request) _ h3 in
        let (_, new, h5) =
          bind_passed (raise_if (any (is_member program body.github_id) db.members) conflict) _
            h4 in
        let (_, room, h6) =
          bind_passed (raise_if (leb max_members (count (is_of program) db.members)) bad_request) _
            h5 in
        subst (λ (r : EngagementMember × Db). IsRoster r.1.members) (ok-injective h6)
          (added-IsRoster _ db.members (raise_if-eq_ok _ conflict new)
            (raise_if-eq_ok _ bad_request room) old)

remove_member-IsRoster :
    (program github_id : ℕ) (user : CurrentUser) (db : Db)
    → IsRoster db.members
    → IsRoster (remove_member program github_id user db).1.members
unfolding remove_member
remove_member-IsRoster program github_id user db old =
    transaction-cases (λ d. IsRoster d.members) db _ old
      λ a h.
        let (e, _, h1) = bind_passed (get_engagement_or_404 program user db) _ h in
        let (_, _, h2) = bind_passed (require_engagement_owner e user) _ h1 in
        let (m, got, h3) =
          bind_passed (or_raise (first (is_member program github_id) db.members) not_found) _ h2 in
        subst (λ (r : Unit {0} × Db). IsRoster r.1.members) (ok-injective h3)
          (erased-IsRoster (is_member program github_id) m db.members
            (or_raise-eq_ok _ not_found got) old)

pub run-IsRoster :
    (es : List MemberEvent) (db : Db) → IsRoster db.members → IsRoster (run es db).members
unfolding perform
run-IsRoster [] db h = h
run-IsRoster (e ∷ es) db h = run-IsRoster es _ (performed e.call)
  where
    performed : (c : MemberCall) → IsRoster (perform c e.user db).members
    performed (add program body) = add_member-IsRoster program body e.user db h
    performed (remove program github_id) = remove_member-IsRoster program github_id e.user db h

erased-none :
    (program github_id : ℕ) (m : EngagementMember) (ms : List EngagementMember)
    → first (is_member program github_id) ms ≡ some m
    → IsRoster ms
    → first (is_member program github_id) (erase_first (is_member program github_id) ms) ≡ none
erased-none program github_id m ms found h =
    let fits = (first-mem (is_member program github_id) ms found).1 in
    let eq =
      count-erase_first (is_member program github_id) (is_member program github_id) m ms found in
    let one : one_if (is_member program github_id m) ≡ 1 = rw fits refl in
    first-none (is_member program github_id) _ (omega (arith, eq, one, h.once program github_id))

removed-hides :
    (program github_id : ℕ) (user : CurrentUser) (db : Db) (e : Engagement)
    → user.github_id ≡ github_id
    → find_engagement program db.engagements ≡ some e
    → (e.owner_github_id == github_id) ≡ false
    → org_role e.org_id github_id db ≡ none
    → invited_role program github_id db ≡ none
    → get_engagement_or_404 program user db ≡ err not_found
unfolding get_engagement_or_404 engagement_access find_engagement
removed-hides program github_id user db e same found other outside uninvited =
    let fits = (first-mem (λ x. x.id == program) db.engagements found).1 in
    let same_program : e.id ≡ program = ground arith in
    let invited : invited_role e.id user.github_id db ≡ none =
      subst (λ p. invited_role p user.github_id db ≡ none) (sym same_program)
        (subst (λ g. invited_role program g db ≡ none) (sym same) uninvited) in
    let org = subst (λ g. org_role e.org_id g db ≡ none) (sym same) outside in
    let stranger = subst (λ g. (e.owner_github_id == g) ≡ false) (sym same) other in
    rw (found, stranger, org, invited) refl

-- In a database that any sequence of calls has left, from one where nobody is a member of an
-- engagement twice and none has more than 20 members: this still holds, and one that is removed
-- from an engagement has no invitation to it left, so unless it is theirs or their organization
-- gives them a role, they are told that it does not exist.
pub remove_member-revokes :
    (es : List MemberEvent) (start : Db)
    → IsRoster start.members
    → (program github_id : ℕ) (user : CurrentUser) (db' : Db)
    → remove_member program github_id user (run es start) ≡ (ok tt, db')
    → IsRoster db'.members
      × (invited_role program github_id db' ≡ none)
      × ((removed : CurrentUser) (e : Engagement)
          → removed.github_id ≡ github_id
          → find_engagement program db'.engagements ≡ some e
          → (e.owner_github_id == github_id) ≡ false
          → org_role e.org_id github_id db' ≡ none
          → get_engagement_or_404 program removed db' ≡ err not_found)
unfolding remove_member invited_role
remove_member-revokes es start h program github_id user db' ok_ =
    let db = run es start in
    let roster = run-IsRoster es start h in
    let t = transaction-eq_ok db _ ok_ in
    let (e, _, h1) = bind_passed (get_engagement_or_404 program user db) _ t in
    let (_, _, h2) = bind_passed (require_engagement_owner e user) _ h1 in
    let (m, got, h3) =
      bind_passed (or_raise (first (is_member program github_id) db.members) not_found) _ h2 in
    let found = or_raise-eq_ok _ not_found got in
    let none_left = erased-none program github_id m db.members found roster in
    let left : Db = record db { members = erase_first (is_member program github_id) db.members } in
    let uninvited : invited_role program github_id left ≡ none = rw none_left refl in
    subst
      (λ (r : Unit {0} × Db).
        IsRoster r.1.members
        × (invited_role program github_id r.1 ≡ none)
        × ((removed : CurrentUser) (e : Engagement)
            → removed.github_id ≡ github_id
            → find_engagement program r.1.engagements ≡ some e
            → (e.owner_github_id == github_id) ≡ false
            → org_role e.org_id github_id r.1 ≡ none
            → get_engagement_or_404 program removed r.1 ≡ err not_found))
      (ok-injective h3)
      (
        erased-IsRoster (is_member program github_id) m db.members found roster,
        uninvited,
        λ removed x same f o g. removed-hides program github_id removed left x same f o g uninvited,
      )
