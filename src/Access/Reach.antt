-- ===== src/Access/Reach.antt =====
-- backend/deps.py: the list of reachable engagements agrees with the check on a single one.
use mathlib.Core.Path.{subst}
use vardr_map.Base.{
  ℕ, String, ◌≡◌, refl, sym, ap, ◌∙◌, ◌≢◌, inl, inr, Bool, true, false, not, ◌&&◌, ◌||◌, Option,
  none, some, List, [], ◌∷◌, ◌++◌, map, arith, ◌==◌, Bool-cases, Option-cases, any, first, select,
  is_some, str_eq, eq_iff, ◌∈◌, any-mem, mem-any,
}
use vardr_map.Store.{OrganizationMember, EngagementMember, Engagement, Db}
use vardr_map.Store.Laws.{first-mem}
use vardr_map.Access.{
  org_role, invited_role, append_role, append_invited, highest, guest_role, engagement_access,
  contains_id, dedup_from, in_org, owned_ids, org_ids, via_org_ids, invited_ids,
  accessible_engagement_ids,
}

contains_id-append :
    (x : ℕ) (xs ys : List ℕ) → contains_id x (xs ++ ys) ≡ (contains_id x xs || contains_id x ys)
contains_id-append x [] ys = refl
contains_id-append x (y ∷ xs) ys = ground (arith, contains_id-append x xs ys)

-- De-duplication keeps exactly the members that were not seen before.
contains_id-dedup_from :
    (x : ℕ) (seen xs : List ℕ)
    → contains_id x (dedup_from seen xs) ≡ (contains_id x xs && not (contains_id x seen))
unfolding dedup_from
contains_id-dedup_from x seen [] = refl
contains_id-dedup_from x seen (y ∷ xs) = elim (Bool-cases (y == x)) [
  | inl same ↦
      let e : y ≡ x = ground arith in
      ground (
        arith,
        contains_id-dedup_from x seen xs,
        contains_id-dedup_from x (y ∷ seen) xs,
        ap (λ (z : ℕ). contains_id z seen) e,
      )
  | inr other ↦
      ground (arith, contains_id-dedup_from x seen xs, contains_id-dedup_from x (y ∷ seen) xs)
]

-- A list of keys contains a key exactly when some selected row has it.
module _ {A : Type 0} (key : A → ℕ) (p : A → Bool) where
  contains_id-select :
      (x : ℕ) (rows : List A)
      → contains_id x (map key (select p rows)) ≡ any (λ r. key r == x && p r) rows
  contains_id-select x [] = refl
  contains_id-select x (r ∷ rows) = ground (arith, contains_id-select x rows)

first-any : {A : Type 0} (p : A → Bool) (rows : List A) → is_some (first p rows) ≡ any p rows
first-any p [] = refl
first-any p (r ∷ rows) = ground (arith, first-any p rows)

Bool-ext : (a b : Bool) → (a ≡ true → b ≡ true) → (b ≡ true → a ≡ true) → a ≡ b
Bool-ext true b h k = sym (h refl)
Bool-ext false true h k = k refl
Bool-ext false false h k = refl

-- Identifiers are a primary key.
abbrev pub HasUniqueId : Engagement → List Engagement → Type 0
HasUniqueId e es = (r : Engagement) → r ∈ es → r.id ≡ e.id → r ≡ e

any_unique :
    (p : Engagement → Bool) (e : Engagement) (es : List Engagement)
    → e ∈ es
    → HasUniqueId e es
    → any (λ r. (r.id == e.id) && p r) es ≡ p e
any_unique p e es m unique =
    Bool-ext _ _
      (λ h.
        let (r, m', q) = any-mem (λ r. (r.id == e.id) && p r) es h in
        let same : r ≡ e = unique r m' (ground arith) in
        subst (λ (x : Engagement). p x ≡ true) same (ground arith))
      (λ h. mem-any (λ r. (r.id == e.id) && p r) m (ground arith))

-- Every membership row states a role.
abbrev pub HaveRoles : List OrganizationMember → Type 0
HaveRoles ms = (m : OrganizationMember) → m ∈ ms → m.role ≢ ""

abbrev counts : Option String → Bool
counts none = false
counts (some role) = not (str_eq role "")

highest-append :
    (invited org : Option String)
    → is_some (highest (append_invited invited (append_role org [])))
      ≡ (counts org || is_some invited)
highest-append none none = refl
highest-append none (some r) = ground arith
highest-append (some i) none = refl
highest-append (some i) (some r) = ground arith

-- The caller has a membership row of the organization.
abbrev is_member : ℕ → ℕ → List OrganizationMember → Bool
is_member org uid ms = any (λ m. (m.org_id == org) && (m.github_id == uid)) ms

org_role-counts :
    (org uid : ℕ) (db : Db)
    → HaveRoles db.org_members
    → counts (org_role (some org) uid db) ≡ is_member org uid db.org_members
unfolding org_role
org_role-counts org uid db have =
    let p : OrganizationMember → Bool = λ m. (m.org_id == org) && (m.github_id == uid) in
    elim (Option-cases (first p db.org_members)) [
      | inl e ↦ ground (arith, first-any p db.org_members)
      | inr (m, e) ↦ ground (
        arith,
        first-any p db.org_members,
        have m (first-mem p db.org_members e).0,
        eq_iff m.role "",
      )
    ]

in_org-via :
    (o : Option ℕ) (uid : ℕ) (db : Db)
    → HaveRoles db.org_members
    → counts (org_role o uid db) ≡ in_org (org_ids uid db) o
unfolding org_ids
in_org-via none uid db have = unfold org_role in refl
in_org-via (some org) uid db have =
    org_role-counts org uid db have
    ∙ sym (
        contains_id-select {A = OrganizationMember} (λ m. m.org_id) (λ m. m.github_id == uid) org
          db.org_members)

invited-some :
    (program uid : ℕ) (db : Db)
    → is_some (invited_role program uid db) ≡ contains_id program (invited_ids uid db)
unfolding invited_role invited_ids
invited-some program uid db =
    let p : EngagementMember → Bool =
      λ m. (m.program_id == program) && (m.member_github_id == uid) in
    is_some-guest_role (first p db.members)
    ∙ first-any p db.members
    ∙ sym (
        contains_id-select {A = EngagementMember} (λ m. m.program_id)
          (λ m. m.member_github_id == uid) program db.members)
  where
    is_some-guest_role : (o : Option EngagementMember) → is_some (guest_role o) ≡ is_some o
    is_some-guest_role none = refl
    is_some-guest_role (some m) = refl

accessible-split :
    (uid : ℕ) (db : Db) (id : ℕ)
    → contains_id id (accessible_engagement_ids uid db) ≡ (
        contains_id id (owned_ids uid db)
        || contains_id id (via_org_ids uid db)
        || contains_id id (invited_ids uid db))
unfolding accessible_engagement_ids
accessible-split uid db id = ground (
  arith,
  contains_id-dedup_from id [] ((owned_ids uid db ++ via_org_ids uid db) ++ invited_ids uid db),
  contains_id-append id (owned_ids uid db ++ via_org_ids uid db) (invited_ids uid db),
  contains_id-append id (owned_ids uid db) (via_org_ids uid db),
)

access-split :
    (uid : ℕ) (db : Db) (e : Engagement)
    → is_some (engagement_access e uid db) ≡ (
        (e.owner_github_id == uid)
        || counts (org_role e.org_id uid db)
        || is_some (invited_role e.id uid db))
unfolding engagement_access
access-split uid db e =
    ground (arith, highest-append (invited_role e.id uid db) (org_role e.org_id uid db))

owned_unique :
    (uid : ℕ) (db : Db) (e : Engagement)
    → e ∈ db.engagements
    → HasUniqueId e db.engagements
    → contains_id e.id (owned_ids uid db) ≡ (e.owner_github_id == uid)
unfolding owned_ids
owned_unique uid db e m unique =
    contains_id-select {A = Engagement} (λ r. r.id) (λ r. r.owner_github_id == uid) e.id
      db.engagements
    ∙ any_unique (λ r. r.owner_github_id == uid) e db.engagements m unique

via_unique :
    (uid : ℕ) (db : Db) (e : Engagement)
    → e ∈ db.engagements
    → HasUniqueId e db.engagements
    → contains_id e.id (via_org_ids uid db) ≡ in_org (org_ids uid db) e.org_id
unfolding via_org_ids
via_unique uid db e m unique =
    contains_id-select {A = Engagement} (λ r. r.id) (λ r. in_org (org_ids uid db) r.org_id) e.id
      db.engagements
    ∙ any_unique (λ r. in_org (org_ids uid db) r.org_id) e db.engagements m unique

-- An engagement is in the caller's list exactly when the caller has a role on it, so the endpoints
-- that list and those that fetch one engagement agree. This holds where identifiers are unique
-- and every membership row states a role.
pub accessible-iff-access :
    (uid : ℕ) (db : Db) (e : Engagement)
    → e ∈ db.engagements
    → HasUniqueId e db.engagements
    → HaveRoles db.org_members
    → contains_id e.id (accessible_engagement_ids uid db) ≡ is_some (engagement_access e uid db)
accessible-iff-access uid db e m unique have = simp (
  accessible-split,
  access-split,
  owned_unique uid db e m unique,
  via_unique uid db e m unique,
  in_org-via e.org_id uid db have,
  invited-some,
)
