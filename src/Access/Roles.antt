-- ===== src/Access/Roles.antt =====
-- backend/deps.py: the effective role is the highest grant, and what a caller without one sees.
use mathlib.Core.Path.{subst}
use mathlib.Core.Bool.{false≢true}
use vardr_map.Base.{
  ℕ, ◌≤◌, String, ◌≡◌, refl, ap, sym, ◌∙◌, ◌≢◌, ◌↔◌, ◌⊎◌, inl, inr, true, Option, none, some, [],
  arith, ◌==◌, Bool-cases, Option-cases, is_some, str_eq, eq_iff,
}
use vardr_map.Store.{Engagement, Db, find_engagement, not_found, ok, err, ok-injective, err-ne-ok}
use vardr_map.Access.{
  CurrentUser, rank, org_role, invited_role, append_role, append_invited, highest,
  engagement_access, get_engagement_or_404,
}

-- The role that a grant gives ranks no higher than `role`; an absent grant says nothing.
abbrev pub RanksBelow : Option String → String → Type 0
RanksBelow none role = Unit
RanksBelow (some r) role = rank r ≤ rank role

rank-empty : (r : String) → str_eq r "" ≡ true → rank r ≡ 0
rank-empty r h = rw ((eq_iff r "").0 h) (unfold rank in refl)

highest-RanksBelow :
    (invited org : Option String) (role : String)
    → highest (append_invited invited (append_role org [])) ≡ some role
    → RanksBelow invited role × RanksBelow org role
highest-RanksBelow none none role h = cc
highest-RanksBelow none (some r) role h = (tt, ground (arith, ap rank (some_eq r role h)))
  where
    some_eq :
        (r role : String)
        → highest (append_invited none (append_role (some r) [])) ≡ some role
        → r ≡ role
    some_eq r role h = ground arith
highest-RanksBelow (some i) none role h = ground arith
highest-RanksBelow (some i) (some r) role h = ground (arith, rank-empty r)

RanksBelow-owner : (o : Option String) → RanksBelow o "owner"
unfolding rank
RanksBelow-owner none = tt
RanksBelow-owner (some r) = ground arith

-- The effective role ranks at least as high as the caller's organization role and as the caller's
-- invitation, and an owner's role is `owner`.
pub engagement_access-highest :
    (e : Engagement) (uid : ℕ) (db : Db) (role : String)
    → engagement_access e uid db ≡ some role
    → ((role ≡ "owner") ⊎ (e.owner_github_id ≢ uid))
      × RanksBelow (invited_role e.id uid db) role
      × RanksBelow (org_role e.org_id uid db) role
unfolding engagement_access
engagement_access-highest e uid db role h = elim (Bool-cases (e.owner_github_id == uid)) [
  | inl own ↦
      let top : "owner" ≡ role = ground arith in
      subst
        (λ r.
          ((r ≡ "owner") ⊎ (e.owner_github_id ≢ uid))
          × RanksBelow (invited_role e.id uid db) r
          × RanksBelow (org_role e.org_id uid db) r)
        top
        (
          inl refl,
          RanksBelow-owner (invited_role e.id uid db),
          RanksBelow-owner (org_role e.org_id uid db),
        )
  | inr other ↦
      let below =
        highest-RanksBelow (invited_role e.id uid db) (org_role e.org_id uid db) role
          (ground arith) in
      (inr (λ own. ground arith), below.0, below.1)
]

some-injective : {A : Type 0} {a b : A} → some a ≡ some b → a ≡ b
some-injective h = cc h

-- Fetching an engagement succeeds exactly when it exists and the caller has a role on it, and else
-- answers "not found", so the answer does not tell a stranger whether it exists.
pub get_engagement-hides :
    (program : ℕ) (user : CurrentUser) (db : Db) (e : Engagement)
    → ((get_engagement_or_404 program user db ≡ ok e) ↔ (
        (find_engagement program db.engagements ≡ some e)
        × (is_some (engagement_access e user.github_id db) ≡ true)))
      × (((x : Engagement) × (get_engagement_or_404 program user db ≡ ok x))
          ⊎ (get_engagement_or_404 program user db ≡ err not_found))
unfolding get_engagement_or_404
get_engagement-hides program user db e =
    elim (Option-cases (find_engagement program db.engagements)) [
      | inl n ↦ ((λ h. ground arith, λ (f, a). ground arith), inr (ground arith))
      | inr (x, found) ↦ elim (Bool-cases (is_some (engagement_access x user.github_id db))) [
        | inl yes_ ↦
            let got : get_engagement_or_404 program user db ≡ ok x = ground arith in
            (
              (
                λ h.
                    let same = ok-injective (sym got ∙ h) in
                    subst
                      (λ y.
                        (find_engagement program db.engagements ≡ some y)
                        × (is_some (engagement_access y user.github_id db) ≡ true))
                      same (found, yes_),
                λ (f, a). got ∙ ap (λ (y : Engagement). ok y) (some-injective (sym found ∙ f)),
              ),
              inl (x, got),
            )
        | inr no_ ↦
            let got : get_engagement_or_404 program user db ≡ err not_found = ground arith in
            (
              (
                λ h. absurd (err-ne-ok (sym got ∙ h)),
                λ (f, a). absurd (
                    false≢true (
                      sym no_
                      ∙ subst (λ y. is_some (engagement_access y user.github_id db) ≡ true)
                          (some-injective (sym (sym found ∙ f))) a)),
              ),
              inr got,
            )
      ]
    ]
