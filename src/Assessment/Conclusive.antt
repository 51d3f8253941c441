-- ===== src/Assessment/Conclusive.antt =====
-- backend/assessments.py: a run is conclusive only on a verified snapshot, with sessions that were
-- established, a working legitimate baseline and every identity evaluated.
use mathlib.Core.Path.{subst}
use mathlib.Core.Bool.{false≢true}
use vardr_map.Base.{
  ℕ, ◌≤◌, ◌<◌, ◌≡◌, refl, ap, sym, ◌∙◌, ◌↔◌, Bool, true, false, ◌&&◌, List, [], ◌∷◌, arith, any,
  count, length, map, Bool-cases, inl, inr, All, ◌∈◌, any-mem,
}
use vardr_map.Text.{Text, text}
use vardr_map.Json.{Value, Fields}
use vardr_map.Assessment.Case.{Item, is_evaluated}
use vardr_map.Assessment.Rows.{safe_semantic_row}
use vardr_map.Assessment.Report.{Status, Assessment}
use vardr_map.Assessment.Assess.{
  status_of, is_baseline, demote_evaluated, demote_unskipped, is_established, settled_items, assess,
}

count-le-length : {A : Type 0} (p : A → Bool) (xs : List A) → count p xs ≤ length xs
count-le-length p [] = omega arith
count-le-length p (x ∷ xs) = ground (arith, count-le-length p xs)

count-All :
    {A : Type 0} (p : A → Bool) (xs : List A) → (count p xs ≡ length xs) ↔ All (λ x. p x ≡ true) xs
count-All p [] = (λ h. tt, λ h. refl)
count-All p (x ∷ xs) = ground (arith, count-All p xs, count-le-length p xs)

status_of-conclusive :
    (items : List Item) (unexpected : ℕ)
    → (status_of items unexpected ≡ Status.conclusive)
      ↔ ((0 < length items) × All (λ i. is_evaluated i ≡ true) items × (unexpected ≡ 0))
unfolding status_of
status_of-conclusive items unexpected = ground (arith, count-All is_evaluated items)

-- An item that a demotion leaves evaluated was evaluated, and the condition held.
demoted :
    (ok : Bool) (reason : Text) (item : Item)
    → is_evaluated (demote_evaluated ok reason item) ≡ true
    → (ok ≡ true) × (demote_evaluated ok reason item ≡ item)
demoted true reason item h = (refl, refl)
demoted false reason item h = elim (Bool-cases (is_evaluated item)) [
  | inl e ↦ absurd (false≢true (rw e at h))
  | inr e ↦ absurd (false≢true (sym e ∙ (rw e at h)))
]

map-demote_kept :
    (reason : Text) (items : List Item) → map (demote_evaluated true reason) items ≡ items
map-demote_kept reason [] = refl
map-demote_kept reason (i ∷ is) = ap (λ r. i ∷ r) (map-demote_kept reason is)

-- One evaluated item shows the session to be established.
unskipped_established :
    (ok : Bool) (item : Item) → is_evaluated (demote_unskipped ok item) ≡ true → ok ≡ true
unskipped_established true item h = refl
unskipped_established false item h = ground arith

-- What a conclusive run shows.
pub record Conclusive (a : Assessment) (case_verified : Bool) : Type 0 where
  pub some_identity : 0 < length a.identities
  pub all_evaluated : All (λ i. is_evaluated i ≡ true) a.identities
  pub none_unexpected : a.unexpected ≡ 0
  pub verified : case_verified ≡ true
  pub baseline : (i : Item) × (i ∈ a.identities) × (is_baseline i ≡ true)
  pub session : is_established a.preflight ≡ true

-- The facts about the items alone.
module _ (reason : Text) (verified : Bool) where
  items_baseline :
      (settled : List Item)
      → let items = map (demote_evaluated (verified && any is_baseline settled) reason) settled in
        0 < length items
        → All (λ i. is_evaluated i ≡ true) items
        → (verified ≡ true) × ((i : Item) × (i ∈ items) × (is_baseline i ≡ true))
  items_baseline [] n h = absurd (omega arith)
  items_baseline (s ∷ ss) n h =
      let settled = s ∷ ss in
      let (b, _) = demoted (verified && any is_baseline settled) reason s h.0 in
      let (i, m, q) = any-mem is_baseline settled (ground arith) in
      let same = map-demote_kept reason settled in
      (
        ground arith,
        (
          i,
          subst (λ ok. i ∈ map (demote_evaluated ok reason) settled) (sym b)
              (subst (λ xs. i ∈ xs) (sym same) m),
          q,
        ),
      )

  items_established :
      (ok established : Bool) (f : Fields → Item) (ids : List Fields)
      → let items =
          map (demote_evaluated ok reason) (map (λ x. demote_unskipped established (f x)) ids) in
        0 < length items → All (λ i. is_evaluated i ≡ true) items → established ≡ true
  items_established ok established f [] n h = absurd (omega arith)
  items_established ok established f (x ∷ xs) n h =
      let item = demote_unskipped established (f x) in
      let (_, same) = demoted ok reason item h.0 in
      unskipped_established established (f x) (sym (ap is_evaluated same) ∙ h.0)

module _ (repr : Value → Text) (digest : Fields → Text) where
  -- A run is conclusive exactly when it has an identity, every identity is evaluated and no row is
  -- of an unexpected one; and then the snapshot was verified, the sessions were established, or
  -- none was declared, and some identity with the expected decision `allow` is evaluated.
  pub assess-conclusive :
      (spec : Fields) (executions : List Fields) (n : ℕ) (verified : Bool)
      (preflight semantic : List Fields)
      → let a = assess repr digest spec executions n verified preflight semantic in
        (a.status ≡ Status.conclusive) ↔ Conclusive a verified
  unfolding assess settled_items
  assess-conclusive spec executions n verified preflight semantic =
      let a = assess repr digest spec executions n verified preflight semantic in
      let split = status_of-conclusive a.identities a.unexpected in
      (
        λ h.
            let (some_, all_, none_) = split.0 h in
            let settled =
              settled_items repr digest spec executions verified a.preflight
                (map safe_semantic_row semantic) in
            let (v, base) =
              items_baseline (text "legitimate_baseline_missing") verified settled some_ all_ in
            record {
              some_identity = some_;
              all_evaluated = all_;
              none_unexpected = none_;
              verified = v;
              baseline = base;
              session =
                  items_established (text "legitimate_baseline_missing") verified _ _ _ _ some_
                    all_;
            },
        λ c. split.1 (c.some_identity, c.all_evaluated, c.none_unexpected),
      )
