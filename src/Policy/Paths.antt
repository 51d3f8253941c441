-- ===== src/Policy/Paths.antt =====
-- backend/policy.py: a URL rule's path covers itself and what lies below it by whole segments.
use vardr_map.Base.{◌≡◌, sym, ◌∙◌, ◌↔◌, ◌⊎◌, inl, inr, true, false, ◌∷◌, ◌++◌, arith, Bool-cases}
use mathlib.Core.List.{append_assoc}
use vardr_map.Text.{Text, text, eqb, starts_with, ends_with}
use vardr_map.Text.Laws.{eqb_iff, starts_with-split, starts_with-append}
use vardr_map.Policy.Match.{path_within}

starts_with_iff : (s p : Text) → (starts_with s p ≡ true) ↔ ((r : Text) × (s ≡ p ++ r))
starts_with_iff s p = (starts_with-split s p, λ (r, e). rw e (starts_with-append p r))

-- A rule whose path does not end in "/" covers a path exactly when it is that path, or that path
-- followed by "/" and anything: a longer sibling such as `/v1/administrator` for `/v1/admin` is
-- not covered.
pub path_within_iff :
    (target rule : Text)
    → ends_with rule (text "/") ≡ false
    → (path_within target rule ≡ true)
      ↔ ((target ≡ rule) ⊎ ((rest : Text) × (target ≡ rule ++ (b'/' ∷ rest))))
unfolding path_within
path_within_iff target rule no_slash = rw no_slash (
  λ h. elim (Bool-cases (eqb target rule)) [
    | inl e ↦ inl ((eqb_iff target rule).0 e)
    | inr e ↦
        let (r, q) = (starts_with_iff target (rule ++ text "/")).0 (ground arith) in
        inr (r, q ∙ append_assoc rule (text "/") r)
  ],
  λ h. elim h [
    | inl e ↦ ground (arith, eqb_iff target rule)
    | inr (r, q) ↦
        let below =
          (starts_with_iff target (rule ++ text "/")).1
            (r, q ∙ sym (append_assoc rule (text "/") r)) in
        ground arith
  ],
)
