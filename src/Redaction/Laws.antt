-- ===== src/Redaction/Laws.antt =====
-- backend/redaction.py: what a redacted structure holds, and what it keeps.
use vardr_map.Base.{◌≡◌, refl, ap, true, false, ◌⊎◌, inl, inr, List, ◌∷◌, Bool-cases}
use vardr_map.Text.{Text}
use vardr_map.Json.{
  Value, str, num, bool, null, obj, arr, Fields, field, end, Items, cons, nil, keys,
}
use vardr_map.Redaction.{placeholder, is_sensitive, walk, walk_fields, walk_items, redact_mapping}

module _ (redact_text : Text → Text) (extra : List Text) where
  -- Every text in the value comes from `redact_text`, but under a sensitive key, where there is
  -- the placeholder and nothing else.
  abbrev mutual
    pub IsRedacted : Value → Type 0
    IsRedacted (obj fs) = AreRedacted fs
    IsRedacted (arr vs) = ItemsRedacted vs
    IsRedacted (str s) = (t : Text) × (s ≡ redact_text t)
    IsRedacted (num n) = Unit
    IsRedacted (bool b) = Unit
    IsRedacted null = Unit

    pub AreRedacted : Fields → Type 0
    AreRedacted end = Unit
    AreRedacted (field k v fs) =
        (((is_sensitive extra k ≡ true) × (v ≡ str placeholder))
          ⊎ ((is_sensitive extra k ≡ false) × IsRedacted v))
        × AreRedacted fs

    pub ItemsRedacted : Items → Type 0
    ItemsRedacted nil = Unit
    ItemsRedacted (cons v vs) = IsRedacted v × ItemsRedacted vs

  mutual
    walk-IsRedacted : (v : Value) → IsRedacted (walk redact_text extra v)
    walk-IsRedacted (obj fs) = walk_fields-AreRedacted fs
    walk-IsRedacted (arr vs) = walk_items-ItemsRedacted vs
    walk-IsRedacted (str s) = (s, refl)
    walk-IsRedacted (num n) = tt
    walk-IsRedacted (bool b) = tt
    walk-IsRedacted null = tt

    walk_fields-AreRedacted : (fs : Fields) → AreRedacted (walk_fields redact_text extra fs)
    walk_fields-AreRedacted end = tt
    walk_fields-AreRedacted (field k v fs) =
        let inner = walk-IsRedacted v in
        (
          elim (Bool-cases (is_sensitive extra k)) [
            | inl e ↦ inl (e, rw e refl)
            | inr e ↦ inr (e, rw e inner)
          ],
          walk_fields-AreRedacted fs,
        )

    walk_items-ItemsRedacted : (vs : Items) → ItemsRedacted (walk_items redact_text extra vs)
    walk_items-ItemsRedacted nil = tt
    walk_items-ItemsRedacted (cons v vs) = (walk-IsRedacted v, walk_items-ItemsRedacted vs)

  walk_fields-keys : (fs : Fields) → keys (walk_fields redact_text extra fs) ≡ keys fs
  walk_fields-keys end = refl
  walk_fields-keys (field k v fs) = ap (λ ks. k ∷ ks) (walk_fields-keys fs)

  -- A redacted structure has the keys of the one that was given, in their order, and at every
  -- depth the placeholder stands for the value of each sensitive key, and every other text is one
  -- that `redact_text` returned.
  pub redact_mapping-AreRedacted :
      (node : Fields)
      → (keys (redact_mapping redact_text extra node) ≡ keys node)
        × AreRedacted (redact_mapping redact_text extra node)
  redact_mapping-AreRedacted node = (walk_fields-keys node, walk_fields-AreRedacted node)
