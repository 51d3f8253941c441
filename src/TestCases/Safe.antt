-- ===== src/TestCases/Safe.antt =====
-- backend/routers/test_cases.py: what a spec that is accepted does not hold.
use vardr_map.Base.{
  ◌≡◌, ◌≤◌, ◌↔◌, refl, true, false, not, ◌&&◌, List, [], ◌∷◌, ◌++◌, ◌==◌, length, ltb, All,
  All-append, All-split, arith,
}
use vardr_map.Text.{Text, text, eqb, contains_text}
use vardr_map.Json.{
  Value, str, num, bool, null, obj, arr, Fields, field, end, Items, cons, nil, get, fields_of,
}
use vardr_map.Store.{bad_request, internal, ok, raise_if, err-ne-ok, bind_passed}
use vardr_map.Store.Laws.{raise_if-eq_ok}
use vardr_map.TestCases.Read.{case_identities, is_hashable, is_one_of, stripped_at}
use vardr_map.TestCases.Credentials.{
  credential_types, is_given, refs_of, is_static, check_credential, check_credential_value,
  check_identity, check_identities, reject_text, reject_environment_references, reject_in_fields,
  reject_in_items,
}

-- Every text in a value, the keys of its objects included.
abbrev mutual
  pub texts : Value → List Text
  texts (str s) = s ∷ []
  texts (obj fs) = texts_in_fields fs
  texts (arr vs) = texts_in_items vs
  texts (num n) = []
  texts (bool b) = []
  texts null = []

  pub texts_in_fields : Fields → List Text
  texts_in_fields end = []
  texts_in_fields (field k v fs) = k ∷ (texts v ++ texts_in_fields fs)

  pub texts_in_items : Items → List Text
  texts_in_items nil = []
  texts_in_items (cons v vs) = texts v ++ texts_in_items vs

abbrev pub NoReference : Text → Type 0
NoReference s = contains_text (text "${") s ≡ false

mutual
  accepted_texts : (v : Value) → reject_environment_references v ≡ ok tt → All NoReference (texts v)
  accepted_texts (str s) h = (raise_if-eq_ok (contains_text (text "${") s) bad_request h, tt)
  accepted_texts (obj fs) h = accepted_fields fs h
  accepted_texts (arr vs) h = accepted_items vs h
  accepted_texts (num n) h = tt
  accepted_texts (bool b) h = tt
  accepted_texts null h = tt

  accepted_fields :
      (fs : Fields) → reject_in_fields fs ≡ ok tt → All NoReference (texts_in_fields fs)
  accepted_fields end h = tt
  accepted_fields (field k v fs) h =
      let (_, first_, h1) = bind_passed (reject_text k) _ h in
      let (_, second_, h2) = bind_passed (reject_environment_references v) _ h1 in
      (
        raise_if-eq_ok (contains_text (text "${") k) bad_request first_,
        All-append NoReference (texts v) (texts_in_fields fs) (accepted_texts v second_)
            (accepted_fields fs h2),
      )

  accepted_items : (vs : Items) → reject_in_items vs ≡ ok tt → All NoReference (texts_in_items vs)
  accepted_items nil h = tt
  accepted_items (cons v vs) h =
      let (_, first_, h1) = bind_passed (reject_environment_references v) _ h in
      All-append NoReference (texts v) (texts_in_items vs) (accepted_texts v first_)
        (accepted_items vs h1)

mutual
  texts_accepted : (v : Value) → All NoReference (texts v) → reject_environment_references v ≡ ok tt
  texts_accepted (str s) h = rw h.0 refl
  texts_accepted (obj fs) h = fields_accepted fs h
  texts_accepted (arr vs) h = items_accepted vs h
  texts_accepted (num n) h = refl
  texts_accepted (bool b) h = refl
  texts_accepted null h = refl

  fields_accepted :
      (fs : Fields) → All NoReference (texts_in_fields fs) → reject_in_fields fs ≡ ok tt
  fields_accepted end h = refl
  fields_accepted (field k v fs) h =
      let (a, b) = All-split NoReference (texts v) (texts_in_fields fs) h.1 in
      rw (h.0, texts_accepted v a) (fields_accepted fs b)

  items_accepted : (vs : Items) → All NoReference (texts_in_items vs) → reject_in_items vs ≡ ok tt
  items_accepted nil h = refl
  items_accepted (cons v vs) h =
      let (a, b) = All-split NoReference (texts v) (texts_in_items vs) h in
      rw (texts_accepted v a) (items_accepted vs b)

-- A value passes exactly when no text in it, be it a value or a key, at any depth, contains `${`.
pub reject_environment_references_iff :
    (v : Value) → (reject_environment_references v ≡ ok tt) ↔ All NoReference (texts v)
reject_environment_references_iff v = (accepted_texts v, texts_accepted v)

module _ (repr : Value → Text) where
  -- A credential that refers to its secret, if it has one, by one name.
  pub record IsReferenced (cred : Fields) : Type 0 where
    pub known : is_one_of credential_types (get (text "type") cred) ≡ true
    pub no_literal : stripped_at repr (text "value") cred ≡ []
    pub one_reference : length (refs_of repr cred) ≤ 1
    pub anonymous : length (refs_of repr cred) ≡ 0 → is_static repr cred ≡ true

  -- What an identity of a stored case is.
  pub record IsIdentity (v : Value) : Type 0 where
    pub identity : Fields
    pub cred : Fields
    pub is_object : v ≡ obj identity
    pub credential : get (text "credential") identity ≡ obj cred
    pub referenced : IsReferenced cred

  eqb-nil : (s : Text) → not (eqb s []) ≡ false → s ≡ []
  eqb-nil [] h = refl
  eqb-nil (c ∷ s) h = cc h

  check_credential-IsReferenced :
      (cred : Fields) → check_credential repr cred ≡ ok tt → IsReferenced cred
  unfolding check_credential
  check_credential-IsReferenced cred h =
      let (_, _, h1) =
        bind_passed (raise_if (not (is_hashable (get (text "type") cred))) internal) _ h in
      let (_, a, h2) =
        bind_passed
          (raise_if (not (is_one_of credential_types (get (text "type") cred))) bad_request) _ h1 in
      let (_, b, h3) =
        bind_passed (raise_if (is_given repr (text "value") cred) bad_request) _ h2 in
      let (_, c, h4) =
        bind_passed (raise_if (ltb 1 (length (refs_of repr cred))) bad_request) _ h3 in
      let (_, d, _) =
        bind_passed
          (raise_if (length (refs_of repr cred) == 0 && not (is_static repr cred)) bad_request) _
          h4 in
      let known_ = raise_if-eq_ok _ bad_request a in
      let one = raise_if-eq_ok _ bad_request c in
      let static_ = raise_if-eq_ok _ bad_request d in
      record {
        known = ground (arith, known_);
        no_literal =
            eqb-nil (stripped_at repr (text "value") cred) (raise_if-eq_ok _ bad_request b);
        one_reference = ground (arith, one);
        anonymous = λ z. ground (arith, static_, z);
      }

  credential_value-obj :
      (v : Value)
      → check_credential_value repr v ≡ ok tt
      → (cred : Fields) × (v ≡ obj cred) × IsReferenced cred
  credential_value-obj (obj cred) h = (cred, refl, check_credential-IsReferenced cred h)
  credential_value-obj (str s) h = absurd (err-ne-ok h)
  credential_value-obj (num n) h = absurd (err-ne-ok h)
  credential_value-obj (bool b) h = absurd (err-ne-ok h)
  credential_value-obj null h = absurd (err-ne-ok h)
  credential_value-obj (arr vs) h = absurd (err-ne-ok h)

  check_identity-IsIdentity : (v : Value) → check_identity repr v ≡ ok tt → IsIdentity v
  check_identity-IsIdentity (obj identity) h =
      let (cred, e, r) = credential_value-obj (get (text "credential") identity) h in
      record { identity = identity; cred = cred; is_object = refl; credential = e; referenced = r }
  check_identity-IsIdentity (str s) h = absurd (err-ne-ok h)
  check_identity-IsIdentity (num n) h = absurd (err-ne-ok h)
  check_identity-IsIdentity (bool b) h = absurd (err-ne-ok h)
  check_identity-IsIdentity null h = absurd (err-ne-ok h)
  check_identity-IsIdentity (arr vs) h = absurd (err-ne-ok h)

  pub check_identities-All :
      (vs : List Value) → check_identities repr vs ≡ ok tt → All IsIdentity vs
  check_identities-All [] h = tt
  check_identities-All (v ∷ vs) h =
      let (_, a, h1) = bind_passed (check_identity repr v) _ h in
      (check_identity-IsIdentity v a, check_identities-All vs h1)

  -- What a stored case never has: a live secret, or a reference to the runner's environment.
  pub record IsSafe (spec : Value) : Type 0 where
    pub identities : All IsIdentity (case_identities (fields_of spec))
    pub no_references : All NoReference (texts spec)
