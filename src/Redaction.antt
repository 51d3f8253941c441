-- ===== src/Redaction.antt =====
-- backend/redaction.py: `redact_mapping`, which takes the secrets out of a decoded structure.
-- `redact_text`, six substitutions by regular expressions, is a parameter.
pub mod Laws
mod Tests
use vardr_map.Base.{Bool, true, false, ◌||◌, List, [], ◌∷◌, ◌++◌, any, map, if◌then◌else◌}
use vardr_map.Text.{Text, text, eqb, lower}
use vardr_map.Json.{Value, str, num, bool, null, obj, arr, Fields, field, end, Items, cons, nil}

abbrev pub placeholder : Text
placeholder = text "[REDACTED]"

abbrev pub sensitive_headers : List Text
sensitive_headers = map text (
    "authorization" ∷ "proxy-authorization" ∷ "cookie" ∷ "set-cookie" ∷ "x-api-key" ∷ "x-auth-token"
    ∷ "x-access-token" ∷ "x-csrf-token" ∷ "x-session-token" ∷ "api-key" ∷ "auth-token" ∷ "session"
    ∷ [])

abbrev pub sensitive_keys : List Text
sensitive_keys = map text (
    "password" ∷ "passwd" ∷ "secret" ∷ "token" ∷ "access_token" ∷ "refresh_token" ∷ "id_token"
    ∷ "api_key" ∷ "apikey" ∷ "client_secret" ∷ "private_key" ∷ "session_id" ∷ "sessionid"
    ∷ "authorization" ∷ "credential" ∷ "credentials" ∷ "otp" ∷ "mfa_code" ∷ [])

-- The key's value is a secret; `extra` are the keys of `extra_keys`.
unfoldable pub is_sensitive : List Text → Text → Bool
unfolding lower
is_sensitive extra k =
    any (eqb (lower k)) sensitive_keys
    || any (λ e. eqb (lower k) (lower e)) extra
    || any (eqb (lower k)) sensitive_headers

module _ (redact_text : Text → Text) (extra : List Text) where
  -- `_walk`
  abbrev mutual
    pub walk : Value → Value
    walk (obj fs) = obj (walk_fields fs)
    walk (arr vs) = arr (walk_items vs)
    walk (str s) = str (redact_text s)
    walk (num n) = num n
    walk (bool b) = bool b
    walk null = null

    pub walk_fields : Fields → Fields
    walk_fields end = end
    walk_fields (field k v fs) =
        field k (if is_sensitive extra k then str placeholder else walk v) (walk_fields fs)

    pub walk_items : Items → Items
    walk_items nil = nil
    walk_items (cons v vs) = cons (walk v) (walk_items vs)

  abbrev pub redact_mapping : Fields → Fields
  redact_mapping node = walk_fields node
