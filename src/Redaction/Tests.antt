-- ===== src/Redaction/Tests.antt =====
-- A structure with a cookie, as backend/redaction.py takes it apart.
use vardr_map.Base.{◌≡◌, refl, []}
use vardr_map.Text.{Text, text, lower}
use vardr_map.Json.{Value, str, obj, Fields, field, end, keys}
use vardr_map.Redaction.{placeholder, is_sensitive, redact_mapping}
use vardr_map.Redaction.Laws.{AreRedacted, redact_mapping-AreRedacted}

abbrev as_is : Text → Text
as_is t = t

abbrev headers : Value → Fields
headers cookie =
    field (text "headers")
      (obj (field (text "Set-Cookie") cookie (field (text "Via") (str (text "1.1")) end))) end

redacts : redact_mapping as_is [] (headers (str (text "sid=1"))) ≡ headers (str placeholder)
unfolding is_sensitive lower
redacts = refl

redact_mapping-AreRedacted_example :
    (keys (redact_mapping as_is [] (headers (str (text "sid=1"))))
      ≡ keys (headers (str (text "sid=1"))))
    × AreRedacted as_is [] (redact_mapping as_is [] (headers (str (text "sid=1"))))
redact_mapping-AreRedacted_example =
    redact_mapping-AreRedacted as_is [] (headers (str (text "sid=1")))
