-- ===== src/Audit/Examples.antt =====
-- A request with a password in its body, and what the audit log keeps of it.
use sms_app.Base.{true, none, some, ◌≡◌, refl, string_eq}
use sms_app.Audit.{
  Json, text, object, end, field, sanitize, Request, AuditLog, log, intercept, resource_of,
  redacted,
}
use sms_app.Audit.Redacted.{is_clean, intercepted_details_clean}

abbrev body : Json
body = object (field "name" (text "ann") (field "userPassword" (text "1234") end))

abbrev kept : Json
kept = object (field "name" (text "ann") (field "userPassword" redacted end))

abbrev request : Request
request = record {
  method = "POST";
  url = "/api/users/42?full=1";
  body = some body;
  user_id = some "u";
  params_id = some "42";
  ip = none;
}

abbrev entry : AuditLog
entry = record {
  org_id = "o";
  user_id = some "u";
  action = "create";
  resource = "user";
  resource_id = some "42";
  method = "POST";
  path = "/api/users/42?full=1";
  ip = none;
  details = some kept;
}

logged : intercept (some "o") request none ≡ some entry
unfolding intercept log resource_of sanitize
logged = refl

intercepted_details_clean_example : (is_clean kept ≡ true) × (sanitize kept ≡ kept)
intercepted_details_clean_example =
    intercepted_details_clean (some "o") request none entry kept logged refl
