-- ===== src/Audit.antt =====
-- apps/api/src/audit: the interceptor of the requests (audit.interceptor.ts) and the service that keeps
-- the entries (audit.service.ts).
pub mod Redacted
mod Examples
use package.text.Mathlib.Text.{starts_with}
use sms_app.Base.{
  ℕ, zero, suc, ◌+◌, ◌-◌, ◌*◌, String, Bool, true, false, not, ◌&&◌, ◌||◌, Option, none, some, List,
  [], ◌∷◌, ◌++◌, map, reverse, ◌==◌, string_eq, nat_eq, if◌then◌else◌, leb, contains, keep, find,
  length, take, mentions_some, codes, is_digit_code, lower_code, Dict, lookup,
}
use sms_app.Playback.Keys.{split_path}
use sms_app.Web.Labels.{before_query, is_uuid}

-- The JSON value of a body.
mutual
  pub data Json : Type 0 where
    null : Json
    bool : Bool → Json
    number : ℕ → Json
    text : String → Json
    array : Items → Json
    object : Fields → Json

  pub data Items : Type 0 where
    nil : Items
    cons : Json → Items → Items

  pub data Fields : Type 0 where
    end : Fields
    field : String → Json → Fields → Fields

unfoldable pub is_sensitive : String → Bool
is_sensitive key = mentions_some ("password" ∷ "secret" ∷ "token" ∷ "apiKey" ∷ "keyHash" ∷ []) key

abbrev pub redacted : Json
redacted = text "[REDACTED]"

-- `sanitizeBody`, which is `sanitizeDetails` of the service as well.
unfoldable mutual
  unfolding is_sensitive

  pub sanitize : Json → Json
  sanitize null = null
  sanitize (bool b) = bool b
  sanitize (number n) = number n
  sanitize (text t) = text t
  sanitize (array items) = array (sanitize_items items)
  sanitize (object fields) = object (sanitize_fields fields)

  pub sanitize_items : Items → Items
  sanitize_items nil = nil
  sanitize_items (cons j rest) = cons (sanitize j) (sanitize_items rest)

  pub sanitize_fields : Fields → Fields
  sanitize_fields end = end
  sanitize_fields (field key j rest) =
      field key (if is_sensitive key then redacted else sanitize j) (sanitize_fields rest)

pub record Request : Type 0 where
  pub method : String
  pub url : String
  pub body : Option Json
  pub user_id : Option String
  pub params_id : Option String
  pub ip : Option String

-- A row of the audit log.
pub record AuditLog : Type 0 where
  pub org_id : String
  pub user_id : Option String
  pub action : String
  pub resource : String
  pub resource_id : Option String
  pub method : String
  pub path : String
  pub ip : Option String
  pub details : Option Json

abbrev pub skip_paths : List String
skip_paths = "/api/srs/callbacks" ∷ "/api/health" ∷ []

abbrev pub audited_methods : List String
audited_methods = "POST" ∷ "PUT" ∷ "PATCH" ∷ "DELETE" ∷ []

abbrev pub resource_map : Dict String
resource_map =
    ("cameras", "camera")
    ∷ ("projects", "project")
    ∷ ("sites", "site")
    ∷ ("policies", "policy")
    ∷ ("stream-profiles", "streamProfile")
    ∷ ("api-keys", "apiKey")
    ∷ ("webhooks", "webhook")
    ∷ ("users", "user")
    ∷ ("organizations", "organization")
    ∷ ("settings", "settings")
    ∷ []

abbrev pub method_to_action : String → String
method_to_action method =
    if method == "POST" then "create" else if method == "DELETE" then "delete" else "update"

abbrev pub starts_with_some : List String → String → Bool
starts_with_some [] path = false
starts_with_some (p ∷ ps) path = starts_with path p || starts_with_some ps path

abbrev pub all_codes : (ℕ → Bool) → List ℕ → Bool
all_codes p [] = true
all_codes p (c ∷ cs) = p c && all_codes p cs

abbrev pub is_alphanumeric : ℕ → Bool
is_alphanumeric c = is_digit_code c || (leb 97 (lower_code c) && leb (lower_code c) 122)

unfoldable pub is_id_like : String → Bool
unfolding is_uuid
is_id_like s =
    is_uuid s
    || ((leb 20 (length (codes s)) && all_codes is_alphanumeric (codes s))
        || (leb 1 (length (codes s)) && all_codes is_digit_code (codes s)))

abbrev pub or_unknown : Option String → String
or_unknown none = "unknown"
or_unknown (some s) = s

-- The last segment that is no id.
unfoldable pub resource_segment : String → String
unfolding before_query split_path is_id_like
resource_segment path = or_unknown (
    find (λ s. not (s == "api") && not (is_id_like s))
      (reverse (keep (λ s. not (s == "")) (split_path (before_query path)))))

abbrev pub or_segment : Option String → String → String
or_segment none segment = segment
or_segment (some r) segment = r

unfoldable pub resource_of : String → String
unfolding resource_segment lookup
resource_of path = or_segment (lookup (resource_segment path) resource_map) (resource_segment path)

abbrev pub truthy_text : Option String → Option String
truthy_text none = none
truthy_text (some t) = if t == "" then none else some t

abbrev pub or_else : Option String → Option String → Option String
or_else none other = other
or_else (some t) other = some t

-- Whether a body counts as one: `null`, `false`, 0 and the empty text do not.
abbrev pub truthy_json : Json → Bool
truthy_json null = false
truthy_json (bool b) = b
truthy_json (number n) = not (n == 0)
truthy_json (text t) = not (t == "")
truthy_json (array items) = true
truthy_json (object fields) = true

abbrev pub details_of : Option Json → Option Json
details_of none = none
details_of (some j) = if truthy_json j then some (sanitize j) else none

-- `AuditService.log`: the row, with the details sanitized.
unfoldable pub log : AuditLog → AuditLog
unfolding sanitize
log data_ = record data_ {
  user_id = truthy_text data_.user_id;
  resource_id = truthy_text data_.resource_id;
  ip = truthy_text data_.ip;
  details = details_of data_.details;
}

-- `AuditInterceptor.intercept`, after the handler has answered: the row, if any; `answer_id` is the id of
-- the answer.
unfoldable pub intercept :
    (org : Option String) → Request → (answer_id : Option String) → Option AuditLog
unfolding resource_of log
intercept none r answer_id = none
intercept (some org) r answer_id =
    if not (contains audited_methods r.method) || (starts_with_some skip_paths r.url || org == "")
    then none
    else some (
        log (record {
          org_id = org;
          user_id = r.user_id;
          action = method_to_action r.method;
          resource = resource_of r.url;
          resource_id = or_else (truthy_text answer_id) (truthy_text r.params_id);
          method = r.method;
          path = r.url;
          ip = r.ip;
          details = details_of r.body;
        }))
