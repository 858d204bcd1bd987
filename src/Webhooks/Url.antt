-- ===== src/Webhooks/Url.antt =====
-- apps/api/src/webhooks/webhook-url.validator.ts. `new URL` and the resolver of host names are
-- parameters: `none` where they throw.
pub mod Ranges
use sms_app.Base.{
  ℕ, String, Bool, true, false, ◌||◌, Option, none, some, List, [], ◌∷◌, ◌==◌, string_eq,
  if◌then◌else◌, contains, map, codes, is_prefix, same_codes, Result, ok, err, bad_request, require,
  found, ◌>>=◌, ◌>>◌, not,
}

pub record Address : Type 0 where
  pub protocol : String
  pub hostname : String

abbrev pub private_prefixes : List String
private_prefixes =
    "10." ∷ "172.16." ∷ "172.17." ∷ "172.18." ∷ "172.19." ∷ "172.20." ∷ "172.21." ∷ "172.22."
    ∷ "172.23." ∷ "172.24." ∷ "172.25." ∷ "172.26." ∷ "172.27." ∷ "172.28." ∷ "172.29." ∷ "172.30."
    ∷ "172.31." ∷ "192.168." ∷ "169.254." ∷ []

abbrev pub starts_with_some : List (List ℕ) → List ℕ → Bool
starts_with_some [] ip = false
starts_with_some (p ∷ ps) ip = is_prefix p ip || starts_with_some ps ip

abbrev pub is_private_codes : List ℕ → Bool
is_private_codes ip =
    starts_with_some (map codes private_prefixes) ip
    || (same_codes (codes "127.0.0.1") ip || same_codes (codes "0.0.0.0") ip)

unfoldable pub is_private_ip : String → Bool
is_private_ip ip = is_private_codes (codes ip)

abbrev pub blocked : List String
blocked = "localhost" ∷ "127.0.0.1" ∷ "0.0.0.0" ∷ "::1" ∷ "[::1]" ∷ []

-- A name that does not resolve is allowed.
abbrev pub resolved_check : Option String → Result (Unit {0})
resolved_check none = ok tt
resolved_check (some ip) =
    require (not (is_private_ip ip))
      (bad_request "Webhook URL cannot resolve to a private IP address")

unfoldable pub validate_webhook_url :
    (parse : String → Option Address) (resolve : String → Option String)
    → String
    → Result (Unit {0})
unfolding is_private_ip
validate_webhook_url parse resolve url =
    found (parse url) (bad_request "Invalid URL format") >>= λ a.
    require (a.protocol == "https:") (bad_request "Webhook URL must use HTTPS")
    >> require (not (contains blocked a.hostname))
        (bad_request "Webhook URL cannot point to localhost")
    >> resolved_check (resolve a.hostname)
