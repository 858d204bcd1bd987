-- ===== src/Playback.antt =====
-- apps/api/src/playback/playback.service.ts: the sessions, their tokens and the pages that may play them.
-- The signed tokens of `jsonwebtoken` are an interface; what the database, the policies and the cluster
-- answer are arguments; the viewer counts of the status service are the state.
pub mod Grants
pub mod Callbacks
pub mod Publish
pub mod Limits
pub mod Keys
mod Tokens
mod Examples
use sms_app.Base.{
  ℕ, zero, suc, ◌+◌, ◌*◌, ◌/◌, ◌<◌, String, Bool, true, false, not, ◌&&◌, ◌||◌, Option, none, some,
  List, [], ◌∷◌, ◌≡◌, ltb, leb, min, max, if◌then◌else◌, ◌==◌, string_eq, Result, ok, err, Error,
  not_found, forbidden, require, found, ◌>>=◌, ◌>>◌,
}
use sms_app.Camera.{Camera, truthy}
use sms_app.Policies.{ResolvedPolicy}
use sms_app.Status.{ViewerCounts, get_viewer_count, increment_viewers, decrement_viewers}
use sms_app.Streams.Jobs.{text_or_empty}
use text.Mathlib.Text.{starts_with}
use Prim.Native.String
use Prim.Native.Nat.{◌-◌}

pub record Claims : Type 0 where
  pub cam : String
  pub org : String
  pub domains : List String
  pub sub : String

-- `jwt.sign` and `jwt.verify` under the service's secret; times are in milliseconds, and a token
-- expires in whole seconds. A verification that throws is `none`.
pub record Jwt : Type 0 where
  pub sign : ℕ → ℕ → Claims → String
  pub verify : ℕ → String → Option Claims
  pub verify-sign :
      (now later ttl : ℕ) (c : Claims)
      → later / 1000 < now / 1000 + ttl
      → verify later (sign now ttl c) ≡ some c

pub record Session : Type 0 where
  pub id : String
  pub org_id : String
  pub camera_id : String
  pub token : String
  pub hls_url : String
  pub ttl_seconds : ℕ
  pub max_viewers : ℕ
  pub domains : List String
  pub allow_no_referer : Bool
  pub expires_at : ℕ

-- The bases of the HLS address: the least loaded edge and two environment variables.
pub record Bases : Type 0 where
  pub edge : Option String
  pub public_base : Option String
  pub srs_host : Option String

abbrev pub or_default : Option String → String → String
or_default s default = if truthy s then text_or_empty s else default

abbrev pub hls_path : String → String → String
hls_path org_id camera_id =
    String.◌++◌ "/live/" (String.◌++◌ org_id (String.◌++◌ "/" (String.◌++◌ camera_id ".m3u8")))

abbrev pub internal_base : Option String → String → String
internal_base host default = String.◌++◌ "http://" (String.◌++◌ (or_default host default) ":8080")

unfoldable pub viewer_base : Bases → String
viewer_base b = elim b.edge [
  | some url ↦ url
  | none ↦
      if truthy b.public_base
      then text_or_empty b.public_base
      else internal_base b.srs_host "localhost"
]

unfoldable pub system_base : Bases → String
system_base b = elim b.edge [ some url ↦ url | none ↦ internal_base b.srs_host "srs" ]

-- `if (!camera || camera.orgId !== orgId) throw`
abbrev pub owned : Option Camera → String → Result Camera
owned none org_id = err (not_found "Camera not found")
owned (some c) org_id = if c.org_id == org_id then ok c else err (not_found "Camera not found")

-- The row that is written first with placeholders and then with the token and the address.
unfoldable pub signed_session :
    Jwt → ℕ → String → String → String → String → ResolvedPolicy → Session
signed_session jwt now id camera_id org_id base p =
    let claims : Claims = record {
      cam = camera_id;
      org = org_id;
      domains = p.domains.value;
      sub = id;
    } in
    let token = jwt.sign now p.ttl_seconds.value claims in
    record {
      id = id;
      org_id = org_id;
      camera_id = camera_id;
      token = token;
      hls_url =
          String.◌++◌ base (String.◌++◌ (hls_path org_id camera_id) (String.◌++◌ "?token=" token));
      ttl_seconds = p.ttl_seconds.value;
      max_viewers = p.max_viewers.value;
      domains = p.domains.value;
      allow_no_referer = p.allow_no_referer.value;
      expires_at = now + p.ttl_seconds.value * 1000;
    }

-- `max` is 0 for no limit.
abbrev pub is_full : ℕ → ℕ → Bool
is_full limit viewers = ltb 0 limit && leb limit viewers

-- `id` is the id that the database gives to the row.
unfoldable pub create_session :
    Jwt
    → ℕ
    → Bases
    → Option Camera
    → Result ResolvedPolicy
    → ViewerCounts
    → String
    → String
    → String
    → Result Session
unfolding signed_session viewer_base
create_session jwt now bases row policy counts id camera_id org_id = do
  c ← owned row org_id
  p ← policy
  require (not (is_full p.max_viewers.value (get_viewer_count camera_id counts)))
      (forbidden "Viewer limit reached")
  ok (signed_session jwt now id camera_id org_id (viewer_base bases) p)

unfoldable pub create_system_session :
    Jwt
    → ℕ
    → Bases
    → Option Camera
    → Result ResolvedPolicy
    → String
    → String
    → String
    → Result Session
unfolding signed_session system_base
create_system_session jwt now bases row policy id camera_id org_id = do
  c ← owned row org_id
  p ← policy
  ok (signed_session jwt now id camera_id org_id (system_base bases) p)

-- The sessions and the errors of a batch, `create` being `createSession` for a camera.
unfoldable pub create_batch_sessions :
    (String → Result Session) → List String → List (String × Session) × List (String × Error)
create_batch_sessions create [] = ([], [])
create_batch_sessions create (id ∷ ids) =
    let (sessions, errors) = create_batch_sessions create ids in
    elim (create id) [ ok s ↦ ((id, s) ∷ sessions, errors) | err e ↦ (sessions, (id, e) ∷ errors) ]

-- `find_first` answers for an id, an organization and a camera.
unfoldable pub verify_token :
    Jwt
    → ℕ
    → (String → String → String → Option Session)
    → String
    → String
    → String
    → Option Session
verify_token jwt now find_first token camera_id org_id = elim (jwt.verify now token) [
  | none ↦ none
  | some c ↦
      if not (c.cam == camera_id) || not (c.org == org_id)
      then none
      else find_first c.sub org_id camera_id
]

unfoldable pub get_session : ℕ → Option Session → Option Session
get_session now none = none
get_session now (some s) = if ltb s.expires_at now then none else some s

-- How many sessions `listSessionsByCamera` takes.
unfoldable pub safe_limit : ℕ → ℕ
safe_limit limit = min (max limit 1) 100

unfoldable pub ends_with : String → String → Bool
ends_with String.[] t = t == ""
ends_with (String.◌∷◌ c s) t = let rest = ends_with s t in String.◌∷◌ c s == t || rest

abbrev pub drop_char : String → String
drop_char String.[] = ""
drop_char (String.◌∷◌ c s) = s

abbrev pub matches_pattern : String → String → Bool
matches_pattern host pattern =
    pattern == "*"
    || (if starts_with pattern "*."
        then ends_with host (drop_char pattern) || host == drop_char (drop_char pattern)
        else host == pattern)

abbrev pub matches_some : String → List String → Bool
matches_some host [] = false
matches_some host (p ∷ ps) = matches_pattern host p || matches_some host ps

-- `host_of` is the host name of an address, `none` where `new URL` throws.
unfoldable pub match_domain : (String → Option String) → Option String → List String → Bool → Bool
match_domain host_of page_url [] allow = if truthy page_url then true else allow
match_domain host_of page_url (d ∷ ds) allow =
    if truthy page_url
    then (elim (host_of (text_or_empty page_url)) [
      | none ↦ allow
      | some host ↦ matches_some host (d ∷ ds)
    ])
    else allow
