-- ===== src/Playback/Grants.antt =====
-- What a session's token grants, and which pages may play it.
use sms_app.Base.{
  ℕ, ◌+◌, ◌/◌, ◌<◌, String, true, ◌&&◌, Option, none, some, ◌≡◌, refl, ◌∙◌, ap, arith,
  if◌then◌else◌, ◌==◌, eq_refl, string_eq, ok,
}
use sms_app.Camera.{Camera}
use sms_app.Policies.{ResolvedPolicy}
use sms_app.Status.{ViewerCounts}
use sms_app.Playback.{
  Jwt, Claims, Session, Bases, signed_session, create_session, verify_token, ends_with, drop_char,
  matches_pattern,
}
use text.Mathlib.TextPositions.{starts_with-append}
use Prim.Native.String
use Prim.Native.String.append

abbrev claims_of : String → String → String → ResolvedPolicy → Claims
claims_of id camera_id org_id p = record {
  cam = camera_id;
  org = org_id;
  domains = p.domains.value;
  sub = id;
}

created_token :
    (jwt : Jwt) (now : ℕ) (bases : Bases) (row : Option Camera) (p : ResolvedPolicy)
    (counts : ViewerCounts) (id camera_id org_id : String) (s : Session)
    → create_session jwt now bases row (ok p) counts id camera_id org_id ≡ ok s
    → s.token ≡ jwt.sign now p.ttl_seconds.value (claims_of id camera_id org_id p)
unfolding create_session signed_session
created_token jwt now bases none p counts id camera_id org_id s made = ground arith
created_token jwt now bases (some c) p counts id camera_id org_id s made = ground arith

ends_with_refl : (t : String) → ends_with t t ≡ true
unfolding ends_with
ends_with_refl String.[] = refl
ends_with_refl (String.◌∷◌ c t) = ground (arith, eq_refl (String.◌∷◌ c t))

pub ends_with-append : (s t : String) → ends_with (String.◌++◌ s t) t ≡ true
unfolding ends_with
ends_with-append String.[] t = rw (append.nil t) (ends_with_refl t)
ends_with-append (String.◌∷◌ c s) t = rw (append.cons c s t) (ground (arith, ends_with-append s t))

drop_wildcard : (domain : String) → drop_char (String.◌++◌ "*." domain) ≡ String.◌++◌ "." domain
drop_wildcard domain = ap drop_char (append.cons _ "." domain)

drop_dot : (domain : String) → drop_char (String.◌++◌ "." domain) ≡ domain
drop_dot domain = ap drop_char (append.cons _ "" domain) ∙ append.nil domain

-- The token of a session that `create_session` makes verifies until its lifetime is over, and then for
-- no camera and organization but its own: for those it gives the row that the database has for the
-- session, for all others nothing.
pub token_is_bound :
    (jwt : Jwt) (now later : ℕ) (bases : Bases) (row : Option Camera) (p : ResolvedPolicy)
    (counts : ViewerCounts) (id camera_id org_id : String) (s : Session)
    (find_first : String → String → String → Option Session) (camera org : String)
    → create_session jwt now bases row (ok p) counts id camera_id org_id ≡ ok s
    → later / 1000 < now / 1000 + p.ttl_seconds.value
    → verify_token jwt later find_first s.token camera org
      ≡ (if camera_id == camera && org_id == org then find_first id org camera else none)
unfolding create_session verify_token
token_is_bound jwt now later bases row p counts id camera_id org_id s find_first camera org made
      alive =
    ground (
      arith,
      created_token jwt now bases row p counts id camera_id org_id s made,
      jwt.verify-sign now later p.ttl_seconds.value (claims_of id camera_id org_id p) alive,
    )

-- A page whose host is a subdomain of any depth of a domain matches the domain's wildcard pattern, and
-- so does the domain itself.
pub wildcard_matches :
    (sub domain : String)
    → (matches_pattern (String.◌++◌ sub (String.◌++◌ "." domain)) (String.◌++◌ "*." domain) ≡ true)
      × (matches_pattern domain (String.◌++◌ "*." domain) ≡ true)
wildcard_matches sub domain = ground (
  arith,
  starts_with-append "*." domain,
  drop_wildcard domain,
  drop_dot domain,
  ends_with-append sub (String.◌++◌ "." domain),
  eq_refl domain,
)
