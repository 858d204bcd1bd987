-- ===== src/ApiKeys/Access.antt =====
-- The API keys of apps/api/src/api-keys/api-keys.service.ts and who they let in: api-key.guard.ts and
-- auth-or-apikey.guard.ts of the same folder, and apps/api/src/features (features.service.ts,
-- features.guard.ts).
use sms_app.Base.{
  ℕ, String, Bool, true, false, not, ◌&&◌, ◌||◌, Option, none, some, List, [], ◌∷◌, ◌≡◌, refl, ap,
  arith, if◌then◌else◌, ◌==◌, string_eq, eq_refl, find, any, remove_first, replace_first, Dict,
  lookup, Result, ok, err, ◌>>=◌, ◌>>◌, found, require, bad_request, not_found, unauthorized,
  forbidden, conflict,
}
use Prim.Native.String
use text.Mathlib.TextLemmas.{cons-append}

-- A row of `ApiKey`.
pub record ApiKey : Type 0 where
  pub id : String
  pub org_id : String
  pub name : String
  pub key_hash : String
  pub prefix : String
  pub last_four : String
  pub scope : String
  pub scope_id : String
  pub revoked_at : Option ℕ
  pub last_used_at : Option ℕ
  pub created_at : ℕ

-- The body of a creation.
pub record NewKey : Type 0 where
  pub name : String
  pub scope : String
  pub scope_id : String

-- SHA-256 in hexadecimal, and `slice(-4)`.
pub record Text : Type 0 where
  pub sha256 : String → String
  pub slice_4 : String → String

abbrev pub has_hash : String → ApiKey → Bool
has_hash hash k = k.key_hash == hash

abbrev pub has_key_id : String → ApiKey → Bool
has_key_id id k = k.id == id

-- `!text`, for the headers.
abbrev pub is_empty : String → Bool
is_empty String.[] = true
is_empty (String.◌∷◌ c s) = false

abbrev pub raw_key : String → String
raw_key secret = String.◌++◌ "sk_live_" secret

abbrev pub generated : Text → String → String → String → ℕ → NewKey → ApiKey
generated t secret id org now dto = record {
  id = id;
  org_id = org;
  name = dto.name;
  key_hash = t.sha256 (raw_key secret);
  prefix = "sk_live_";
  last_four = t.slice_4 secret;
  scope = dto.scope;
  scope_id = dto.scope_id;
  revoked_at = none;
  last_used_at = none;
  created_at = now;
}

-- The hash is unique in the table.
abbrev pub insert_key : ApiKey → List ApiKey → Result (List ApiKey)
insert_key k keys =
    if any (has_hash k.key_hash) keys
    then err (conflict "Unique constraint failed")
    else ok (k ∷ keys)

-- `scope_found` tells whether the project or the site is in the organization. The result is the raw key
-- with the table.
unfoldable pub create :
    Text
    → (scope_found : Bool) (secret id org : String) (now : ℕ) → NewKey
    → List ApiKey
    → Result (String × List ApiKey)
create t scope_found secret id org now dto keys =
    require (not (dto.scope == "PROJECT") || scope_found)
      (bad_request "Project not found in organization")
    >> require (not (dto.scope == "SITE") || scope_found)
        (bad_request "Site not found in organization")
    >> insert_key (generated t secret id org now dto) keys
    >>= λ rows. ok (raw_key secret, rows)

abbrev pub find_by_hash : String → List ApiKey → Option ApiKey
find_by_hash hash keys = find (has_hash hash) keys

-- The usage rows of the key, which the database deletes with it, are not part of the table.
unfoldable pub delete : (id org : String) → List ApiKey → Result (List ApiKey)
delete id org keys =
    found (find (λ k. k.id == id && k.org_id == org) keys) (not_found "API key not found") >>= λ k.
    ok (remove_first (has_key_id id) keys)

abbrev pub used_at : ℕ → ApiKey → ApiKey
used_at now k = record k { last_used_at = some now }

abbrev pub update_last_used : ℕ → String → List ApiKey → List ApiKey
update_last_used now id keys = replace_first (has_key_id id) (used_at now) keys

abbrev pub is_active : ApiKey → Bool
is_active k = elim k.revoked_at [ none ↦ true | some at ↦ false ]

abbrev pub active : Option ApiKey → Option ApiKey
active none = none
active (some k) = if is_active k then some k else none

-- `ApiKeyGuard.canActivate`: the organization that the request goes on with, and the table.
unfoldable pub api_key_guard :
    Text → ℕ → (header : Option String) → List ApiKey → Result (String × List ApiKey)
api_key_guard t now none keys = err (unauthorized "API key required")
api_key_guard t now (some key) keys =
    if is_empty key
    then err (unauthorized "API key required")
    else (found (active (find_by_hash (t.sha256 key) keys))
          (unauthorized "Invalid or revoked API key")
        >>= λ k. ok (k.org_id, update_last_used now k.id keys))

abbrev pub is_given : Option String → Bool
is_given none = false
is_given (some key) = not (is_empty key)

-- `AuthOrApiKeyGuard.canActivate`: a request with an API key goes by it, any other by its session.
unfoldable pub auth_or_api_key_guard :
    Text
    → ℕ
    → (session : Result String) (header : Option String) → List ApiKey
    → Result (String × List ApiKey)
unfolding api_key_guard
auth_or_api_key_guard t now session header keys =
    if is_given header then api_key_guard t now header keys else (session >>= λ org. ok (org, keys))

-- `getOrgFeatures`: the features of an organization's package.
abbrev pub Packages : Type 0
Packages = String → Option (Option (Dict Bool))

abbrev pub features_or_empty : Option (Option (Dict Bool)) → Dict Bool
features_or_empty none = []
features_or_empty (some none) = []
features_or_empty (some (some features)) = features

abbrev pub get_org_features : Packages → String → Dict Bool
get_org_features packages org = features_or_empty (packages org)

abbrev is_true : Option Bool → Bool
is_true none = false
is_true (some b) = b

unfoldable pub check_feature : Packages → String → String → Bool
unfolding lookup
check_feature packages org feature = is_true (lookup feature (get_org_features packages org))

-- `FeatureGuard.canActivate`: the feature that the route requires, and the organization of the request.
unfoldable pub feature_guard :
    Packages → (required : Option String) (org : Option String) → Result (Unit {0})
unfolding check_feature
feature_guard packages none org = ok tt
feature_guard packages (some feature) none =
    err (forbidden "Organization context required for feature-gated endpoint")
feature_guard packages (some feature) (some org) =
    require (check_feature packages org feature)
      (forbidden "Feature is not enabled for this organization")

raw_key-given : (secret : String) → is_empty (raw_key secret) ≡ false
raw_key-given secret = ap is_empty (cons-append "s" "k_live_" secret)

find-any :
    (hash : String) (keys : List ApiKey)
    → any (has_hash hash) keys ≡ false
    → find (has_hash hash) keys ≡ none
find-any hash [] h = refl
find-any hash (k ∷ keys) h = ground (arith, find-any hash keys)

-- A key whose creation succeeds lets its raw text in for the organization of the creation and gets its
-- time of use; its deletion gives the table from before the creation back, in which the raw text is
-- refused.
pub created_key_opens :
    (t : Text) (scope_found : Bool) (secret id org : String) (now at later : ℕ) (dto : NewKey)
    (keys : List ApiKey) (result : String × List ApiKey)
    → create t scope_found secret id org now dto keys ≡ ok result
    → (api_key_guard t at (some result.0) result.1 ≡ ok (org, update_last_used at id result.1))
      × (delete id org result.1 ≡ ok keys)
      × (api_key_guard t later (some result.0) keys
          ≡ err (unauthorized "Invalid or revoked API key"))
unfolding create api_key_guard delete
created_key_opens t scope_found secret id org now at later dto keys result h = ground (
  arith,
  raw_key-given secret,
  find-any (t.sha256 (raw_key secret)) keys,
  eq_refl (t.sha256 (raw_key secret)),
  eq_refl id,
  eq_refl org,
)
