-- ===== src/Cameras/Service.antt =====
-- apps/api/src/cameras/cameras.service.ts and stream-key.util.ts: creating and importing
-- cameras. The state is the table of cameras,
-- newest row first. Ids and stream keys of new rows, clocks and the plan's limit are arguments; a method
-- answers the new table and the calls that it makes, or what it throws.
pub mod Import
use sms_app.Base.{
  ℕ, suc, ◌+◌, ◌≤◌, String, Bool, true, false, not, ◌&&◌, ◌||◌, Option, none, some, List, [], ◌∷◌,
  ◌++◌, if◌then◌else◌, ◌==◌, string_eq, nat_eq, ltb, leb, any, find, count_by, length, contains,
  replace_first, remove_first, Result, ok, err, Error, not_found, bad_request, forbidden, conflict,
  failure, found, require, ◌>>=◌, ◌>>◌,
}
use sms_app.Camera.{Status, offline, online, truthy, running_statuses, status_eq}
use Prim.Native.String

pub record Row : Type 0 where
  pub id : String
  pub org_id : String
  pub site_id : String
  pub name : String
  pub stream_url : String
  pub ingest_mode : String
  pub stream_key : Option String
  pub description : Option String
  pub tags : List String
  pub profile_id : Option String
  pub status : Status
  pub needs_transcode : Bool
  pub maintenance_mode : Bool
  pub maintenance_by : Option String
  pub first_publish_at : Option ℕ

-- A camera of a request. `ingest_mode` is there after the schema's default of `pull`.
pub record NewCamera : Type 0 where
  pub name : String
  pub ingest_mode : String
  pub stream_url : Option String
  pub description : Option String
  pub tags : List String
  pub profile_id : Option String

pub data Call : Type 0 where
  -- audit action, camera, prefixes of the keys or names of the changed fields
  audit : String → String → List String → Call
  -- `probe-camera`: job id, camera, address, organization, delay
  add_probe : String → String → String → String → ℕ → Call
  remove_probe : String → Call
  -- the publisher of a stream, by what SRS answered
  kick_publisher : String → Call
  stop_stream : String → Call
  -- `enqueueProfileRestart` for a camera and a profile id
  profile_restart : String → String → Call

abbrev pub push_url : String → String → String
push_url host key = String.◌++◌ "rtmp://" (String.◌++◌ host (String.◌++◌ ":1935/push/" key))

abbrev pub is_push : String → Bool
is_push mode = mode == "push"

abbrev pub has_id : String → Row → Bool
has_id id r = r.id == id

abbrev pub in_org : String → Row → Bool
in_org org r = r.org_id == org

abbrev pub key_is : String → Option String → Bool
key_is key none = false
key_is key (some k) = k == key

abbrev pub has_key : String → Row → Bool
has_key key r = key_is key r.stream_key

abbrev pub has_url : String → String → Row → Bool
has_url org url r = r.org_id == org && r.stream_url == url

abbrev pub has_name : String → String → Row → Bool
has_name org name r = r.org_id == org && r.name == name

abbrev pub key_taken : Option String → List Row → Bool
key_taken none rows = false
key_taken (some key) rows = any (has_key key) rows

abbrev pub duplicate_key : Error
duplicate_key = conflict "Stream key collision — please try again"

abbrev pub duplicate_name : Error
duplicate_name = conflict "A camera with this name already exists in your organization."

abbrev pub duplicate_url : Error
duplicate_url = conflict "A camera with this stream URL already exists in your organization."

-- The unique constraints of the table, in the order of the schema: `P2002` with its target, as the
-- service translates it.
unfoldable pub insert_row : Row → List Row → Result (List Row)
insert_row r rows =
    require (not (any (has_id r.id) rows)) (failure "Unique constraint failed")
    >> (require (not (any (has_name r.org_id r.name) rows)) duplicate_name
        >> (require (not (any (has_url r.org_id r.stream_url) rows)) duplicate_url
            >> (require (not (key_taken r.stream_key rows)) duplicate_key >> ok (r ∷ rows))))

-- `limit` is the number of cameras of the organization's package, `none` without a package.
unfoldable pub enforce_max_cameras_limit : Option ℕ → String → List Row → Result (Unit {0})
enforce_max_cameras_limit none org rows = ok tt
enforce_max_cameras_limit (some max_cameras) org rows =
    require (ltb (count_by (in_org org) rows) max_cameras) (forbidden "Camera limit reached.")

unfoldable pub enforce_max_cameras_limit_bulk : Option ℕ → String → ℕ → List Row → Result (Unit {0})
enforce_max_cameras_limit_bulk none org new_count rows = ok tt
enforce_max_cameras_limit_bulk (some max_cameras) org new_count rows =
    require (leb (count_by (in_org org) rows + new_count) max_cameras)
      (forbidden "Camera limit reached.")

abbrev pub text_of : Option String → String
text_of none = ""
text_of (some s) = s

-- The row of a new camera: a push camera gets the new key and its address.
abbrev pub new_row : String → String → String → String → String → Option String → NewCamera → Row
new_row host id key org site profile c = record {
  id = id;
  org_id = org;
  site_id = site;
  name = c.name;
  stream_url = if is_push c.ingest_mode then push_url host key else text_of c.stream_url;
  ingest_mode = c.ingest_mode;
  stream_key = if is_push c.ingest_mode then some key else none;
  description = c.description;
  tags = c.tags;
  profile_id = profile;
  status = offline;
  needs_transcode = false;
  maintenance_mode = false;
  maintenance_by = none;
  first_publish_at = none;
}

abbrev pub probe_job_id : String → String → String
probe_job_id id source = String.◌++◌ "probe-" (String.◌++◌ id (String.◌++◌ "-" source))

abbrev pub probe_of : Row → Call
probe_of r = add_probe (probe_job_id r.id "ffprobe") r.id r.stream_url r.org_id 0

abbrev audit_if : Bool → Call → List Call
audit_if true call = call ∷ []
audit_if false call = []

-- `prefix` is `streamKeyPrefix`; `site_found` whether the site is there.
unfoldable pub create_camera :
    (String → String)
    → Option ℕ
    → Bool
    → String
    → String
    → String
    → String
    → String
    → NewCamera
    → List Row
    → Result (List Row × List Call)
unfolding insert_row enforce_max_cameras_limit
create_camera prefix limit site_found host id key org site c rows =
    require site_found (not_found "Site not found")
    >> (enforce_max_cameras_limit limit org rows
        >> (insert_row (new_row host id key org site c.profile_id c) rows >>= λ rows'. ok (
          rows',
          audit_if (is_push c.ingest_mode) (audit "camera.push.key_generated" id (prefix key ∷ []))
              ++ probe_of (new_row host id key org site c.profile_id c) ∷ [],
        )))

-- The rows of an import that go on, and how many are skipped: pull rows whose address the organization
-- has or an earlier row gave. A pull row without address is left out and not counted.
unfoldable pub select_rows : (String → Bool) → List String → List NewCamera → List NewCamera × ℕ
select_rows existing seen [] = ([], 0)
select_rows existing seen (c ∷ cs) =
    let as_is = select_rows existing seen cs in
    let marked = select_rows existing (text_of c.stream_url ∷ seen) cs in
    if is_push c.ingest_mode
    then (c ∷ as_is.0, as_is.1)
    else if not (truthy c.stream_url)
    then as_is
    else if existing (text_of c.stream_url) || contains seen (text_of c.stream_url)
    then (as_is.0, suc as_is.1)
    else (c ∷ marked.0, marked.1)

abbrev pub profile_or_default : Option String → Option String → Option String
profile_or_default none default = default
profile_or_default (some id) default = some id

-- The inserts of the transaction, the `i`-th with the `i`-th id and key: all of them or none.
unfoldable pub insert_all :
    String
    → (ℕ → String)
    → (ℕ → String)
    → String
    → String
    → Option String
    → ℕ
    → List NewCamera
    → List Row
    → Result (List Row)
unfolding insert_row
insert_all host ids keys org site default i [] rows = ok rows
insert_all host ids keys org site default i (c ∷ cs) rows =
    insert_row (new_row host (ids i) (keys i) org site (profile_or_default c.profile_id default) c)
      rows
    >>= λ rows'. insert_all host ids keys org site default (suc i) cs rows'

-- What an import answers: the table, how many are imported and how many skipped.
pub record Imported : Type 0 where
  pub rows : List Row
  pub imported : ℕ
  pub skipped : ℕ

unfoldable pub bulk_import :
    Option ℕ
    → Bool
    → String
    → (ℕ → String)
    → (ℕ → String)
    → String
    → String
    → Option String
    → List NewCamera
    → List Row
    → Result Imported
unfolding select_rows insert_all enforce_max_cameras_limit_bulk
bulk_import limit site_found host ids keys org site default cameras rows =
    let selected = select_rows (λ url. any (has_url org url) rows) [] cameras in
    require site_found (not_found "Site not found")
    >> (enforce_max_cameras_limit_bulk limit org (length selected.0) rows
        >> (insert_all host ids keys org site default 0 selected.0 rows >>= λ rows'.
            ok (record { rows = rows'; imported = length selected.0; skipped = selected.1 })))
