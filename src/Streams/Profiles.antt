-- ===== src/Streams/Profiles.antt =====
-- apps/api/src/streams/stream-profile.service.ts: the stream profiles of the organizations. The state
-- is the table, newest row first, as far as the client's tenancy lets it be seen; the id of a new row
-- (a fresh UUID) and the cameras that use a profile are arguments. The warnings of `validate` are not
-- modelled.
pub mod Counts
pub mod Default
mod Examples
use sms_app.Base.{
  ℕ, ◌+◌, String, Bool, true, false, not, ◌&&◌, ◌||◌, Option, none, some, List, [], ◌∷◌, map,
  if◌then◌else◌, ◌==◌, string_eq, nat_eq, ltb, any, find, count_by, replace_first, remove_first,
  Result, ok, err, not_found, conflict, failure, found, require, ◌>>=◌, ◌>>◌, length,
}
use sms_app.Camera.{Profile, Camera}
use sms_app.Streams.Processor.{fingerprint_profile}
use sms_app.Streams.Service.{Call, enqueue_profile_restart}

pub record ProfileRow : Type 0 where
  pub id : String
  pub org_id : String
  pub name : String
  pub settings : Profile
  pub is_default : Bool

-- `isDefault` is there after the schema's default of `false`.
pub record CreateProfile : Type 0 where
  pub name : String
  pub settings : Profile
  pub is_default : Bool

-- A field that the request leaves out is `none`; a nullable one may be set to `null`.
pub record UpdateProfile : Type 0 where
  pub name : Option String
  pub codec : Option String
  pub preset : Option (Option String)
  pub resolution : Option (Option String)
  pub fps : Option (Option ℕ)
  pub video_bitrate : Option (Option String)
  pub audio_codec : Option String
  pub audio_bitrate : Option (Option String)
  pub is_default : Option Bool

abbrev pub has_id : String → ProfileRow → Bool
has_id id r = r.id == id

abbrev pub in_org : String → ProfileRow → Bool
in_org org r = r.org_id == org

abbrev pub is_default_of : String → ProfileRow → Bool
is_default_of org r = in_org org r && r.is_default

abbrev pub undefault : String → ProfileRow → ProfileRow
undefault org r = if is_default_of org r then record r { is_default = false } else r

-- `updateMany({ where: { orgId, isDefault: true }, data: { isDefault: false } })`
unfoldable pub clear_default : String → List ProfileRow → List ProfileRow
clear_default org rows = map (undefault org) rows

abbrev pub clear_if : Bool → String → List ProfileRow → List ProfileRow
clear_if true org rows = clear_default org rows
clear_if false org rows = rows

abbrev pub new_row : String → String → CreateProfile → Bool → ProfileRow
new_row id org dto default = record {
  id = id;
  org_id = org;
  name = dto.name;
  settings = dto.settings;
  is_default = default;
}

-- The first profile of an organization is its default whatever the request says. The primary key
-- refuses an id that is taken; the database client generates the ids so that this does not arise, and
-- the model leaves the rows as they are then, where the source has cleared the other defaults.
unfoldable pub create : String → String → CreateProfile → List ProfileRow → Result (List ProfileRow)
create id org dto rows =
    let default = count_by (in_org org) rows == 0 || dto.is_default in
    if any (has_id id) rows
    then err (failure "Unique constraint failed")
    else ok (new_row id org dto default ∷ clear_if default org rows)

abbrev pub set_or {ℓ} : {A : Type ℓ} → A → Option A → A
set_or old none = old
set_or old (some new) = new

abbrev pub patch_settings : UpdateProfile → Profile → Profile
patch_settings dto p = record {
  codec = set_or p.codec dto.codec;
  preset = set_or p.preset dto.preset;
  resolution = set_or p.resolution dto.resolution;
  fps = set_or p.fps dto.fps;
  video_bitrate = set_or p.video_bitrate dto.video_bitrate;
  audio_codec = set_or p.audio_codec dto.audio_codec;
  audio_bitrate = set_or p.audio_bitrate dto.audio_bitrate;
}

abbrev pub patch_row : UpdateProfile → ProfileRow → ProfileRow
patch_row dto r = record {
  id = r.id;
  org_id = r.org_id;
  name = set_or r.name dto.name;
  settings = patch_settings dto r.settings;
  is_default = set_or r.is_default dto.is_default;
}

-- `if (dto.isDefault)`
abbrev pub makes_default : UpdateProfile → Bool
makes_default dto = set_or false dto.is_default

-- The rows after an update that finds the row `pre`.
unfoldable pub updated_rows :
    String → UpdateProfile → ProfileRow → List ProfileRow → List ProfileRow
updated_rows id dto pre rows =
    replace_first (has_id id) (patch_row dto) (clear_if (makes_default dto) pre.org_id rows)

unfoldable pub update : String → UpdateProfile → List ProfileRow → Result (List ProfileRow)
unfolding updated_rows
update id dto rows = found (find (has_id id) rows) (failure "Stream profile not found") >>= λ pre.
    ok (updated_rows id dto pre rows)

-- The restarts that follow the update of the row `pre`: none where the fingerprint stays. The service
-- reads the row again, so that the restarted cameras get the new settings.
unfoldable pub restarts_after :
    (String → String)
    → ((Camera → Bool) → List Camera)
    → (Camera → Bool)
    → (String → Option Bool)
    → (String → ℕ)
    → UpdateProfile
    → ProfileRow
    → List Call × ℕ
restarts_after sha256 find_many attached job jitter dto pre =
    let new = patch_settings dto pre.settings in
    if fingerprint_profile sha256 (some pre.settings) == fingerprint_profile sha256 (some new)
    then ([], 0)
    else enqueue_profile_restart find_many none attached (some new) job jitter

-- `used_by` are the cameras with this profile.
unfoldable pub delete : String → List String → List ProfileRow → Result (List ProfileRow)
delete id used_by rows =
    found (find (has_id id) rows) (not_found "Stream profile not found") >>= λ target.
    require
      (not (
        target.is_default
        && ltb 0 (count_by (λ r. in_org target.org_id r && not (has_id target.id r)) rows)))
      (conflict "Set another profile as default before deleting this one.")
    >> (require (length used_by == 0) (conflict "Stream profile is in use by one or more cameras.")
        >> ok (remove_first (has_id id) rows))

-- The requests, as they come in.
pub data Request : Type 0 where
  created : String → String → CreateProfile → Request
  updated : String → UpdateProfile → Request
  deleted : String → List String → Request

-- A request that fails leaves the table as it is.
abbrev pub rows_or : List ProfileRow → Result (List ProfileRow) → List ProfileRow
rows_or rows (ok new) = new
rows_or rows (err e) = rows

unfoldable pub handle : Request → List ProfileRow → List ProfileRow
unfolding create update delete
handle (created id org dto) rows = rows_or rows (create id org dto rows)
handle (updated id dto) rows = rows_or rows (update id dto rows)
handle (deleted id used_by) rows = rows_or rows (delete id used_by rows)

unfoldable pub handle_all : List Request → List ProfileRow → List ProfileRow
unfolding handle
handle_all [] rows = rows
handle_all (r ∷ rs) rows = handle_all rs (handle r rows)
