-- ===== src/Recordings/Service.antt =====
-- apps/api/src/recordings/recordings.service.ts: starting and stopping the recording of a camera,
-- archiving its segments, the storage quota and the deletion of recordings. The state is the tables,
-- newest row first. Ids of new rows, clocks, the packages of the organizations, the contents of a
-- segment file and whether the object store answers are arguments.
pub mod Operations
pub mod Flag
pub mod Stuck
mod Examples
use sms_app.Base.{
  ℕ, suc, ◌+◌, ◌-◌, ◌*◌, ◌/◌, String, Bool, true, false, not, ◌&&◌, ◌||◌, Option, none, some, List,
  [], ◌∷◌, ◌++◌, map, if◌then◌else◌, ◌==◌, string_eq, nat_eq, ltb, leb, any, find, keep, length,
  count_by, replace_first, remove_first, Result, ok, err, Error, not_found, bad_request, failure,
  found, require, ◌>>=◌, ◌>>◌,
}
use sms_app.Camera.{Camera, offline, status_eq, truthy}
use sms_app.Recordings.H264.{contains_h264_keyframe}
use text.Mathlib.Text.{starts_with}

pub data RecordingStatus : Type 0 where
  recording complete error : RecordingStatus

abbrev pub is_active_status : RecordingStatus → Bool
is_active_status recording = true
is_active_status complete = false
is_active_status error = false

-- Durations are in microseconds.
pub record Recording : Type 0 where
  pub id : String
  pub org_id : String
  pub camera_id : String
  pub status : RecordingStatus
  pub stopped_at : Option ℕ
  pub total_size : ℕ
  pub total_duration : ℕ
  pub init_segment : Option String

pub record Segment : Type 0 where
  pub id : String
  pub org_id : String
  pub recording_id : String
  pub camera_id : String
  pub object_path : String
  pub duration : ℕ
  pub size : ℕ
  pub seq_no : ℕ
  pub timestamp : ℕ
  pub has_keyframe : Option Bool

pub record Store : Type 0 where
  pub cameras : List Camera
  pub recordings : List Recording
  pub segments : List Segment

abbrev pub is_camera : String → Camera → Bool
is_camera id c = c.id == id

abbrev pub is_recording_of : String → Recording → Bool
is_recording_of id r = r.id == id

-- `{ cameraId, orgId, status: 'recording' }`
abbrev pub is_active_for : String → String → Recording → Bool
is_active_for camera org r = r.camera_id == camera && (r.org_id == org && is_active_status r.status)

-- `camera.findFirst({ where: { id, orgId } })`: an id is a primary key, so that at most one row has it.
abbrev pub owned_by : String → Option Camera → Option Camera
owned_by org none = none
owned_by org (some c) = if c.org_id == org then some c else none

abbrev pub set_recording : Bool → Camera → Camera
set_recording b c = record c { is_recording = b }

abbrev pub sum_sizes : List Segment → ℕ
sum_sizes [] = 0
sum_sizes (s ∷ ss) = s.size + sum_sizes ss

pub record Quota : Type 0 where
  pub allowed : Bool
  pub usage_bytes : ℕ
  pub limit_bytes : ℕ
  pub usage_percent : ℕ

abbrev percent_of : ℕ → ℕ → ℕ
percent_of usage limit = if ltb 0 limit then usage * 100 / limit else 0

-- `limit_gb` is the storage of the organization's package, `none` without a package.
unfoldable pub check_storage_quota : Option ℕ → String → List Segment → Quota
check_storage_quota none org segments = record {
  allowed = true;
  usage_bytes = 0;
  limit_bytes = 0;
  usage_percent = 0;
}
check_storage_quota (some limit_gb) org segments =
    let limit = limit_gb * (1024 * 1024 * 1024) in
    let usage = sum_sizes (keep (λ s. s.org_id == org) segments) in
    record {
      allowed = ltb (percent_of usage limit) 100;
      usage_bytes = usage;
      limit_bytes = limit;
      usage_percent = percent_of usage limit;
    }

abbrev pub start_checks : Option ℕ → String → String → Store → Result (Unit {0})
start_checks limit_gb camera org s =
    found (owned_by org (find (is_camera camera) s.cameras)) (not_found "Camera not found") >>= λ c.
    require (not (c.status == offline)) (bad_request "Camera is offline, cannot start recording")
    >> (require (not c.is_recording) (bad_request "Camera is already recording")
        >> require (check_storage_quota limit_gb org s.segments).allowed
            (bad_request "Storage quota exceeded, cannot start recording"))

abbrev new_recording : String → String → String → Recording
new_recording id camera org = record {
  id = id;
  org_id = org;
  camera_id = camera;
  status = recording;
  stopped_at = none;
  total_size = 0;
  total_duration = 0;
  init_segment = none;
}

abbrev pub with_flag : Bool → String → Store → Store
with_flag b camera s = record s {
  cameras = replace_first (is_camera camera) (set_recording b) s.cameras;
}

-- The rows are written before the bucket is made sure of: where that throws, they stay.
unfoldable pub start_recording :
    Option ℕ → Bool → String → String → String → Store → Store × Result Recording
unfolding check_storage_quota
start_recording limit_gb bucket_ok id camera org s = elim (start_checks limit_gb camera org s) [
  | err e ↦ (s, err e)
  | ok _ ↦ (
    with_flag true camera (record s { recordings = new_recording id camera org ∷ s.recordings }),
    if bucket_ok then ok (new_recording id camera org) else err (failure "bucket"),
  )
]

unfoldable pub get_active_recording : String → String → Store → Option Recording
get_active_recording camera org s = find (is_active_for camera org) s.recordings

abbrev pub completed_at : ℕ → Recording → Recording
completed_at now r = record r { status = complete; stopped_at = some now }

-- The row that is found is the row that its id updates.
unfoldable pub stop_recording : ℕ → String → String → Store → Store × Result Recording
stop_recording now camera org s = elim (find (is_active_for camera org) s.recordings) [
  | none ↦ (s, err (not_found "No active recording found for camera"))
  | some r ↦ (
    with_flag false camera (record s {
      recordings = replace_first (is_active_for camera org) (completed_at now) s.recordings;
    }),
    ok (completed_at now r),
  )
]

-- The arguments of an archive call. `file` is what reading the file gives.
pub record Archive : Type 0 where
  pub recording_id : String
  pub org_id : String
  pub camera_id : String
  pub file_path : String
  pub duration : ℕ
  pub seq_no : ℕ
  pub file : Option (List ℕ)
  pub upload_ok : Bool

abbrev grow : ℕ → ℕ → Recording → Recording
grow size duration r = record r {
  total_size = r.total_size + size;
  total_duration = r.total_duration + duration;
}

abbrev new_segment : String → String → ℕ → List ℕ → Archive → Segment
new_segment id object_path now bytes a = record {
  id = id;
  org_id = a.org_id;
  recording_id = a.recording_id;
  camera_id = a.camera_id;
  object_path = object_path;
  duration = a.duration;
  size = length bytes;
  seq_no = a.seq_no;
  timestamp = now;
  has_keyframe = some (contains_h264_keyframe bytes);
}

-- `has_dots` is `includes('..')`; `object_path` the path for the time, camera and number. The foreign
-- key refuses a segment of no recording.
unfoldable pub archive_segment :
    String → (String → Bool) → String → String → ℕ → Archive → Store → Result Store
archive_segment hls_mount_path has_dots id object_path now a s =
    require (not (has_dots a.file_path)) (bad_request "Invalid file path: path traversal detected")
    >> (require (starts_with a.file_path hls_mount_path)
          (bad_request "Invalid file path: must start with")
        >> (found a.file (failure "readFile") >>= λ bytes.
            require a.upload_ok (failure "upload")
            >> (require (any (is_recording_of a.recording_id) s.recordings)
                  (failure "Foreign key constraint failed")
                >> ok (record s {
                  segments = new_segment id object_path now bytes a ∷ s.segments;
                  recordings =
                      replace_first (is_recording_of a.recording_id)
                        (grow (length bytes) a.duration) s.recordings;
                }))))

-- What the alert says: the title of the notification.
pub data Alert : Type 0 where
  storage_nearly_full storage_usage_high : Alert

-- One notification for each owner and admin, unless one was sent in the last hour.
unfoldable pub check_and_alert_storage_quota :
    Option ℕ → String → Bool → List String → Store → List (String × Alert)
unfolding check_storage_quota
check_and_alert_storage_quota limit_gb org recent_alert admins s =
    let percent = (check_storage_quota limit_gb org s.segments).usage_percent in
    if ltb percent 80 || recent_alert
    then []
    else if leb 90 percent
    then map (λ user. (user, storage_nearly_full)) admins
    else map (λ user. (user, storage_usage_high)) admins

abbrev segments_of : String → Store → List Segment
segments_of id s = keep (λ g. g.recording_id == id) s.segments

-- `objects_ok` and `init_ok`: whether the object store removes the segments and the init segment.
unfoldable pub delete_recording : Bool → Bool → String → Store → Result Store
delete_recording objects_ok init_ok id s =
    found (find (is_recording_of id) s.recordings) (not_found "Recording not found") >>= λ r.
    require (length (segments_of id s) == 0 || objects_ok) (failure "removeObjects")
    >> (require (not (truthy r.init_segment) || init_ok) (failure "removeObject")
        >> ok (record s {
          recordings = remove_first (is_recording_of id) s.recordings;
          segments = keep (λ g. not (g.recording_id == id)) s.segments;
        }))

-- The tables after the deletions, how many succeeded and how many failed.
unfoldable pub bulk_delete_recordings :
    (String → Bool) → (String → Bool) → List String → Store → Store × ℕ × ℕ
unfolding delete_recording
bulk_delete_recordings objects_ok init_ok [] s = (s, 0, 0)
bulk_delete_recordings objects_ok init_ok (id ∷ ids) s =
    elim (delete_recording (objects_ok id) (init_ok id) id s) [
      | ok s' ↦
          let (end_store, deleted, failed) = bulk_delete_recordings objects_ok init_ok ids s' in
          (end_store, suc deleted, failed)
      | err e ↦
          let (end_store, deleted, failed) = bulk_delete_recordings objects_ok init_ok ids s in
          (end_store, deleted, suc failed)
    ]
