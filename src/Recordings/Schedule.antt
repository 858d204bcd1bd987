-- ===== src/Recordings/Schedule.antt =====
-- apps/api/src/recordings/schedule.processor.ts: the job that starts and stops recordings by the
-- schedules of the cameras. Times of day are texts HH:MM, compared as texts.
pub mod Frame
pub mod Window
pub mod Conflict
mod Examples
use sms_app.Base.{
  ℕ, String, Bool, true, false, not, ◌&&◌, ◌||◌, Option, none, some, List, [], ◌∷◌, if◌then◌else◌,
  ◌==◌, string_eq, nat_eq, contains, find,
}
use sms_app.Camera.{Camera, online, status_eq}
use sms_app.Recordings.Service.{Store, is_camera, start_recording, stop_recording}
use Prim.Native.Nat.{Ordering}
use Prim.Native.String

abbrev pub earlier : String → String → Bool
earlier a b = elim (String.compare a b) [ Ordering.lt ↦ true | _ ↦ false ]

pub record Schedule : Type 0 where
  pub camera_id : String
  pub org_id : String
  pub schedule_type : String
  pub start_time : String
  pub end_time : String
  pub days : Option (List ℕ)

-- What a run reads besides the tables: the time and day of week, the clock, the packages, the object
-- store and the id of a new recording.
pub record Run : Type 0 where
  pub time : String
  pub day : ℕ
  pub now : ℕ
  pub limit_gb : String → Option ℕ
  pub bucket_ok : String → Bool
  pub new_id : String → String

abbrev lacks_day : ℕ → Option (List ℕ) → Bool
lacks_day day none = false
lacks_day day (some days) = not (contains days day)

abbrev pub is_skipped : Run → Schedule → Bool
is_skipped run sch = sch.schedule_type == "weekly" && lacks_day run.day sch.days

-- A window that crosses midnight is two ranges.
unfoldable pub should_be_recording : String → Schedule → Bool
should_be_recording time sch =
    if earlier sch.end_time sch.start_time
    then not (earlier time sch.start_time) || earlier time sch.end_time
    else not (earlier time sch.start_time) && earlier time sch.end_time

-- The start or the stop for the camera's row; what it throws is logged.
unfoldable pub act_on : Run → Schedule → Option Camera → Store → Store
act_on run sch none s = s
act_on run sch (some c) s =
    if should_be_recording run.time sch && (not c.is_recording && c.status == online)
    then (start_recording (run.limit_gb sch.org_id) (run.bucket_ok sch.org_id)
        (run.new_id sch.camera_id) sch.camera_id sch.org_id s).0
    else if not (should_be_recording run.time sch) && c.is_recording
    then (stop_recording run.now sch.camera_id sch.org_id s).0
    else s

unfoldable pub apply_schedule : Run → Schedule → Store → Store
unfolding act_on
apply_schedule run sch s =
    if is_skipped run sch then s else act_on run sch (find (is_camera sch.camera_id) s.cameras) s

-- One run over the enabled schedules.
unfoldable pub process : Run → List Schedule → Store → Store
unfolding apply_schedule
process run [] s = s
process run (sch ∷ rest) s = process run rest (apply_schedule run sch s)
