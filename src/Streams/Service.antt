-- ===== src/Streams/Service.antt =====
-- apps/api/src/streams/streams.service.ts: the starts, restarts and stops that users and profile
-- changes ask for. What the queries answer are arguments; a method returns the calls that it makes,
-- in order, or the error that it throws.
pub mod Queue
mod Examples
use sms_app.Base.{
  ℕ, suc, ◌+◌, String, Bool, true, false, not, ◌&&◌, Option, none, some, List, [], ◌∷◌, ◌++◌,
  length, keep, contains, if◌then◌else◌, ◌==◌, string_eq, Result, ok, err, Error, not_found, found,
  ◌>>=◌,
}
use sms_app.Camera.{
  Status, offline, status_eq, Profile, Camera, running_statuses, is_push_passthrough,
}
use sms_app.Streams.Jobs.{JobData, fallback_profile, input_url_of, profile_or, ffmpeg_job_id}
use sms_app.Streams.Processor.{restart_channel}

pub record Job : Type 0 where
  pub name : String
  pub delay : ℕ
  pub payload : JobData

pub data Call : Type 0 where
  -- `camera.profile_hot_reload`, for an organization and a camera
  audit : String → String → Call
  -- `remove` of a job, its error caught
  remove_job : String → Call
  -- `add` under a job id, with 8 attempts and a backoff base of 1000 ms
  add_job : String → Job → Call
  -- channel, with the profile and the input address of the message
  publish : String → Profile → String → Call
  stop_ffmpeg : String → Call
  transition : String → String → Status → Call

abbrev pub either_row {ℓ} : {A : Type ℓ} → Option A → Option A → Option A
either_row none second = second
either_row (some a) second = some a

abbrev pub job_data_with : Option Profile → Camera → JobData
job_data_with profile c = record {
  camera_id = c.id;
  org_id = c.org_id;
  input_url = input_url_of c;
  profile = profile_or fallback_profile profile;
  needs_transcode = c.needs_transcode;
}

abbrev pub remove_if : Bool → String → List Call
remove_if true id = remove_job id ∷ []
remove_if false id = []

-- `tenant_row` and `system_row` are what the two clients answer for the camera, `default_row` is the
-- organization's default profile, `queued` whether `getJob` finds a job.
unfoldable pub start_stream :
    Option Camera → Option Camera → Option Profile → Bool → Result (List Call)
start_stream tenant_row system_row default_row queued =
    found (either_row tenant_row system_row) (not_found "Camera not found") >>= λ c.
    if is_push_passthrough c
    then ok []
    else ok (
        remove_if queued (ffmpeg_job_id c.id)
        ++ add_job (ffmpeg_job_id c.id) (record {
          name = "start";
          delay = 0;
          payload = job_data_with (either_row c.stream_profile default_row) c;
        })
          ∷ [])

-- The `where` clause: a camera by its id, or the cameras that a profile is attached to, which
-- `attached` tells.
abbrev pub restart_applies : Option String → (Camera → Bool) → Camera → Bool
restart_applies camera_id attached c =
    (elim camera_id [ none ↦ attached c | some id ↦ c.id == id ])
    && (contains running_statuses c.status && not c.maintenance_mode)

abbrev pub is_active : Option Bool → Bool
is_active none = false
is_active (some active) = active

abbrev pub is_queued : Option Bool → Bool
is_queued none = false
is_queued (some active) = true

-- One turn of the loop. `job` is what `getJob` finds: whether its job is active.
unfoldable pub restart_camera :
    Option Profile → (String → Option Bool) → (String → ℕ) → Camera → List Call
restart_camera profile job jitter c =
    audit c.org_id c.id
    ∷ (if is_active (job c.id)
        then publish (restart_channel c.id) (profile_or fallback_profile profile) (input_url_of c)
          ∷ []
        else remove_if (is_queued (job c.id)) (ffmpeg_job_id c.id)
          ++ add_job (ffmpeg_job_id c.id)
              (record { name = "restart"; delay = jitter c.id; payload = job_data_with profile c })
            ∷ [])

unfoldable pub restart_cameras :
    Option Profile → (String → Option Bool) → (String → ℕ) → List Camera → List Call
restart_cameras profile job jitter [] = []
restart_cameras profile job jitter (c ∷ cs) =
    restart_camera profile job jitter c ++ restart_cameras profile job jitter cs

-- `find_many` answers `prisma.camera.findMany`; `profile` is the row of the profile, `none` for
-- 'none-sentinel'. Also the number of affected cameras.
unfoldable pub enqueue_profile_restart :
    ((Camera → Bool) → List Camera)
    → Option String
    → (Camera → Bool)
    → Option Profile
    → (String → Option Bool)
    → (String → ℕ)
    → List Call × ℕ
unfolding restart_cameras
enqueue_profile_restart find_many camera_id attached profile job jitter =
    let cameras = find_many (restart_applies camera_id attached) in
    (restart_cameras profile job jitter cameras, length cameras)

unfoldable pub stop_stream : Option Camera → Bool → Bool → Result (List Call)
stop_stream row running queued = found row (not_found "Camera not found") >>= λ c. ok (
    (if running then stop_ffmpeg c.id ∷ [] else [])
    ++ (remove_if queued (ffmpeg_job_id c.id) ++ transition c.id c.org_id offline ∷ []))
