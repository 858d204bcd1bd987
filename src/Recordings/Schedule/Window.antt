-- ===== src/Recordings/Schedule/Window.antt =====
-- What a run of the schedules makes of a camera: one schedule for it, and several.
use sms_app.Base.{
  ℕ, String, Bool, true, false, ◌&&◌, ◌||◌, Option, some, List, ◌≡◌, arith, if◌then◌else◌, ◌==◌,
  string_eq, eq_iff, find, count_by-none, All, ok, err, bad_request, ◌≤◌, Result-cases,
  Option-cases, inl, inr,
}
use sms_app.Camera.{Camera, online, status_eq}
use sms_app.Recordings.Service.{
  Store, is_camera, is_active_for, start_recording, stop_recording, start_checks,
  check_storage_quota, set_recording,
}
use sms_app.Recordings.Service.Flag.{Reaches, before_recording, flag_follows_recordings}
use sms_app.Recordings.Service.Operations.{
  active_count, start_refused, start_done, stop_done, find-with_flag_same,
}
use sms_app.Recordings.Schedule.{
  Schedule, Run, is_skipped, should_be_recording, act_on, apply_schedule,
}

-- Whether a camera records after a run: as before on a day that the schedule leaves out, not outside
-- the window, and inside it unless it is not online or the storage is used up.
abbrev pub records_after : Run → Schedule → Store → Camera → Bool
records_after run sch s c =
    if is_skipped run sch
    then c.is_recording
    else if should_be_recording run.time sch
    then c.is_recording
      || (c.status == online
          && (check_storage_quota (run.limit_gb sch.org_id) sch.org_id s.segments).allowed)
    else false

start_checks_online :
    (limit_gb : Option ℕ) (org : String) (s : Store) (camera : String) (c : Camera)
    → find (is_camera camera) s.cameras ≡ some c
    → c.org_id ≡ org
    → (c.status == online) ≡ true
    → c.is_recording ≡ false
    → start_checks limit_gb camera org s ≡ (
        if (check_storage_quota limit_gb org s.segments).allowed
        then ok tt
        else err (bad_request "Storage quota exceeded, cannot start recording"))
start_checks_online limit_gb org s camera c e o on off =
    ground (arith, eq_iff c.org_id org, eq_iff c.status online)

start_online :
    (limit_gb : Option ℕ) (bucket_ok : Bool) (id camera org : String) (s : Store) (c : Camera)
    → find (is_camera camera) s.cameras ≡ some c
    → c.org_id ≡ org
    → (c.status == online) ≡ true
    → c.is_recording ≡ false
    → find (is_camera camera) (start_recording limit_gb bucket_ok id camera org s).0.cameras
      ≡ some (set_recording (check_storage_quota limit_gb org s.segments).allowed c)
start_online limit_gb bucket_ok id camera org s c e o on off =
    elim (Result-cases (start_checks limit_gb camera org s)) [
      | inl (x, f) ↦
          rw (start_refused limit_gb bucket_ok id camera org s x f)
            (ground (arith, start_checks_online limit_gb org s camera c e o on off))
      | inr (u, f) ↦ rw (start_done limit_gb bucket_ok id camera org s u f) (
          ground (
            arith,
            start_checks_online limit_gb org s camera c e o on off,
            find-with_flag_same true camera s,
          ))
    ]

stop_recorded :
    (now : ℕ) (camera org : String) (s : Store) (c : Camera)
    → find (is_camera camera) s.cameras ≡ some c
    → 1 ≤ active_count camera org s
    → find (is_camera camera) (stop_recording now camera org s).0.cameras
      ≡ some (set_recording false c)
stop_recorded now camera org s c e n =
    elim (Option-cases (find (is_active_for camera org) s.recordings)) [
      | inl f ↦ ground (arith, count_by-none (is_active_for camera org) s.recordings f)
      | inr (r, f) ↦
          rw (stop_done now camera org s r f) (ground (arith, find-with_flag_same false camera s))
    ]

pub apply_schedule-own :
    (run : Run) (sch : Schedule) (cameras : List Camera) (s : Store) (c : Camera)
    → All (λ c. c.is_recording ≡ false) cameras
    → Reaches (before_recording cameras) s
    → find (is_camera sch.camera_id) s.cameras ≡ some c
    → c.org_id ≡ sch.org_id
    → find (is_camera sch.camera_id) (apply_schedule run sch s).cameras
      ≡ some (set_recording (records_after run sch s c) c)
unfolding apply_schedule act_on
apply_schedule-own run sch cameras s c off reached e o = rw e (
    ground (
      arith,
      start_online (run.limit_gb sch.org_id) (run.bucket_ok sch.org_id) (run.new_id sch.camera_id)
          sch.camera_id sch.org_id s c e o,
      stop_recorded run.now sch.camera_id sch.org_id s c e,
      flag_follows_recordings cameras s sch.camera_id c sch.org_id off reached e,
      eq_iff c.org_id sch.org_id,
    ))
