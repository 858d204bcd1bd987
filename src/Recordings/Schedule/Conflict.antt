-- ===== src/Recordings/Schedule/Conflict.antt =====
-- Several schedules for one camera.
use sms_app.Base.{false, some, List, ◌∷◌, ◌++◌, ◌≡◌, ap, ◌∙◌, arith, ◌==◌, string_eq, find, All}
use sms_app.Camera.{Camera}
use sms_app.Recordings.Service.{Store, is_camera, set_recording}
use sms_app.Recordings.Service.Flag.{Reaches, before_recording}
use sms_app.Recordings.Schedule.{
  Schedule, Run, is_skipped, should_be_recording, apply_schedule, process,
}
use sms_app.Recordings.Schedule.Frame.{process-append, process-other, process-Reaches}
use sms_app.Recordings.Schedule.Window.{apply_schedule-own}

-- The camera does not record after a run in which the last of its schedules is outside its window,
-- whatever the earlier schedules say, so also where the window of one of them holds: the run stops the
-- recording that it has just started. `c` is the camera's row when the last schedule is reached.
pub last_schedule_wins :
    (run : Run) (before after : List Schedule) (sch : Schedule) (cameras : List Camera) (s : Store)
    (c : Camera)
    → All (λ c. c.is_recording ≡ false) cameras
    → Reaches (before_recording cameras) s
    → find (is_camera sch.camera_id) (process run before s).cameras ≡ some c
    → c.org_id ≡ sch.org_id
    → is_skipped run sch ≡ false
    → should_be_recording run.time sch ≡ false
    → All (λ x. (sch.camera_id == x.camera_id) ≡ false) after
    → find (is_camera sch.camera_id) (process run (before ++ sch ∷ after) s).cameras
      ≡ some (set_recording false c)
unfolding process
last_schedule_wins run before after sch cameras s c off reached e o due out ha =
    let t = process run before s in
    rw (process-append run before (sch ∷ after) s) (
      process-other run after (apply_schedule run sch t) sch.camera_id ha
      ∙ (apply_schedule-own run sch cameras t c off
            (process-Reaches run before (before_recording cameras) s reached) e o
          ∙ ap (λ b. some (set_recording b c)) (ground (arith))))
