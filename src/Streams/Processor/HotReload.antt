-- ===== src/Streams/Processor/HotReload.antt =====
-- What a changed profile does to a camera whose FFmpeg runs: the restart signal and the fingerprint.
use sms_app.Base.{
  ℕ, String, true, not, ◌&&◌, Option, some, List, [], ◌∷◌, ◌++◌, ◌≡◌, refl, ◌∙◌, ap, sym, arith,
  if◌then◌else◌, ◌==◌, eq_iff, eq_refl, string_eq, keep, Result, ok,
}
use sms_app.Camera.{Profile}
use sms_app.Streams.Jobs.{JobData}
use sms_app.Streams.Ffmpeg.{Outcome, resolved, rejected, on_error}
use sms_app.Streams.Ffmpeg.Exits.{
  Act, stop, acts, no_process, gone, alive, Life, life, live, exits_follow_life,
}
use sms_app.Streams.Processor.{
  Settled, completed, failed, Job, Answers, fingerprint_safety_net, fingerprint_profile, canonical,
  process, graceful_restart,
}
use text.Mathlib.TextLemmas.{append_cancel_left}
use sms_app.Streams.Processor.Spawn.{is_start, process-starts, process-outcome}

abbrev pub settled_of : Outcome → Settled
settled_of resolved = completed
settled_of rejected = failed

life-append :
    (id : String) (h rest : List Act) (l : Life)
    → life id (h ++ rest) l ≡ life id rest (life id h l)
life-append id [] rest l = refl
life-append id (a ∷ h) rest l = life-append id h rest (live id a l)

exit_after_stop :
    (id : String) (history : List Act) (now : ℕ)
    → life id history gone ≡ alive
    → (on_error now id (acts (history ++ stop id ∷ []) no_process)).0 ≡ resolved
exit_after_stop id history now running = ground (
  arith,
  exits_follow_life id (history ++ stop id ∷ []) now,
  life-append id history (stop id ∷ []) gone,
  eq_refl id,
)

-- After any calls and events of the FFmpeg service that leave a camera's process running, a restart
-- signal, which stops the process, makes its error exit resolve the promise: the attempt that waits
-- for it, its status transition done, is completed, so that BullMQ does not try the job again.
pub signalled_restart_completes :
    (sha256 : String → String) (w : Answers) (job : Job) (history : List Act) (now : ℕ)
    → life job.payload.camera_id history gone ≡ alive
    → w.transition_ok ≡ true
    → let id = job.payload.camera_id in
      let exit = (on_error now id (acts (history ++ stop id ∷ []) no_process)).0 in
      (process sha256 (record w { spawned = settled_of exit }) job).1 ≡ completed
signalled_restart_completes sha256 w job history now running moved = ground (
  arith,
  exit_after_stop job.payload.camera_id history now running,
  process-outcome sha256
      (record w {
        spawned =
            settled_of
              (on_error now job.payload.camera_id
                (acts (history ++ stop job.payload.camera_id ∷ []) no_process)).0;
      })
      job,
)

-- Whatever profile the database holds when an attempt starts, the processes that the attempt spawns
-- are the same: the fingerprint check never changes the profile of a spawn.
pub safety_net_keeps_profile :
    (sha256 : String → String) (w : Answers) (job : Job) (row : Result (Option (Option Profile)))
    → keep is_start (process sha256 (record w { row = row }) job).0
      ≡ keep is_start (process sha256 w job).0
safety_net_keeps_profile sha256 w job row =
    process-starts sha256 (record w { row = row }) job ∙ sym (process-starts sha256 w job)

same_fingerprint :
    (sha256 : String → String) (p q : Profile)
    → (sha256 (canonical p) ≡ sha256 (canonical q) → canonical p ≡ canonical q)
    → (fingerprint_profile sha256 (some p) == fingerprint_profile sha256 (some q))
      ≡ (canonical p == canonical q)
unfolding fingerprint_profile
same_fingerprint sha256 p q apart = ground (
  arith,
  eq_iff (canonical p) (canonical q),
  eq_iff (fingerprint_profile sha256 (some p)) (fingerprint_profile sha256 (some q)),
  append_cancel_left "sha256:" (sha256 (canonical p)) (sha256 (canonical q)),
  ap sha256 {x = canonical p} {y = canonical q},
)

-- Where the hash tells the canonical texts of the two profiles apart, the check at the start of an
-- attempt, the camera row found with a profile, restarts the camera's FFmpeg exactly where those texts
-- differ and no restart of the camera is in flight.
pub safety_net_restarts :
    (sha256 : String → String) (w : Answers) (d : JobData) (p : Profile)
    → (sha256 (canonical p) ≡ sha256 (canonical d.profile) → canonical p ≡ canonical d.profile)
    → w.row ≡ ok (some (some p))
    → fingerprint_safety_net sha256 w d ≡ (
        if not (canonical p == canonical d.profile) && not w.restarting
        then graceful_restart d.camera_id ∷ []
        else [])
unfolding fingerprint_safety_net
safety_net_restarts sha256 w d p apart found =
    rw found (rw (same_fingerprint sha256 p d.profile apart) refl)
