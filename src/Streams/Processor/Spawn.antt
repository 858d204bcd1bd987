-- ===== src/Streams/Processor/Spawn.antt =====
-- When an attempt spawns FFmpeg, with what, and how it settles.
use sms_app.Base.{
  String, Bool, true, false, not, ◌&&◌, ◌||◌, Option, none, some, List, [], ◌∷◌, ◌++◌, ◌≡◌, refl,
  subst, arith, inl, inr, Bool-cases, if◌then◌else◌, ◌==◌, eq_iff, string_eq, keep, keep-append,
  Result, ok, err,
}
use sms_app.Camera.{Camera, truthy, is_push_passthrough}
use sms_app.Streams.Jobs.{loopback_prefix, text_or_empty, input_url_of, build_stream_job_data}
use sms_app.Streams.Processor.{
  Call, unsubscribe, start_stream, mark_degraded, Settled, completed, failed, Job, Answers,
  kick_stale, announce, after_exit, spawn, attempt, fingerprint_safety_net, process, signalled,
  signal_calls, output_url, restart_channel,
}
use text.Mathlib.Text.{starts_with}
use text.Mathlib.TextPositions.{starts_with-append}

abbrev pub is_start : Call → Bool
is_start (start_stream id input output profile transcode) = true
is_start c = false

abbrev pub is_mark : Call → Bool
is_mark (mark_degraded id) = true
is_mark c = false

abbrev pub is_failed : Settled → Bool
is_failed completed = false
is_failed failed = true

-- The job passes the guards.
abbrev pub is_admitted : Answers → Job → Bool
is_admitted w job =
    let d = job.payload in
    not (d.camera_id == "")
    && not (d.input_url == "")
    && (d.needs_transcode || not (starts_with d.input_url loopback_prefix))
    && not w.is_degraded

abbrev pub start_of : Answers → Job → List Call
start_of w job =
    let d = job.payload in
    start_stream d.camera_id d.input_url (output_url w.srs_host d) d.profile d.needs_transcode ∷ []

module _ (sha256 : String → String) (w : Answers) (job : Job) where
  kick_stale-starts : (r : Result (Option String)) → keep is_start (kick_stale r) ≡ []
  kick_stale-starts (ok (some s)) = ground arith
  kick_stale-starts (ok none) = refl
  kick_stale-starts (err e) = refl

  safety_net-starts : keep is_start (fingerprint_safety_net sha256 w job.payload) ≡ []
  unfolding fingerprint_safety_net
  safety_net-starts = ground arith

  after_exit-starts : keep is_start (after_exit w job.payload) ≡ []
  unfolding after_exit
  after_exit-starts = ground (arith, kick_stale-starts w.publisher_after)

  spawn-starts : keep is_start (spawn w job.payload).0 ≡ start_of w job
  unfolding spawn
  spawn-starts =
      let kicks = kick_stale w.publisher_before in
      ground (
        arith,
        keep-append is_start kicks (start_of w job),
        keep-append is_start (kicks ++ start_of w job) (after_exit w job.payload),
        kick_stale-starts w.publisher_before,
        after_exit-starts,
      )

  attempt-starts :
      keep is_start (attempt w job).0 ≡ (if w.transition_ok then start_of w job else [])
  unfolding attempt
  attempt-starts =
      ground (arith, keep-append is_start (announce job) (spawn w job.payload).0, spawn-starts)

  spawn-settled : (spawn w job.payload).1 ≡ w.spawned
  unfolding spawn
  spawn-settled = ground arith

  kick_stale-marks : (r : Result (Option String)) → keep is_mark (kick_stale r) ≡ []
  kick_stale-marks (ok (some s)) = ground arith
  kick_stale-marks (ok none) = refl
  kick_stale-marks (err e) = refl

  spawn-marks : keep is_mark (spawn w job.payload).0 ≡ (
      if is_failed w.spawned && w.is_in_crash_loop
      then mark_degraded job.payload.camera_id ∷ []
      else [])
  unfolding spawn
  spawn-marks =
      let kicks = kick_stale w.publisher_before in
      unfold after_exit in
      ground (
        arith,
        keep-append is_mark kicks (start_of w job),
        keep-append is_mark (kicks ++ start_of w job) (after_exit w job.payload),
        kick_stale-marks w.publisher_before,
        kick_stale-marks w.publisher_after,
      )

  safety_net-marks : keep is_mark (fingerprint_safety_net sha256 w job.payload) ≡ []
  unfolding fingerprint_safety_net
  safety_net-marks = ground arith

  attempt-outcome :
      ((attempt w job).1 ≡ (if w.transition_ok then w.spawned else failed))
      × (keep is_mark (attempt w job).0 ≡ (
          if w.transition_ok && is_failed w.spawned && w.is_in_crash_loop
          then mark_degraded job.payload.camera_id ∷ []
          else []))
  unfolding attempt
  attempt-outcome = ground (
    arith,
    spawn-settled,
    keep-append is_mark (announce job) (spawn w job.payload).0,
    spawn-marks,
  )

-- The job with the values of a signal that the attempt takes up.
abbrev pub signalled_job : Answers → Job → Job
signalled_job w job = record job { payload = signalled w job.payload }

module _ (sha256 : String → String) (w : Answers) (job : Job) where
  -- An attempt calls `startStream` of the FFmpeg service once where the job has a camera id and an input
  -- address, is not that of a push camera without transcoding, the camera is not held as degraded and the
  -- status transition succeeds, and else never; the call has the job's own input address and profile, or
  -- those of a restart signal that it takes up before, whatever the database and SRS answer.
  pub process-starts :
      keep is_start (process sha256 w job).0
      ≡ (if is_admitted w job && w.transition_ok then start_of w (signalled_job w job) else [])
  unfolding process
  process-starts =
      let d = job.payload in
      let job' = signalled_job w job in
      let net = if w.subscribed then fingerprint_safety_net sha256 w d else [] in
      let last = unsubscribe (restart_channel d.camera_id) ∷ [] in
      ground (
        arith,
        keep-append is_start net (signal_calls w d ++ ((attempt w job').0 ++ last)),
        keep-append is_start (signal_calls w d) ((attempt w job').0 ++ last),
        keep-append is_start (attempt w job').0 last,
        attempt-starts sha256 w job',
        safety_net-starts sha256 w job,
      )

  -- An attempt fails, and BullMQ tries it again, exactly where the job passes the guards and the
  -- status transition or FFmpeg fails; a job that a guard refuses is completed. It marks its camera
  -- as degraded exactly where FFmpeg has failed and the camera is in a crash loop.
  pub process-outcome :
      ((process sha256 w job).1 ≡ (
        if is_admitted w job && (not w.transition_ok || is_failed w.spawned)
        then failed
        else completed))
      × (keep is_mark (process sha256 w job).0 ≡ (
          if is_admitted w job && w.transition_ok && is_failed w.spawned && w.is_in_crash_loop
          then mark_degraded job.payload.camera_id ∷ []
          else []))
  unfolding process
  process-outcome =
      let d = job.payload in
      let job' = signalled_job w job in
      let net = if w.subscribed then fingerprint_safety_net sha256 w d else [] in
      let last = unsubscribe (restart_channel d.camera_id) ∷ [] in
      ground (
        arith,
        keep-append is_mark net (signal_calls w d ++ ((attempt w job').0 ++ last)),
        keep-append is_mark (signal_calls w d) ((attempt w job').0 ++ last),
        keep-append is_mark (attempt w job').0 last,
        attempt-outcome sha256 w job',
        safety_net-marks sha256 w job,
      )

nonempty_of_prefix : (s : String) → starts_with s loopback_prefix ≡ true → (s == "") ≡ false
nonempty_of_prefix s h = elim (Bool-cases (s == "")) [
  | inl e ↦ ground (arith, subst (λ v. starts_with v loopback_prefix ≡ true) ((eq_iff s "").0 e) h)
  | inr e ↦ e
]

-- A job that is built from a push camera without transcoding, which has an id and a stream key, makes
-- no call at all and is completed: SRS forwards the stream without FFmpeg.
pub push_passthrough_job :
    (sha256 : String → String) (w : Answers) (name : String) (c : Camera)
    → is_push_passthrough c ≡ true
    → truthy c.stream_key ≡ true
    → (c.id == "") ≡ false
    → process sha256 w (record { name = name; payload = build_stream_job_data c }) ≡ ([], completed)
unfolding process build_stream_job_data input_url_of
push_passthrough_job sha256 w name c push key id = ground (
  arith,
  starts_with-append loopback_prefix (text_or_empty c.stream_key),
  nonempty_of_prefix (input_url_of c),
)
