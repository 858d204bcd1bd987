-- ===== src/Streams/Processor.antt =====
-- apps/api/src/streams/processors/stream.processor.ts and profile-fingerprint.util.ts: one attempt of
-- a job of the `stream-ffmpeg` queue. What the collaborators answer is the record `Answers`; the
-- attempt returns the calls that it makes, in order, and how it settles. BullMQ tries a failed attempt
-- again. The pauses, and the SHA-256 of `crypto`, which is a parameter, are not modelled.
pub mod Spawn
pub mod HotReload
mod Examples
use sms_app.Base.{
  ℕ, zero, suc, ◌+◌, ◌-◌, ◌/◌, ◌%◌, String, Bool, true, false, not, ◌&&◌, ◌||◌, Option, none, some,
  List, [], ◌∷◌, ◌++◌, if◌then◌else◌, ◌==◌, string_eq, contains, get_elem?, nat_eq, Result, ok, err,
}
use sms_app.Camera.{Status, connecting, reconnecting, degraded, Profile, truthy}
use sms_app.Streams.Jobs.{JobData, loopback_prefix, text_or_empty, profile_or}
use text.Mathlib.Text.{starts_with}
use Prim.Native.String

abbrev digits : List String
digits = "0" ∷ "1" ∷ "2" ∷ "3" ∷ "4" ∷ "5" ∷ "6" ∷ "7" ∷ "8" ∷ "9" ∷ []

abbrev digit : ℕ → String
digit n = text_or_empty (get_elem? digits n)

-- The decimal text of a number, with at most `fuel` digits; `suc n` is enough for `n`.
abbrev decimal_with : ℕ → ℕ → String
decimal_with zero n = ""
decimal_with (suc fuel) n =
    let rest = decimal_with fuel (n / 10) in
    if n / 10 == 0 then digit (n % 10) else String.◌++◌ rest (digit (n % 10))

abbrev pub or_null : Option String → String
or_null none = "null"
or_null (some s) = s

abbrev pub fps_or_null : Option ℕ → String
fps_or_null none = "null"
fps_or_null (some n) = decimal_with (suc n) n

abbrev pub join : List String → String
join [] = ""
join (s ∷ []) = s
join (s ∷ t ∷ rest) = String.◌++◌ s (String.◌++◌ "|" (join (t ∷ rest)))

unfoldable pub canonical : Profile → String
canonical p = join (
    String.◌++◌ "codec=" p.codec
    ∷ String.◌++◌ "preset=" (or_null p.preset)
    ∷ String.◌++◌ "resolution=" (or_null p.resolution)
    ∷ String.◌++◌ "fps=" (fps_or_null p.fps)
    ∷ String.◌++◌ "videoBitrate=" (or_null p.video_bitrate)
    ∷ String.◌++◌ "audioCodec=" p.audio_codec
    ∷ String.◌++◌ "audioBitrate=" (or_null p.audio_bitrate)
    ∷ [])

unfoldable pub fingerprint_profile : (String → String) → Option Profile → String
unfolding canonical
fingerprint_profile sha256 none = "sha256:none"
fingerprint_profile sha256 (some p) = String.◌++◌ "sha256:" (sha256 (canonical p))

pub data Reason : Type 0 where
  undefined_camera_id empty_input_url : Reason

pub data Call : Type 0 where
  record_refusal : Reason → Call
  subscribe unsubscribe : String → Call
  graceful_restart kick_publisher mark_degraded : String → Call
  transition : String → String → Status → Call
  -- camera, input, output, profile, whether to transcode
  start_stream : String → String → String → Profile → Bool → Call

-- How an attempt settles.
pub data Settled : Type 0 where
  completed failed : Settled

-- A job as the worker gets it.
pub record Job : Type 0 where
  pub name : String
  pub payload : JobData

-- The message of a restart signal.
pub record Signal : Type 0 where
  pub profile : Option Profile
  pub input_url : Option String

pub record Answers : Type 0 where
  pub srs_host : String
  -- `isDegraded` at the start and `isInCrashLoop` once the process has died
  pub is_degraded : Bool
  pub is_in_crash_loop : Bool
  -- whether the subscription succeeds, and whether a restart of the camera is in flight
  pub subscribed : Bool
  pub restarting : Bool
  -- a restart signal that arrives before the spawn
  pub signal : Option Signal
  -- the camera row with its profile, where the query succeeds
  pub row : Result (Option (Option Profile))
  -- whether the first status transition succeeds
  pub transition_ok : Bool
  -- the publisher of the stream that SRS knows, before the spawn and after it; an error is logged
  pub publisher_before : Result (Option String)
  pub publisher_after : Result (Option String)
  -- how the promise of `FfmpegService.startStream` settles
  pub spawned : Settled

unfoldable pub fingerprint_safety_net : (String → String) → Answers → JobData → List Call
unfolding fingerprint_profile
fingerprint_safety_net sha256 w d = elim w.row [
  | err e ↦ []
  | ok none ↦ []
  | ok (some profile) ↦
      if not (fingerprint_profile sha256 profile == fingerprint_profile sha256 (some d.profile))
        && not w.restarting
      then graceful_restart d.camera_id ∷ []
      else []
]

abbrev pub kick_stale : Result (Option String) → List Call
kick_stale (ok (some client)) = if client == "" then [] else kick_publisher client ∷ []
kick_stale _ = []

abbrev pub restart_channel : String → String
restart_channel id = String.◌++◌ "camera:" (String.◌++◌ id ":restart")

abbrev pub output_url : String → JobData → String
output_url host d = String.◌++◌ "rtmp://" (
    String.◌++◌ host
      (String.◌++◌ ":1935/live/" (String.◌++◌ d.org_id (String.◌++◌ "/" d.camera_id))))

-- The `catch` of the spawn.
unfoldable pub after_exit : Answers → JobData → List Call
after_exit w d =
    (if w.is_in_crash_loop
      then mark_degraded d.camera_id ∷ transition d.camera_id d.org_id degraded ∷ []
      else [])
    ++ kick_stale w.publisher_after

-- From the pre-flight kick on.
unfoldable pub spawn : Answers → JobData → List Call × Settled
unfolding after_exit
spawn w d =
    let calls =
      kick_stale w.publisher_before
      ++ start_stream d.camera_id d.input_url (output_url w.srs_host d) d.profile d.needs_transcode
        ∷ [] in
    elim w.spawned [ completed ↦ (calls, completed) | failed ↦ (calls ++ after_exit w d, failed) ]

-- The handler of a restart signal: what it calls, and the cameras whose restart is in flight while
-- it waits. `gracefulRestart` always resolves, and the camera is then taken out.
unfoldable pub on_restart_signal : String → List String → List Call × List String
on_restart_signal id restarting =
    if contains restarting id then ([], restarting) else (graceful_restart id ∷ [], id ∷ restarting)

abbrev pub with_signal : Signal → JobData → JobData
with_signal m d = record d {
  profile = profile_or d.profile m.profile;
  input_url = if truthy m.input_url then text_or_empty m.input_url else d.input_url;
}

-- Whether the attempt takes up a signal, and the values that it then goes on with.
abbrev pub takes_signal : Answers → Bool
takes_signal w = w.subscribed && not w.restarting

abbrev pub signalled : Answers → JobData → JobData
signalled w d = elim w.signal [ none ↦ d | some m ↦ if takes_signal w then with_signal m d else d ]

abbrev pub signal_calls : Answers → JobData → List Call
signal_calls w d = elim w.signal [
  | none ↦ []
  | some m ↦ if takes_signal w then graceful_restart d.camera_id ∷ [] else []
]

abbrev pub announce : Job → List Call
announce job =
    let d = job.payload in
    if job.name == "restart"
    then graceful_restart d.camera_id ∷ transition d.camera_id d.org_id reconnecting ∷ []
    else transition d.camera_id d.org_id connecting ∷ []

-- The outer `try`.
unfoldable pub attempt : Answers → Job → List Call × Settled
unfolding spawn
attempt w job =
    if w.transition_ok
    then (let (calls, settled) = spawn w job.payload in (announce job ++ calls, settled))
    else (announce job, failed)

unfoldable pub process : (String → String) → Answers → Job → List Call × Settled
unfolding fingerprint_safety_net attempt
process sha256 w job =
    let d = job.payload in
    if d.camera_id == "" || d.input_url == ""
    then (
      record_refusal (if d.camera_id == "" then undefined_camera_id else empty_input_url) ∷ [],
      completed,
    )
    else if not d.needs_transcode && starts_with d.input_url loopback_prefix
    then ([], completed)
    else if w.is_degraded
    then (transition d.camera_id d.org_id degraded ∷ [], completed)
    else let (calls, settled) = attempt w (record job { payload = signalled w d }) in
      (
        subscribe (restart_channel d.camera_id)
              ∷ (if w.subscribed then fingerprint_safety_net sha256 w d else [])
            ++ (signal_calls w d ++ (calls ++ unsubscribe (restart_channel d.camera_id) ∷ [])),
        settled,
      )

-- stream-guard-metrics.service.ts
pub record GuardMetrics : Type 0 where
  pub refusals : ℕ
  pub undefined_camera_ids : ℕ
  pub empty_input_urls : ℕ
  pub last_refusal_at : Option ℕ
  pub last_refusal_reason : Option Reason

unfoldable pub record_refusal_metric : ℕ → Reason → GuardMetrics → GuardMetrics
record_refusal_metric now undefined_camera_id m = record m {
  refusals = m.refusals + 1;
  undefined_camera_ids = m.undefined_camera_ids + 1;
  last_refusal_at = some now;
  last_refusal_reason = some undefined_camera_id;
}
record_refusal_metric now empty_input_url m = record m {
  refusals = m.refusals + 1;
  empty_input_urls = m.empty_input_urls + 1;
  last_refusal_at = some now;
  last_refusal_reason = some empty_input_url;
}
