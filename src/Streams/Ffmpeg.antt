-- ===== src/Streams/Ffmpeg.antt =====
-- apps/api/src/streams/ffmpeg/ffmpeg.service.ts: the running FFmpeg processes. The processes
-- themselves are not modelled: their `start`, `error` and `end` events are operations. The stderr
-- lines, which only reach the log, are left out, and so is `simulateEnd`, which only tests call.
pub mod Exits
pub mod Restart
mod Examples
use sms_app.Base.{
  ℕ, String, Bool, true, false, Option, none, some, List, [], ◌∷◌, contains, set_add, set_remove,
  if◌then◌else◌, string_eq,
}
use sms_app.Streams.Health.{HealthMetrics, record_start, record_exit}

pub record FfmpegState : Type 0 where
  pub running_processes : List String
  pub intentional_stops : List String
  pub metrics : HealthMetrics

-- How the promise of `startStream` settles.
pub data Outcome : Type 0 where
  resolved rejected : Outcome

pub data Signal : Type 0 where
  sigterm sigkill : String → Signal

unfoldable pub is_running : String → FfmpegState → Bool
is_running id s = contains s.running_processes id

-- Whether a process is spawned; if one runs already, the promise resolves at once.
unfoldable pub start_stream : String → FfmpegState → Bool × FfmpegState
unfolding is_running
start_stream id s =
    if is_running id s
    then (false, s)
    else (true, record s { running_processes = set_add id s.running_processes })

unfoldable pub on_start : ℕ → String → FfmpegState → FfmpegState
on_start now id s = record s { metrics = record_start now id s.metrics }

abbrev pub forget : ℕ → String → Bool → FfmpegState → FfmpegState
forget now id intentional s = record {
  running_processes = set_remove id s.running_processes;
  intentional_stops = set_remove id s.intentional_stops;
  metrics = record_exit now id intentional s.metrics;
}

unfoldable pub on_error : ℕ → String → FfmpegState → Outcome × FfmpegState
on_error now id s =
    let was_intentional = contains s.intentional_stops id in
    (if was_intentional then resolved else rejected, forget now id was_intentional s)

unfoldable pub on_end : ℕ → String → FfmpegState → Outcome × FfmpegState
on_end now id s = (resolved, forget now id true s)

unfoldable pub stop_stream : String → FfmpegState → List Signal × FfmpegState
unfolding is_running
stop_stream id s =
    if is_running id s
    then (sigterm id ∷ [], record s { intentional_stops = set_add id s.intentional_stops })
    else ([], s)

unfoldable pub force_kill : String → FfmpegState → List Signal × FfmpegState
unfolding is_running
force_kill id s =
    if is_running id s
    then (sigkill id ∷ [], record s { intentional_stops = set_add id s.intentional_stops })
    else ([], s)
