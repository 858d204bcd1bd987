-- ===== src/Streams/Jobs.antt =====
-- apps/api/src/resilience/job-data.helper.ts and the parts of stream.processor.ts that describe a
-- job of the `stream-ffmpeg` queue.
use sms_app.Base.{
  ℕ, ◌-◌, ◌*◌, ◌^◌, String, Bool, ◌&&◌, Option, none, some, min, if◌then◌else◌, ◌==◌, string_eq,
}
use sms_app.Camera.{Profile, Camera, truthy}
use Prim.Native.String
use Prim.Native.Nat.{ℕ}

pub record JobData : Type 0 where
  pub camera_id : String
  pub org_id : String
  pub input_url : String
  pub profile : Profile
  pub needs_transcode : Bool

pub record QueuedJob : Type 0 where
  pub name : String
  pub attempts_made : ℕ

abbrev pub fallback_profile : Profile
fallback_profile = record {
  codec = "auto";
  preset = none;
  resolution = none;
  fps = none;
  video_bitrate = none;
  audio_codec = "aac";
  audio_bitrate = none;
}

abbrev pub loopback_prefix : String
loopback_prefix = "rtmp://127.0.0.1:1935/push/"

abbrev pub text_or_empty : Option String → String
text_or_empty none = ""
text_or_empty (some s) = s

-- `camera.ingestMode === 'push' && camera.streamKey ? loopback : camera.streamUrl`
unfoldable pub input_url_of : Camera → String
input_url_of c =
    if c.ingest_mode == "push" && truthy c.stream_key
    then String.◌++◌ loopback_prefix (text_or_empty c.stream_key)
    else c.stream_url

abbrev pub profile_or : Profile → Option Profile → Profile
profile_or fallback none = fallback
profile_or fallback (some p) = p

unfoldable pub build_stream_job_data : Camera → JobData
unfolding input_url_of
build_stream_job_data c = record {
  camera_id = c.id;
  org_id = c.org_id;
  input_url = input_url_of c;
  profile = profile_or fallback_profile c.stream_profile;
  needs_transcode = c.needs_transcode;
}

abbrev pub max_stream_attempts : ℕ
max_stream_attempts = 8

abbrev pub max_backoff_ms : ℕ
max_backoff_ms = 300000

abbrev pub base_backoff_ms : ℕ
base_backoff_ms = 1000

-- `attempt` counts from 1.
unfoldable pub calculate_backoff : ℕ → ℕ
calculate_backoff attempt = min (base_backoff_ms * 2 ^ (attempt - 1)) max_backoff_ms

abbrev pub ffmpeg_job_id : String → String
ffmpeg_job_id camera_id = String.◌++◌ "camera:" (String.◌++◌ camera_id ":ffmpeg")
