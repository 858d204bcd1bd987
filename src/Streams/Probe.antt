-- ===== src/Streams/Probe.antt =====
-- apps/api/src/streams/processors/stream-probe.processor.ts: a job that finds out the codecs of a
-- camera, by ffprobe or by the media server. The clients of both and the database are parameters.
pub mod Messages
pub mod Settled
mod Examples
use Prim.Native.String
use sms_app.Base.{
  ℕ, String, Bool, true, false, not, ◌&&◌, ◌||◌, Option, none, some, List, [], ◌∷◌, ◌++◌, ◌==◌,
  string_eq, if◌then◌else◌, is_word, Result, ok, err, Error, failure, ◌>>=◌, ◌>>◌,
}
use sms_app.Camera.{truthy}
use sms_app.Cameras.Ffprobe.{ProbeResult}
use sms_app.Streams.Probe.Messages.{normalize_error, message_of}

pub data CodecStatus : Type 0 where
  pending success failed mismatch : CodecStatus

pub record Video : Type 0 where
  pub codec : String
  pub width : ℕ
  pub height : ℕ
  pub fps : Option ℕ
  pub profile : Option String
  pub level : Option String

pub record Audio : Type 0 where
  pub codec : String
  pub sample_rate : Option ℕ
  pub channels : Option ℕ

-- The tagged union that the `codecInfo` column keeps.
pub record CodecInfo : Type 0 where
  pub status : CodecStatus
  pub video : Option Video
  pub audio : Option Audio
  pub error : Option String
  pub mismatch_codec : Option String
  pub probed_at : ℕ
  pub source : String

pub record Job : Type 0 where
  pub camera_id : String
  pub stream_url : String
  pub org_id : String
  pub source : Option String

-- The columns of the camera that the probe reads.
pub record Row : Type 0 where
  pub ingest_mode : String
  pub stream_key : Option String
  pub needs_transcode : Bool

-- A stream as the media server lists it; its fields have the types of the column.
pub record ServerStream : Type 0 where
  pub video : Option Video
  pub audio : Option Audio

-- What a job meets: the clock, the row, the answers of the media server and of ffprobe, and whether an
-- update of the column, the audit log and the kick go through.
pub record World : Type 0 where
  pub now : ℕ
  -- `findUnique`: whether it throws, and the row that it answers
  pub row_query : Result (Unit {0})
  pub camera : Option Row
  pub update : CodecInfo → Result (Unit {0})
  pub get_stream : String → Result (Option ServerStream)
  pub find_publisher : String → Result (Option String)
  pub kick : String → Result (Unit {0})
  pub audit : Result (Unit {0})
  pub probe_camera : String → Result ProbeResult
  pub slice_4 : String → String

-- What a job does: updates, each with its broadcast; kicks; audit entries.
pub data Effect : Type 0 where
  wrote : CodecInfo → Option ProbeResult → Effect
  kicked : String → Effect
  audited : (prefix video audio : String) → Effect

-- Effects, and the exception that ends them.
abbrev pub Trace : Type 0
Trace = List Effect × Result (Unit {0})

abbrev pub then_ : Trace → Trace → Trace
then_ (es, err e) next = (es, err e)
then_ (es, ok _) next = (es ++ next.0, next.1)

abbrev pub source_or_default : Option String → String
source_or_default none = "ffprobe"
source_or_default (some s) = s

abbrev pub blank_info : CodecStatus → ℕ → String → CodecInfo
blank_info status now source = record {
  status = status;
  video = none;
  audio = none;
  error = none;
  mismatch_codec = none;
  probed_at = now;
  source = source;
}

unfoldable pub write_codec_info : World → CodecInfo → Option ProbeResult → Trace
write_codec_info w info extra = elim (w.update info) [
  | err e ↦ ([], err e)
  | ok _ ↦ (wrote info extra ∷ [], ok tt)
]

abbrev pub is_push : Option Row → Bool
is_push none = false
is_push (some c) = c.ingest_mode == "push"

abbrev pub is_push_passthrough : Option Row → Bool
is_push_passthrough none = false
is_push_passthrough (some c) = c.ingest_mode == "push" && not c.needs_transcode

abbrev pub key_of : Option Row → Option String
key_of none = none
key_of (some c) = c.stream_key

abbrev pub text_or_empty : Option String → String
text_or_empty none = ""
text_or_empty (some t) = t

abbrev pub push_name : Option String → String
push_name key = String.◌++◌ "push/" (text_or_empty key)

abbrev pub or_else :
    Option ServerStream → Result (Option ServerStream) → Result (Option ServerStream)
or_else (some s) other = ok (some s)
or_else none other = other

-- The source stream of a push camera, else the live one.
unfoldable pub find_stream : World → Job → Result (Option ServerStream)
find_stream w job =
    w.row_query
    >> ((if is_push w.camera && truthy (key_of w.camera)
          then w.get_stream (push_name (key_of w.camera))
          else ok none)
        >>= λ s. or_else s (w.get_stream (String.◌++◌ job.org_id (String.◌++◌ "/" job.camera_id))))

abbrev pub video_codec : ServerStream → String
video_codec s = elim s.video [ none ↦ "" | some v ↦ v.codec ]

abbrev pub audio_codec : ServerStream → String
audio_codec s = elim s.audio [ none ↦ "" | some a ↦ a.codec ]

-- `/^(h\.?264|avc(?:1)?)$/i`
unfoldable pub video_ok : String → Bool
video_ok c = is_word "h264" c || (is_word "h.264" c || (is_word "avc" c || is_word "avc1" c))

unfoldable pub audio_ok : String → Bool
audio_ok c = is_word "aac" c

unfoldable pub is_mismatch : Option Row → ServerStream → Bool
unfolding video_ok audio_ok
is_mismatch camera s =
    is_push_passthrough camera
    && ((not (video_codec s == "") || not (audio_codec s == ""))
        && (not (video_ok (video_codec s)) || not (audio_ok (audio_codec s))))

abbrev pub mismatch_info : ℕ → ServerStream → CodecInfo
mismatch_info now s = record {
  status = mismatch;
  video = s.video;
  audio = s.audio;
  error = none;
  mismatch_codec = some (if not (video_ok (video_codec s)) then video_codec s else audio_codec s);
  probed_at = now;
  source = "srs-api";
}

-- The kick, whose errors are only logged.
unfoldable pub kick_effects : World → List Effect
kick_effects w =
    if truthy (key_of w.camera)
    then (elim (w.find_publisher (push_name (key_of w.camera))) [
      | err e ↦ []
      | ok none ↦ []
      | ok (some client) ↦
          if client == ""
          then []
          else (elim (w.kick client) [ err e ↦ [] | ok _ ↦ kicked client ∷ [] ])
    ])
    else []

-- The audit entry, with the first four letters of the key; its errors are only logged.
unfoldable pub audit_effects : World → ServerStream → List Effect
audit_effects w s =
    if truthy (key_of w.camera)
    then (elim w.audit [
      | err e ↦ []
      | ok _ ↦
          audited (w.slice_4 (text_or_empty (key_of w.camera))) (video_codec s) (audio_codec s) ∷ []
    ])
    else []

abbrev pub success_info : ℕ → ServerStream → CodecInfo
success_info now s = record (blank_info success now "srs-api") { video = s.video; audio = s.audio }

unfoldable pub judge : World → ServerStream → Trace
unfolding is_mismatch write_codec_info kick_effects audit_effects
judge w s =
    if is_mismatch w.camera s
    then then_ (write_codec_info w (mismatch_info w.now s) none)
        (kick_effects w ++ audit_effects w s, ok tt)
    else write_codec_info w (success_info w.now s) none

abbrev pub judge_found : World → Option ServerStream → Trace
judge_found w none = ([], err (failure "Stream not found"))
judge_found w (some s) = judge w s

unfoldable pub probe_server : World → Job → Trace
unfolding find_stream judge
probe_server w job = elim (find_stream w job) [ err e ↦ ([], err e) | ok s ↦ judge_found w s ]

abbrev pub probed_info : ℕ → ProbeResult → CodecInfo
probed_info now r = record (blank_info success now "ffprobe") {
  video = some (record {
    codec = r.codec;
    width = r.width;
    height = r.height;
    fps = some r.fps;
    profile = none;
    level = none;
  });
  audio =
      if not (r.audio_codec == "") && not (r.audio_codec == "none")
      then some (record { codec = r.audio_codec; sample_rate = none; channels = none })
      else none;
}

unfoldable pub probe_feed : World → Job → Trace
unfolding write_codec_info
probe_feed w job = elim (w.probe_camera job.stream_url) [
  | err e ↦ ([], err e)
  | ok r ↦ write_codec_info w (probed_info w.now r) (some r)
]

abbrev pub failed_info : ℕ → String → Error → CodecInfo
failed_info now source e = record (blank_info failed now source) {
  error = some (normalize_error (message_of e));
}

-- The catch block; an error of its update is only logged.
unfoldable pub record_failure : World → Job → Trace → Trace
unfolding write_codec_info
record_failure w job (es, ok _) = (es, ok tt)
record_failure w job (es, err e) =
    (es ++ (write_codec_info w (failed_info w.now (source_or_default job.source) e) none).0, ok tt)

unfoldable pub process : World → Job → Trace
unfolding write_codec_info probe_server probe_feed record_failure
process w job =
    if job.camera_id == "" || job.stream_url == ""
    then ([], ok tt)
    else (then_ (write_codec_info w (blank_info pending w.now (source_or_default job.source)) none)
        (record_failure w job (
          if source_or_default job.source == "srs-api"
          then probe_server w job
          else probe_feed w job)))
