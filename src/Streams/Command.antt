-- ===== src/Streams/Command.antt =====
-- apps/api/src/streams/ffmpeg/ffmpeg-command.builder.ts: the command of a stream, as the calls of the
-- FFmpeg library in their order.
pub mod Codecs
mod Examples
use text.Mathlib.Text.{starts_with}
use sms_app.Base.{
  ℕ, ◌*◌, String, Bool, true, false, not, ◌&&◌, ◌||◌, Option, none, some, List, [], ◌∷◌, ◌++◌, ◌==◌,
  string_eq, nat_eq, if◌then◌else◌,
}
use sms_app.Camera.{Profile, truthy}

-- An argument: a text, or a number that is printed.
pub data Argument : Type 0 where
  flag : String → Argument
  amount : ℕ → Argument

pub data Setting : Type 0 where
  output : String → Setting
  output_format : String → Setting
  input_options : List Argument → Setting
  video_codec : String → Setting
  output_options : List Argument → Setting
  video_bitrate : String → Setting
  size : String → Setting
  frame_rate : ℕ → Setting
  no_audio : Setting
  audio_codec : String → Setting
  audio_bitrate : String → Setting

unfoldable pub should_add_rtsp_transport : String → Bool
should_add_rtsp_transport url = starts_with url "rtsp://"

abbrev pub option_of : Option String → (String → Setting) → List Setting
option_of none make = []
option_of (some t) make = if t == "" then [] else make t ∷ []

abbrev pub frame_rate_of : Option ℕ → List Setting
frame_rate_of none = []
frame_rate_of (some n) = if n == 0 then [] else frame_rate n ∷ []

abbrev pub truthy_text : String → Option String → String
truthy_text default none = default
truthy_text default (some t) = if t == "" then default else t

abbrev pub truthy_number : ℕ → Option ℕ → ℕ
truthy_number default none = default
truthy_number default (some n) = if n == 0 then default else n

unfoldable pub use_copy : Profile → Bool → Bool
use_copy p needs_transcode = not needs_transcode && (p.codec == "copy" || p.codec == "auto")

abbrev pub transcode_options : Profile → List Setting
transcode_options p =
    video_codec "libx264"
    ∷ output_options (flag "-pix_fmt" ∷ flag "yuv420p" ∷ [])
    ∷ output_options (flag "-preset" ∷ flag (truthy_text "veryfast" p.preset) ∷ [])
    ∷ output_options (flag "-g" ∷ amount (truthy_number 15 p.fps * 2) ∷ [])
    ∷ output_options (flag "-tune" ∷ flag "zerolatency" ∷ [])
    ∷ (option_of p.video_bitrate video_bitrate
        ++ (option_of p.resolution size ++ frame_rate_of p.fps))

abbrev pub copy_options : List Setting
copy_options =
    video_codec "copy"
    ∷ output_options (flag "-bsf:v" ∷ flag "h264_metadata=video_full_range_flag=0" ∷ [])
    ∷ []

-- The audio codec: AAC in place of a copy where the stream is transcoded.
unfoldable pub chosen_audio : Profile → Bool → String
chosen_audio p needs_transcode =
    let wanted = truthy_text "aac" (some p.audio_codec) in
    if needs_transcode && wanted == "copy" then "aac" else wanted

abbrev pub audio_options : Profile → String → List Setting
audio_options p codec =
    if codec == "mute"
    then no_audio ∷ []
    else audio_codec codec
      ∷ (if codec == "aac"
          then output_options (flag "-ar" ∷ flag "44100" ∷ flag "-ac" ∷ flag "2" ∷ [])
            ∷ audio_bitrate (truthy_text "128k" p.audio_bitrate)
            ∷ []
          else option_of p.audio_bitrate audio_bitrate)

unfoldable pub build_ffmpeg_command : (input output_url : String) → Profile → Bool → List Setting
unfolding should_add_rtsp_transport use_copy chosen_audio
build_ffmpeg_command input output_url p needs_transcode =
    output output_url
    ∷ output_format "flv"
    ∷ ((if should_add_rtsp_transport input
          then input_options (flag "-rtsp_transport" ∷ flag "tcp" ∷ []) ∷ []
          else [])
        ++ ((if use_copy p needs_transcode then copy_options else transcode_options p)
            ++ audio_options p (chosen_audio p needs_transcode)))
