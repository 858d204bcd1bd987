-- ===== src/Streams/Command/Examples.antt =====
-- The theorem at a profile that copies both streams.
use sms_app.Base.{none, [], ◌∷◌, true, false, ◌≡◌, refl}
use sms_app.Camera.{Profile}
use sms_app.Streams.Command.{
  build_ffmpeg_command, output, output_format, input_options, video_codec, output_options,
  audio_codec, flag,
}
use sms_app.Streams.Command.Codecs.{
  video_codecs, audio_codecs, transcoded_audio, transcode_never_copies,
}

abbrev passthrough : Profile
passthrough = record {
  codec = "copy";
  preset = none;
  resolution = none;
  fps = none;
  video_bitrate = none;
  audio_codec = "copy";
  audio_bitrate = none;
}

transcode_never_copies_example :
    (video_codecs (build_ffmpeg_command "rtsp://h/s" "rtmp://m/live" passthrough true)
      ≡ "libx264" ∷ [])
    × (audio_codecs (build_ffmpeg_command "rtsp://h/s" "rtmp://m/live" passthrough true)
        ≡ transcoded_audio "copy" ∷ [])
transcode_never_copies_example = transcode_never_copies "rtsp://h/s" "rtmp://m/live" passthrough

copied :
    build_ffmpeg_command "rtsp://h/s" "rtmp://m/live" passthrough false
    ≡ output "rtmp://m/live"
      ∷ output_format "flv"
      ∷ input_options (flag "-rtsp_transport" ∷ flag "tcp" ∷ [])
      ∷ video_codec "copy"
      ∷ output_options (flag "-bsf:v" ∷ flag "h264_metadata=video_full_range_flag=0" ∷ [])
      ∷ audio_codec "copy"
      ∷ []
unfolding build_ffmpeg_command
copied = refl
