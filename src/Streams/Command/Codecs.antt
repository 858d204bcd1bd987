-- ===== src/Streams/Command/Codecs.antt =====
-- The codecs of the command.
use sms_app.Base.{
  String, Bool, true, false, ◌||◌, Option, none, some, List, [], ◌∷◌, ◌++◌, ◌≡◌, refl, ap, arith,
  ◌==◌, string_eq, nat_eq, if◌then◌else◌, eq_iff, inl, inr, Bool-cases, subst, sym,
}
use sms_app.Camera.{Profile}
use sms_app.Streams.Command.{
  Setting, Argument, flag, output, output_format, input_options, video_codec, output_options,
  video_bitrate, size, frame_rate, no_audio, audio_codec, audio_bitrate, build_ffmpeg_command,
  use_copy, chosen_audio, transcode_options, audio_options, should_add_rtsp_transport, truthy_text,
}

abbrev pub video_codecs : List Setting → List String
video_codecs [] = []
video_codecs (video_codec c ∷ os) = c ∷ video_codecs os
video_codecs (output u ∷ os) = video_codecs os
video_codecs (output_format f ∷ os) = video_codecs os
video_codecs (input_options l ∷ os) = video_codecs os
video_codecs (output_options l ∷ os) = video_codecs os
video_codecs (video_bitrate b ∷ os) = video_codecs os
video_codecs (size s ∷ os) = video_codecs os
video_codecs (frame_rate n ∷ os) = video_codecs os
video_codecs (no_audio ∷ os) = video_codecs os
video_codecs (audio_codec c ∷ os) = video_codecs os
video_codecs (audio_bitrate b ∷ os) = video_codecs os

-- `none` for a command without audio.
abbrev pub audio_codecs : List Setting → List (Option String)
audio_codecs [] = []
audio_codecs (audio_codec c ∷ os) = some c ∷ audio_codecs os
audio_codecs (no_audio ∷ os) = none ∷ audio_codecs os
audio_codecs (video_codec c ∷ os) = audio_codecs os
audio_codecs (output u ∷ os) = audio_codecs os
audio_codecs (output_format f ∷ os) = audio_codecs os
audio_codecs (input_options l ∷ os) = audio_codecs os
audio_codecs (output_options l ∷ os) = audio_codecs os
audio_codecs (video_bitrate b ∷ os) = audio_codecs os
audio_codecs (size s ∷ os) = audio_codecs os
audio_codecs (frame_rate n ∷ os) = audio_codecs os
audio_codecs (audio_bitrate b ∷ os) = audio_codecs os

-- The audio of a stream that is transcoded.
abbrev pub transcoded_audio : String → Option String
transcoded_audio wanted =
    if wanted == "mute"
    then none
    else if wanted == "" || wanted == "copy"
    then some "aac"
    else some wanted

video_codecs-append :
    (os ps : List Setting) → video_codecs (os ++ ps) ≡ video_codecs os ++ video_codecs ps
video_codecs-append [] ps = refl
video_codecs-append (video_codec c ∷ os) ps = ap (◌∷◌ c) (video_codecs-append os ps)
video_codecs-append (output u ∷ os) ps = video_codecs-append os ps
video_codecs-append (output_format f ∷ os) ps = video_codecs-append os ps
video_codecs-append (input_options l ∷ os) ps = video_codecs-append os ps
video_codecs-append (output_options l ∷ os) ps = video_codecs-append os ps
video_codecs-append (video_bitrate b ∷ os) ps = video_codecs-append os ps
video_codecs-append (size s ∷ os) ps = video_codecs-append os ps
video_codecs-append (frame_rate n ∷ os) ps = video_codecs-append os ps
video_codecs-append (no_audio ∷ os) ps = video_codecs-append os ps
video_codecs-append (audio_codec c ∷ os) ps = video_codecs-append os ps
video_codecs-append (audio_bitrate b ∷ os) ps = video_codecs-append os ps

audio_codecs-append :
    (os ps : List Setting) → audio_codecs (os ++ ps) ≡ audio_codecs os ++ audio_codecs ps
audio_codecs-append [] ps = refl
audio_codecs-append (audio_codec c ∷ os) ps = ap (◌∷◌ (some c)) (audio_codecs-append os ps)
audio_codecs-append (no_audio ∷ os) ps = ap (◌∷◌ none) (audio_codecs-append os ps)
audio_codecs-append (video_codec c ∷ os) ps = audio_codecs-append os ps
audio_codecs-append (output u ∷ os) ps = audio_codecs-append os ps
audio_codecs-append (output_format f ∷ os) ps = audio_codecs-append os ps
audio_codecs-append (input_options l ∷ os) ps = audio_codecs-append os ps
audio_codecs-append (output_options l ∷ os) ps = audio_codecs-append os ps
audio_codecs-append (video_bitrate b ∷ os) ps = audio_codecs-append os ps
audio_codecs-append (size s ∷ os) ps = audio_codecs-append os ps
audio_codecs-append (frame_rate n ∷ os) ps = audio_codecs-append os ps
audio_codecs-append (audio_bitrate b ∷ os) ps = audio_codecs-append os ps

transcode_options-codecs :
    (p : Profile)
    → (video_codecs (transcode_options p) ≡ "libx264" ∷ [])
      × (audio_codecs (transcode_options p) ≡ [])
transcode_options-codecs p = ground arith

audio_options-codecs :
    (p : Profile) (codec : String)
    → (video_codecs (audio_options p codec) ≡ [])
      × (audio_codecs (audio_options p codec) ≡ (if codec == "mute" then none else some codec) ∷ [])
audio_options-codecs p codec = ground arith

transport-codecs :
    (b : Bool) (l : List Argument)
    → (video_codecs (if b then input_options l ∷ [] else []) ≡ [])
      × (audio_codecs (if b then input_options l ∷ [] else []) ≡ [])
transport-codecs true l = (refl, refl)
transport-codecs false l = (refl, refl)

chosen_text : String → String
chosen_text a = if truthy_text "aac" (some a) == "copy" then "aac" else truthy_text "aac" (some a)

chosen_text-transcoded :
    (a : String)
    → (if chosen_text a == "mute" then none else some (chosen_text a)) ≡ transcoded_audio a
unfolding chosen_text
chosen_text-transcoded a = elim (Bool-cases (a == "")) [
  | inl h ↦
      subst
        (λ t. (if chosen_text t == "mute" then none else some (chosen_text t)) ≡ transcoded_audio t)
        (sym ((eq_iff a "").0 h)) refl
  | inr h ↦ elim (Bool-cases (a == "copy")) [
    | inl k ↦
        subst
          (λ t.
            (if chosen_text t == "mute" then none else some (chosen_text t)) ≡ transcoded_audio t)
          (sym ((eq_iff a "copy").0 k)) refl
    | inr k ↦ rw (h, k) refl
  ]
]

chosen_audio-transcoded :
    (p : Profile)
    → (if chosen_audio p true == "mute" then none else some (chosen_audio p true))
      ≡ transcoded_audio p.audio_codec
unfolding chosen_audio chosen_text
chosen_audio-transcoded p = chosen_text-transcoded p.audio_codec

-- The command of a camera that needs transcoding never copies: whatever the profile says, it sets one
-- video codec, libx264, and one audio setting, which is none for a muted profile, AAC where the profile
-- names no codec or a copy, and else the codec of the profile.
pub transcode_never_copies :
    (input url : String) (p : Profile)
    → (video_codecs (build_ffmpeg_command input url p true) ≡ "libx264" ∷ [])
      × (audio_codecs (build_ffmpeg_command input url p true) ≡ transcoded_audio p.audio_codec ∷ [])
unfolding build_ffmpeg_command use_copy
transcode_never_copies input url p =
    let transport : List Setting =
      if should_add_rtsp_transport input
      then input_options (flag "-rtsp_transport" ∷ flag "tcp" ∷ []) ∷ []
      else [] in
    let audio = audio_options p (chosen_audio p true) in
    let none_before =
      transport-codecs (should_add_rtsp_transport input)
        (flag "-rtsp_transport" ∷ flag "tcp" ∷ []) in
    let (video, sound) = transcode_options-codecs p in
    let (no_video, chosen) = audio_options-codecs p (chosen_audio p true) in
    (
      rw
          (
            video_codecs-append transport (transcode_options p ++ audio),
            none_before.0,
            video_codecs-append (transcode_options p) audio,
          )
          (cc (video, no_video)),
      rw
          (
            audio_codecs-append transport (transcode_options p ++ audio),
            none_before.1,
            audio_codecs-append (transcode_options p) audio,
          )
          (cc (sound, chosen, chosen_audio-transcoded p)),
    )
