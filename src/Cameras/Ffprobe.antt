-- ===== src/Cameras/Ffprobe.antt =====
-- apps/api/src/cameras/ffprobe.service.ts: what the service reads from the output of ffprobe. The path of
-- an address (`new URL`) and `Number` are parameters, `none` where they throw or give no number; the
-- frame rates of ffprobe are fractions of natural numbers, which are compared exactly.
use Prim.Native.String
use text.Mathlib.Text.{starts_with}
use sms_app.Base.{
  ℕ, ◌+◌, ◌-◌, ◌*◌, ◌/◌, String, Bool, false, not, ◌&&◌, ◌||◌, Option, none, some, List, [], ◌∷◌,
  ◌++◌, ◌==◌, string_eq, nat_eq, if◌then◌else◌, ltb, leb, contains, find, mentions_some,
  test_pieces, word, digits, is_word, Result, ok, failure, found, ◌>>=◌,
}
use sms_app.Playback.Keys.{split_path}

pub record ProbeResult : Type 0 where
  pub codec : String
  pub width : ℕ
  pub height : ℕ
  pub fps : ℕ
  pub audio_codec : String
  pub needs_transcode : Bool
  pub stream_warnings : List String
  pub brand_hint : String
  pub brand_confidence : String
  pub brand_evidence : List String
  pub recommend_transcode : Bool

-- A stream of the output, with the fields that the service reads.
pub record ProbedStream : Type 0 where
  pub codec_type : String
  pub codec_name : String
  pub width : Option ℕ
  pub height : Option ℕ
  pub r_frame_rate : Option String
  pub avg_frame_rate : Option String
  pub profile : Option String
  pub level : Option ℕ
  pub pix_fmt : Option String

abbrev pub text_or : String → Option String → String
text_or default none = default
text_or default (some t) = t

abbrev pub truthy_or : String → Option String → String
truthy_or default t = if text_or "" t == "" then default else text_or "" t

abbrev pub number_or_zero : Option ℕ → ℕ
number_or_zero none = 0
number_or_zero (some n) = n

-- A fraction with a positive denominator.
abbrev pub fraction : Option ℕ → Option ℕ → ℕ × ℕ
fraction none d = (0, 1)
fraction (some n) none = (n, 1)
fraction (some n) (some d) = if d == 0 then (n, 1) else (n, d)

abbrev pub fraction_parts : (String → Option ℕ) → List String → ℕ × ℕ
fraction_parts number [] = (0, 1)
fraction_parts number (n ∷ []) = fraction (number n) none
fraction_parts number (n ∷ d ∷ rest) = fraction (number n) (number d)

unfoldable pub parse_fraction : (String → Option ℕ) → Option String → ℕ × ℕ
unfolding split_path
parse_fraction number none = (0, 1)
parse_fraction number (some s) = if s == "" then (0, 1) else fraction_parts number (split_path s)

abbrev pub distance : ℕ → ℕ → ℕ
distance a b = (a - b) + (b - a)

-- Both rates are positive and differ by more than a twentieth of the first.
abbrev pub is_variable : ℕ × ℕ → ℕ × ℕ → Bool
is_variable (n, d) (m, e) = ltb 0 n && (ltb 0 m && ltb (n * e) (20 * distance (n * e) (m * d)))

abbrev pub at_least : ℕ → Option ℕ → Bool
at_least bound none = false
at_least bound (some n) = leb bound n

abbrev pub when_warned : Bool → String → List String
when_warned b warning = if b then warning ∷ [] else []

unfoldable pub detect_stream_warnings : (String → Option ℕ) → ProbedStream → List String
unfolding parse_fraction
detect_stream_warnings number v =
    when_warned
      (is_variable (parse_fraction number v.r_frame_rate) (parse_fraction number v.avg_frame_rate))
      "vfr-detected"
    ++ (when_warned
          (mentions_some ("High 4:4:4 Predictive" ∷ []) (text_or "" v.profile)
            || at_least 51 v.level)
          "high-profile"
        ++ when_warned (text_or "" v.pix_fmt == "yuvj420p") "full-range-pixel-format")

pub record Brand : Type 0 where
  pub hint : String
  pub confidence : String
  pub evidence : List String

abbrev pub unknown_brand : Brand
unknown_brand = record { hint = "unknown"; confidence = "low"; evidence = [] }

abbrev pub by_path : String → String → String → Brand
by_path hint confidence path = record {
  hint = hint;
  confidence = confidence;
  evidence = String.◌++◌ "url-path:" path ∷ [];
}

unfoldable pub url_brand : String → Brand
url_brand path =
    if test_pieces (word "/media/video" ++ (digits ∷ [])) path
    then by_path "uniview" "high" path
    else if test_pieces (word "/Streaming/Channels/") path
    then by_path "hikvision" "high" path
    else if test_pieces (word "/cam/realmonitor") path
    then by_path "dahua" "high" path
    else if test_pieces (word "/h264/ch" ++ (digits ∷ word "/main/av_stream")) path
    then by_path "dahua" "high" path
    else if test_pieces (word "/axis-media/media.amp") path
    then by_path "axis" "high" path
    else if test_pieces (word "/profile" ++ (digits ∷ [])) path
    then by_path "generic-onvif" "medium" path
    else unknown_brand

abbrev pub by_encoder : String → String → List String → String → Brand
by_encoder hint confidence more tag = record {
  hint = hint;
  confidence = confidence;
  evidence = String.◌++◌ "tags.encoder:" tag ∷ more;
}

unfoldable pub encoder_brand : Option String → Brand
encoder_brand none = unknown_brand
encoder_brand (some tag) =
    if tag == "" || mentions_some ("Lavc" ∷ "libavcodec" ∷ []) tag
    then unknown_brand
    else if mentions_some ("Hisilicon" ∷ []) tag
    then by_encoder "uniview" "medium" ("shared-soc:uniview/hikvision/dahua" ∷ []) tag
    else if mentions_some ("Ambarella" ∷ []) tag
    then by_encoder "axis" "low" [] tag
    else unknown_brand

abbrev pub is_known : Brand → Bool
is_known b = not (b.hint == "unknown")

unfoldable pub resolve_brand : Brand → Brand → Brand
resolve_brand url encoder =
    if is_known url && (is_known encoder && url.hint == encoder.hint)
    then record {
      hint = url.hint;
      confidence = "high";
      evidence = url.evidence ++ encoder.evidence;
    }
    else if is_known url
    then record url { evidence = url.evidence ++ encoder.evidence }
    else if is_known encoder
    then record encoder { evidence = url.evidence ++ encoder.evidence }
    else unknown_brand

unfoldable pub detect_brand : (String → Option String) → String → Option String → Brand
unfolding url_brand encoder_brand resolve_brand
detect_brand path_of url encoder =
    resolve_brand (url_brand (text_or url (path_of url))) (encoder_brand encoder)

abbrev pub is_risk_tier : Brand → Bool
is_risk_tier b =
    contains ("uniview" ∷ "hikvision" ∷ "dahua" ∷ []) b.hint
    && (b.confidence == "medium" || b.confidence == "high")

-- `Math.round(num / (den || 1))`
abbrev pub rounded : ℕ × ℕ → ℕ
rounded (n, d) = (2 * n + d) / (2 * d)

abbrev pub is_hevc : String → Bool
is_hevc codec = is_word "hevc" codec || is_word "h265" codec

abbrev pub audio_name : Option ProbedStream → String
audio_name none = "none"
audio_name (some a) = truthy_or "none" (some a.codec_name)

unfoldable pub probe_result :
    (path_of : String → Option String) (number : String → Option ℕ) (url : String)
    (encoder : Option String)
    → ProbedStream
    → Option ProbedStream
    → ProbeResult
unfolding detect_stream_warnings detect_brand
probe_result path_of number url encoder v audio =
    let warnings = detect_stream_warnings number v in
    let brand = detect_brand path_of url encoder in
    record {
      codec = v.codec_name;
      width = number_or_zero v.width;
      height = number_or_zero v.height;
      fps = rounded (parse_fraction number (some (truthy_or "30/1" v.r_frame_rate)));
      audio_codec = audio_name audio;
      needs_transcode = is_hevc v.codec_name;
      stream_warnings = warnings;
      brand_hint = brand.hint;
      brand_confidence = brand.confidence;
      brand_evidence = brand.evidence;
      recommend_transcode =
          is_hevc v.codec_name || (is_risk_tier brand || contains warnings "vfr-detected");
    }

-- `probeCamera`, from the streams and the encoder tag that ffprobe prints.
unfoldable pub probe_camera :
    (path_of : String → Option String) (number : String → Option ℕ) (url : String)
    (encoder : Option String)
    → List ProbedStream
    → Result ProbeResult
unfolding probe_result
probe_camera path_of number url encoder streams =
    found (find (λ s. s.codec_type == "video") streams)
      (failure "No video stream found in camera feed")
    >>= λ v.
        ok (probe_result path_of number url encoder v (find (λ s. s.codec_type == "audio") streams))

-- The flags for the input: only RTSP takes one.
unfoldable pub input_flags_for : String → String
input_flags_for url = if starts_with url "rtsp://" then "-rtsp_transport tcp " else ""
