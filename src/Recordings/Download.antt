-- ===== src/Recordings/Download.antt =====
-- apps/api/src/recordings/download-playlist.util.ts: the playlist of a download and the arguments of the
-- remux. Durations are in microseconds; the texts of a number and of a duration are parameters.
use sms_app.Base.{
  ℕ, ◌+◌, ◌*◌, ◌/◌, ◌≤◌, max, String, List, [], ◌∷◌, arith, drop_until, All, All-imp,
}
use sms_app.Recordings.Service.{Segment}
use sms_app.Recordings.Manifest.{Entry, is_playable, lines, entry_lines, longest}
use sms_app.Recordings.Manifest.Playlist.{longest_max}
use Prim.Native.String

unfoldable pub skip_leading_non_keyframe_segments : List Segment → List Segment
skip_leading_non_keyframe_segments segments = drop_until is_playable segments

unfoldable pub compute_target_duration : List Entry → ℕ
compute_target_duration [] = 1
compute_target_duration (e ∷ es) = max 1 ((longest (e ∷ es) + 999999) / 1000000)

module _ (show : ℕ → String) (to_fixed_6 : ℕ → String) where
  unfoldable pub build_download_playlist : List Entry → String
  build_download_playlist es = lines (
      "#EXTM3U"
      ∷ "#EXT-X-VERSION:3"
      ∷ String.◌++◌ "#EXT-X-TARGETDURATION:" (show (compute_target_duration es))
      ∷ "#EXT-X-MEDIA-SEQUENCE:0"
      ∷ "#EXT-X-PLAYLIST-TYPE:VOD"
      ∷ entry_lines show to_fixed_6 es)

unfoldable pub build_remux_args : String → String → List String
build_remux_args input output =
    "-y" ∷ "-protocol_whitelist" ∷ "file,http,https,tcp,tls,crypto" ∷ "-i" ∷ input ∷ "-c" ∷ "copy"
    ∷ "-bsf:a" ∷ "aac_adtstoasc" ∷ "-movflags" ∷ "frag_keyframe+empty_moov" ∷ "-f" ∷ "mp4" ∷ output
    ∷ []

-- The target duration of a download is at least one second, and at least the duration of each entry.
pub compute_target_duration_bounds :
    (es : List Entry)
    → (1 ≤ compute_target_duration es)
      × All (λ e. e.duration ≤ compute_target_duration es * 1000000) es
unfolding compute_target_duration
compute_target_duration_bounds [] = (omega arith, tt)
compute_target_duration_bounds (e ∷ es) = (
  omega arith,
  All-imp (λ d. d.duration ≤ longest (e ∷ es))
      (λ d. d.duration ≤ max 1 ((longest (e ∷ es) + 999999) / 1000000) * 1000000) (e ∷ es)
      (λ d h. omega arith) (longest_max (e ∷ es)),
)
