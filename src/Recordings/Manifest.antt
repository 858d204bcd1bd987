-- ===== src/Recordings/Manifest.antt =====
-- apps/api/src/recordings/manifest.service.ts: the playlist of a recording and the timeline of its
-- segments. Times are in milliseconds, durations in microseconds; the texts of a number and of a
-- duration (`toFixed(6)`) are parameters.
pub mod Playlist
pub mod Timeline
use sms_app.Base.{
  ℕ, zero, suc, ◌+◌, ◌-◌, ◌*◌, ◌/◌, ◌≤◌, max, String, Bool, true, false, not, ◌&&◌, ◌||◌, Option,
  none, some, List, [], ◌∷◌, ◌++◌, map, if◌then◌else◌, ◌==◌, string_eq, nat_eq, ltb, leb, any, find,
  keep, drop_until, sort_by, Result, ok, err, not_found, found, ◌>>=◌,
}
use sms_app.Recordings.Service.{Store, Recording, Segment}
use Prim.Native.String

abbrev after_start : Option ℕ → ℕ → Bool
after_start none t = true
after_start (some start) t = leb start t

abbrev before_end : Option ℕ → ℕ → Bool
before_end none t = true
before_end (some stop) t = leb t stop

-- The `where` clause of the segments.
abbrev pub is_listed : String → String → Option ℕ → Option ℕ → Segment → Bool
is_listed recording org start stop g =
    g.recording_id == recording
    && (g.org_id == org && (after_start start g.timestamp && before_end stop g.timestamp))

abbrev pub by_seq_no : Segment → Segment → Bool
by_seq_no a b = ltb a.seq_no b.seq_no

-- `hasKeyframe !== false`
abbrev pub is_playable : Segment → Bool
is_playable g = elim g.has_keyframe [ none ↦ true | some b ↦ b ]

unfoldable pub playable_segments :
    String → String → Option ℕ → Option ℕ → List Segment → List Segment
playable_segments recording org start stop segments =
    drop_until is_playable (sort_by by_seq_no (keep (is_listed recording org start stop) segments))

pub record Entry : Type 0 where
  pub duration : ℕ
  pub url : String

abbrev pub entry_of : Segment → Entry
entry_of g = record {
  duration = g.duration;
  url = String.◌++◌ "/api/recordings/segments/" (String.◌++◌ g.id "/proxy");
}

abbrev pub longest : List Entry → ℕ
longest [] = 0
longest (e ∷ es) = max e.duration (longest es)

-- `Math.ceil(Math.max(...))`, in seconds
unfoldable pub target_duration : List Entry → ℕ
target_duration es = (longest es + 999999) / 1000000

abbrev pub lines : List String → String
lines [] = ""
lines (l ∷ ls) = String.◌++◌ l (String.◌++◌ "\n" (lines ls))

abbrev empty_manifest_lines : List String
empty_manifest_lines =
    "#EXTM3U" ∷ "#EXT-X-VERSION:3" ∷ "#EXT-X-TARGETDURATION:3" ∷ "#EXT-X-MEDIA-SEQUENCE:0"
    ∷ "#EXT-X-PLAYLIST-TYPE:VOD" ∷ "#EXT-X-ENDLIST" ∷ []

unfoldable pub build_empty_manifest : String
build_empty_manifest = lines empty_manifest_lines

module _ (show : ℕ → String) (to_fixed_6 : ℕ → String) where
  abbrev pub entry_lines : List Entry → List String
  entry_lines [] = "#EXT-X-ENDLIST" ∷ []
  entry_lines (e ∷ es) =
      String.◌++◌ "#EXTINF:" (String.◌++◌ (to_fixed_6 e.duration) ",") ∷ e.url ∷ entry_lines es

  unfoldable pub build_manifest : List Entry → String
  unfolding target_duration
  build_manifest es = lines (
      "#EXTM3U"
      ∷ "#EXT-X-VERSION:3"
      ∷ String.◌++◌ "#EXT-X-TARGETDURATION:" (show (target_duration es))
      ∷ "#EXT-X-MEDIA-SEQUENCE:0"
      ∷ "#EXT-X-PLAYLIST-TYPE:VOD"
      ∷ entry_lines es)

  abbrev manifest_of : List Segment → String
  manifest_of [] = build_empty_manifest
  manifest_of (g ∷ gs) = build_manifest (map entry_of (g ∷ gs))

  unfoldable pub generate_manifest : String → String → Option ℕ → Option ℕ → Store → Result String
  unfolding playable_segments
  generate_manifest recording org start stop s =
      found (find (λ r. r.id == recording && r.org_id == org) s.recordings)
        (not_found "Recording not found")
      >>= λ r. ok (manifest_of (playable_segments recording org start stop s.segments))

abbrev hour_ms : ℕ
hour_ms = 60 * 60 * 1000

abbrev pub in_window : String → String → ℕ → ℕ → Segment → Bool
in_window camera org start stop g =
    g.camera_id == camera && (g.org_id == org && (leb start g.timestamp && leb g.timestamp stop))

-- `hours[hour].hasData = true`; an hour past the last one is left out.
abbrev set_flag : ℕ → List Bool → List Bool
set_flag i [] = []
set_flag zero (b ∷ bs) = true ∷ bs
set_flag (suc i) (b ∷ bs) = b ∷ set_flag i bs

abbrev no_data : ℕ → List Bool
no_data zero = []
no_data (suc n) = false ∷ no_data n

-- The segments are not before `start`, so that the difference is not negative.
abbrev pub hour_of : ℕ → Segment → ℕ
hour_of start g = (g.timestamp - start) / hour_ms

abbrev flag_hours : ℕ → List Segment → List Bool → List Bool
flag_hours start [] hours = hours
flag_hours start (g ∷ gs) hours = flag_hours start gs (set_flag (hour_of start g) hours)

-- Whether each of the 24 hours from `start` on has data.
unfoldable pub get_segments_for_date : String → String → ℕ → ℕ → List Segment → List Bool
get_segments_for_date camera org start stop segments =
    flag_hours start (keep (in_window camera org start stop) segments) (no_data 24)

abbrev day_ms : ℕ
day_ms = 24 * 60 * 60 * 1000

abbrev day_of : ℕ → Segment → ℕ
day_of start g = (g.timestamp - start) / day_ms + 1

abbrev add_day : ℕ → List ℕ → List ℕ
add_day d days = if leb 1 d && leb d 31 && not (any (λ e. e == d) days) then d ∷ days else days

abbrev days_of : ℕ → List Segment → List ℕ
days_of start [] = []
days_of start (g ∷ gs) = add_day (day_of start g) (days_of start gs)

unfoldable pub get_days_with_recordings : String → String → ℕ → ℕ → List Segment → List ℕ
get_days_with_recordings camera org start stop segments =
    sort_by ltb (days_of start (keep (in_window camera org start stop) segments))
