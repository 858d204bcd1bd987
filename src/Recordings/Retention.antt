-- ===== src/Recordings/Retention.antt =====
-- apps/api/src/recordings/retention.processor.ts: the deletion of the segments that are older than the
-- retention of their camera. `cutoff` is the clock less a number of days, which is the host's calendar.
pub mod Expiry
mod Examples
use sms_app.Base.{
  ℕ, ◌+◌, String, Bool, true, false, not, ◌&&◌, Option, none, some, List, [], ◌∷◌, map,
  if◌then◌else◌, ◌==◌, string_eq, nat_eq, ltb, find, keep, length, contains, replace_first,
  remove_first,
}
use sms_app.Recordings.Service.{Store, Recording, Segment, is_recording_of, sum_sizes}

-- `findMany({ distinct })`: each value once.
abbrev pub distinct : List String → List String
distinct [] = []
distinct (x ∷ xs) = let rest = distinct xs in if contains rest x then rest else x ∷ rest

-- What a clean-up reads besides the tables: the retention of the organization and of the cameras, the
-- cut-off for a number of days, and whether the object store removes the objects of a camera.
pub record Retention : Type 0 where
  pub default_days : Option ℕ
  pub camera_days : String → Option ℕ
  pub cutoff : ℕ → ℕ
  pub removes : String → Bool

abbrev days_or : Option ℕ → ℕ → ℕ
days_or none days = days
days_or (some n) days = n

-- `camera?.retentionDays ?? orgSettings?.defaultRetentionDays ?? 30`
abbrev pub cutoff_of : Retention → String → ℕ
cutoff_of r camera = r.cutoff (days_or (r.camera_days camera) (days_or r.default_days 30))

abbrev pub is_expired : Retention → String → String → Segment → Bool
is_expired r org camera g =
    g.org_id == org && (g.camera_id == camera && ltb g.timestamp (cutoff_of r camera))

abbrev segments_of : String → List Segment → List Segment
segments_of id segments = keep (λ g. g.recording_id == id) segments

abbrev set_size : ℕ → Recording → Recording
set_size size r = record r { total_size = size }

-- The recordings that lost segments: removed where none is left, else with the size of what is left.
unfoldable pub update_recordings : List String → List Segment → List Recording → List Recording
update_recordings [] segments recordings = recordings
update_recordings (id ∷ ids) segments recordings = update_recordings ids segments (
    if length (segments_of id segments) == 0
    then remove_first (is_recording_of id) recordings
    else replace_first (is_recording_of id) (set_size (sum_sizes (segments_of id segments)))
        recordings)

-- One camera: nothing where no segment is expired or the object store refuses.
unfoldable pub cleanup_camera : Retention → String → String → Store → Store
unfolding update_recordings
cleanup_camera r org camera s =
    let expired = keep (is_expired r org camera) s.segments in
    let left = keep (λ g. not (contains (map (λ e. e.id) expired) g.id)) s.segments in
    if length expired == 0 then s else if not (r.removes camera) then s else record s {
      segments = left;
      recordings =
          update_recordings (distinct (map (λ e. e.recording_id) expired)) left s.recordings;
    }

unfoldable pub cleanup_cameras : Retention → String → List String → Store → Store
unfolding cleanup_camera
cleanup_cameras r org [] s = s
cleanup_cameras r org (c ∷ cs) s = cleanup_cameras r org cs (cleanup_camera r org c s)

unfoldable pub cleanup_org : Retention → String → Store → Store
unfolding cleanup_cameras
cleanup_org r org s =
    cleanup_cameras r org
      (distinct (map (λ g. g.camera_id) (keep (λ g. g.org_id == org) s.segments))) s

-- One run over the organizations that have recordings.
unfoldable pub cleanup_orgs : (String → Retention) → List String → Store → Store
unfolding cleanup_org
cleanup_orgs retention [] s = s
cleanup_orgs retention (o ∷ os) s = cleanup_orgs retention os (cleanup_org (retention o) o s)

unfoldable pub process : (String → Retention) → Store → Store
unfolding cleanup_orgs
process retention s = cleanup_orgs retention (distinct (map (λ r. r.org_id) s.recordings)) s
