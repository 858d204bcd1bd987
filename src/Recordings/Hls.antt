-- ===== src/Recordings/Hls.antt =====
-- The segment hook (`onHls`) of apps/api/src/srs/srs-callback.controller.ts and
-- apps/api/src/recordings/archive-metrics.service.ts, over the tables of the recordings. Resolving the
-- paths of the body is the host's text replacement: the body holds the result.
pub mod Steps
mod Examples
use sms_app.Base.{
  ℕ, suc, ◌+◌, ◌*◌, String, Bool, true, false, not, ◌&&◌, ◌||◌, Option, none, some, List, [], ◌∷◌,
  if◌then◌else◌, ◌==◌, nat_eq, string_eq, ltb, Result, ok, err, Error,
}
use sms_app.Playback.Callbacks.{Parsed, push, live}
use sms_app.Recordings.Service.{
  Store, Recording, Archive, get_active_recording, check_storage_quota, archive_segment,
}

-- archive-metrics.service.ts
pub record ArchiveMetrics : Type 0 where
  pub successes : ℕ
  pub failures : ℕ
  pub last_failure : Option (ℕ × Error)
  pub last_success_at : Option ℕ

unfoldable pub record_success : ℕ → ArchiveMetrics → ArchiveMetrics
record_success now m = record m { successes = m.successes + 1; last_success_at = some now }

unfoldable pub record_failure : ℕ → Error → ArchiveMetrics → ArchiveMetrics
record_failure now e m = record m { failures = m.failures + 1; last_failure = some (now, e) }

pub data ArchiveStatus : Type 0 where
  idle healthy degraded failing : ArchiveStatus

-- `failures / total < 0.1`, in whole numbers
unfoldable pub archive_status : ArchiveMetrics → ArchiveStatus
archive_status m =
    let total = m.successes + m.failures in
    if total == 0
    then idle
    else if m.failures == 0
    then healthy
    else if ltb (m.failures * 10) total
    then degraded
    else failing

-- A body that passes the schema. The files are as the container of the API sees them.
pub record HlsBody : Type 0 where
  pub stream : Parsed
  pub segment_file : String
  pub m3u8_file : String
  pub duration : ℕ
  pub seq_no : ℕ

-- What the hook asks besides the tables.
pub record HlsWorld : Type 0 where
  pub now : ℕ
  pub has_snapshot : String → Bool
  pub limit_gb : String → Option ℕ
  pub hls_mount_path : String
  pub has_dots : String → Bool
  pub new_id : String
  pub object_path : String
  pub file : Option (List ℕ)
  pub upload_ok : Bool

-- The tables and counters after the hook, and whose snapshot it refreshes; it always answers code 0.
pub record HlsReply : Type 0 where
  pub store : Store
  pub metrics : ArchiveMetrics
  pub refreshed : Option String

abbrev pub archive_of : HlsWorld → String → String → String → HlsBody → Archive
archive_of w recording org camera b = record {
  recording_id = recording;
  org_id = org;
  camera_id = camera;
  file_path = b.segment_file;
  duration = b.duration;
  seq_no = b.seq_no;
  file = w.file;
  upload_ok = w.upload_ok;
}

abbrev pub settle : HlsWorld → Store → ArchiveMetrics → Option String → Result Store → HlsReply
settle w s m refreshed (ok t) = record {
  store = t;
  metrics = record_success w.now m;
  refreshed = refreshed;
}
settle w s m refreshed (err e) = record {
  store = s;
  metrics = record_failure w.now e m;
  refreshed = refreshed;
}

abbrev pub skip : Store → ArchiveMetrics → Option String → HlsReply
skip s m refreshed = record { store = s; metrics = m; refreshed = refreshed }

-- The `try` block, for the active recording of the camera.
abbrev pub archive_for :
    HlsWorld
    → HlsBody
    → String
    → String
    → Option Recording
    → Store
    → ArchiveMetrics
    → Option String
    → HlsReply
archive_for w b org camera none s m refreshed = skip s m refreshed
archive_for w b org camera (some r) s m refreshed =
    if not (check_storage_quota (w.limit_gb org) org s.segments).allowed
    then skip s m refreshed
    else if w.has_dots b.segment_file || w.has_dots b.m3u8_file
    then skip s m refreshed
    else settle w s m refreshed (
        archive_segment w.hls_mount_path w.has_dots w.new_id w.object_path w.now
          (archive_of w r.id org camera b) s)

-- The first segment of a session, or any while there is no snapshot yet.
abbrev pub refresh_of : HlsWorld → HlsBody → String → Option String
refresh_of w b camera = if b.seq_no == 0 || not (w.has_snapshot camera) then some camera else none

unfoldable pub on_hls : HlsWorld → Option HlsBody → Store → ArchiveMetrics → HlsReply
unfolding check_storage_quota get_active_recording
on_hls w none s m = skip s m none
on_hls w (some b) s m = elim b.stream [
  | push key ↦ skip s m none
  | live none ↦ skip s m none
  | live (some (org, camera)) ↦
      if org == "" || camera == ""
      then skip s m none
      else archive_for w b org camera (get_active_recording camera org s) s m
          (refresh_of w b camera)
]
