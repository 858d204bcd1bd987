-- ===== src/Recordings/Hls/Steps.antt =====
-- The segment hook among the operations of the recordings.
use sms_app.Base.{
  String, not, ◌||◌, ◌==◌, string_eq, Option, none, some, Result-cases, Bool-cases, inl, inr,
}
use sms_app.Playback.Callbacks.{Parsed, push, live}
use sms_app.Recordings.Service.{
  Store, Recording, archive_segment, check_storage_quota, get_active_recording,
}
use sms_app.Recordings.Service.Flag.{Reaches, next, archived}
use sms_app.Recordings.Hls.{
  HlsWorld, HlsBody, ArchiveMetrics, archive_of, archive_for, settle, refresh_of, on_hls,
}

module _ (w : HlsWorld) (m : ArchiveMetrics) (start s : Store) (reached : Reaches start s) where
  settle-Reaches :
      (recording org camera : String) (b : HlsBody) (refreshed : Option String)
      → Reaches start
          (settle w s m refreshed (
            archive_segment w.hls_mount_path w.has_dots w.new_id w.object_path w.now
              (archive_of w recording org camera b)
              s)).store
  settle-Reaches recording org camera b refreshed =
      elim (Result-cases (
        archive_segment w.hls_mount_path w.has_dots w.new_id w.object_path w.now
          (archive_of w recording org camera b) s)) [
            | inl (e, f) ↦ rw f reached
            | inr (t, f) ↦ rw f (next s t reached (archived _ _ _ _ _ _ s t f))
          ]

  archive_for-Reaches :
      (b : HlsBody) (org camera : String) (r : Option Recording) (refreshed : Option String)
      → Reaches start (archive_for w b org camera r s m refreshed).store
  archive_for-Reaches b org camera none refreshed = reached
  archive_for-Reaches b org camera (some r) refreshed =
      elim (Bool-cases (not (check_storage_quota (w.limit_gb org) org s.segments).allowed)) [
        | inl full ↦ rw full reached
        | inr room ↦
            rw room (elim (Bool-cases (w.has_dots b.segment_file || w.has_dots b.m3u8_file)) [
              | inl dots ↦ rw dots reached
              | inr clean ↦ rw clean (settle-Reaches r.id org camera b refreshed)
            ])
      ]

  stream-Reaches :
      (b : HlsBody) (stream : Parsed)
      → Reaches start (on_hls w (some (record b { stream = stream })) s m).store
  unfolding on_hls
  stream-Reaches b (push key) = reached
  stream-Reaches b (live none) = reached
  stream-Reaches b (live (some (org, camera))) = elim (Bool-cases (org == "" || camera == "")) [
    | inl empty ↦ rw empty reached
    | inr named ↦ rw named (
        archive_for-Reaches b org camera (get_active_recording camera org s)
          (refresh_of w b camera))
  ]

  -- Whatever a body says and however the hook ends, the tables after it are reached by an archived
  -- segment or are those before it: what holds of all reached tables holds after the hook too.
  pub on_hls-Reaches : (body : Option HlsBody) → Reaches start (on_hls w body s m).store
  on_hls-Reaches none = unfold on_hls in reached
  on_hls-Reaches (some b) = stream-Reaches b b.stream
