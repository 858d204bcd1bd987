-- ===== src/Recordings/Hls/Examples.antt =====
-- A segment that arrives while its camera records, and archive counters.
use sms_app.Base.{ℕ, true, false, none, some, [], ◌∷◌, ◌≡◌, refl}
use sms_app.Playback.Callbacks.{live}
use sms_app.Recordings.Service.{Recording, recording, archive_segment}
use sms_app.Recordings.H264.{contains_h264_keyframe}
use sms_app.Recordings.Hls.{
  HlsWorld, HlsBody, ArchiveMetrics, idle, degraded, failing, archive_status, record_success,
  on_hls,
}

abbrev counters : ℕ → ℕ → ArchiveMetrics
counters good bad = record {
  successes = good;
  failures = bad;
  last_failure = none;
  last_success_at = none;
}

idle_test : archive_status (counters 0 0) ≡ idle
unfolding archive_status
idle_test = refl

-- One failure in ten is too many, one in eleven is not.
failing_test : archive_status (counters 9 1) ≡ failing
unfolding archive_status
failing_test = refl

degraded_test : archive_status (counters 10 1) ≡ degraded
unfolding archive_status
degraded_test = refl

abbrev world : HlsWorld
world = record {
  now = 50;
  has_snapshot = λ camera. true;
  limit_gb = λ org. some 1;
  hls_mount_path = "/srs-hls";
  has_dots = λ path. false;
  new_id = "s";
  object_path = "a/1.ts";
  file = some (0 ∷ 0 ∷ 1 ∷ 101 ∷ 7 ∷ []);
  upload_ok = true;
}

abbrev body : HlsBody
body = record {
  stream = live (some ("o", "a"));
  segment_file = "/srs-hls/live/o/a-0.ts";
  m3u8_file = "/srs-hls/live/o/a.m3u8";
  duration = 2000000;
  seq_no = 0;
}

abbrev row : ℕ → ℕ → Recording
row size duration = record {
  id = "r";
  org_id = "o";
  camera_id = "a";
  status = recording;
  stopped_at = none;
  total_size = size;
  total_duration = duration;
  init_segment = none;
}

archived_test :
    on_hls world
      (some body)
      (record { cameras = []; recordings = row 0 0 ∷ []; segments = [] })
      (counters 0 0)
    ≡ record {
      store = record {
        cameras = [];
        recordings = row 5 2000000 ∷ [];
        segments =
            record {
              id = "s";
              org_id = "o";
              recording_id = "r";
              camera_id = "a";
              object_path = "a/1.ts";
              duration = 2000000;
              size = 5;
              seq_no = 0;
              timestamp = 50;
              has_keyframe = some true;
            }
            ∷ [];
      };
      metrics = record (counters 1 0) { last_success_at = some 50 };
      refreshed = some "a";
    }
unfolding on_hls archive_segment contains_h264_keyframe record_success
archived_test = refl
