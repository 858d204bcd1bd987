-- ===== src/Recordings/Retention/Examples.antt =====
-- Segments of two cameras with their own retention, and the theorem at them.
use sms_app.Base.{
  ℕ, ◌-◌, ◌==◌, String, true, none, some, [], ◌∷◌, ◌≡◌, refl, not, keep, if◌then◌else◌, string_eq,
}
use sms_app.Recordings.Service.{Store, Recording, Segment, complete}
use sms_app.Recordings.Retention.{Retention, cleanup_org, process}
use sms_app.Recordings.Retention.Expiry.{is_overdue, cleanup_org-segments}

abbrev segment : String → String → ℕ → Segment
segment id camera at = record {
  id = id;
  org_id = "o";
  recording_id = camera;
  camera_id = camera;
  object_path = id;
  duration = 2000000;
  size = 100;
  seq_no = 1;
  timestamp = at;
  has_keyframe = none;
}

abbrev recording_of : String → ℕ → Recording
recording_of camera size = record {
  id = camera;
  org_id = "o";
  camera_id = camera;
  status = complete;
  stopped_at = some 5;
  total_size = size;
  total_duration = 0;
  init_segment = none;
}

-- Day 40 in days: the organization keeps 30 of them, the camera `b` only 5.
abbrev day_40 : Retention
day_40 = record {
  default_days = none;
  camera_days = λ camera. if camera == "b" then some 5 else none;
  cutoff = λ days. 40 - days;
  removes = λ camera. true;
}

abbrev archive : Store
archive = record {
  cameras = [];
  recordings = recording_of "a" 200 ∷ recording_of "b" 100 ∷ [];
  segments = segment "s" "a" 9 ∷ segment "t" "a" 20 ∷ segment "u" "b" 20 ∷ [];
}

-- A recording with no segment left goes too; the other gets its new size.
process_test : process (λ org. day_40) archive ≡ record {
  cameras = [];
  recordings = recording_of "a" 100 ∷ [];
  segments = segment "t" "a" 20 ∷ [];
}
unfolding process
process_test = refl

cleanup_org-segments_example :
    (cleanup_org day_40 "o" archive).segments
    ≡ keep (λ g. not (is_overdue day_40 "o" g)) archive.segments
cleanup_org-segments_example = cleanup_org-segments day_40 "o" archive refl (λ camera. refl)
