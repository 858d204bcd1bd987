-- ===== src/Recordings/Examples.antt =====
-- Segments of bytes and rows, and the theorems at them.
use sms_app.Base.{
  ℕ, String, Bool, true, false, none, some, List, [], ◌∷◌, ◌≡◌, ◌↔◌, refl, arith, sort_by,
}
use sms_app.Recordings.H264.{
  contains_h264_nal_type, contains_h264_keyframe, HasNalUnit, contains_h264_nal_type_iff,
}
use sms_app.Recordings.Service.{Segment}
use sms_app.Recordings.Manifest.{playable_segments, get_days_with_recordings}

-- A sequence parameter set (7) and an IDR slice (5), behind a long and a short start code.
abbrev bytes : List ℕ
bytes = 71 ∷ 0 ∷ 0 ∷ 0 ∷ 1 ∷ 103 ∷ 9 ∷ 0 ∷ 0 ∷ 1 ∷ 101 ∷ 8 ∷ []

keyframe_test : contains_h264_keyframe bytes ≡ true
unfolding contains_h264_keyframe
keyframe_test = refl

-- Four bytes are never read.
short_test : contains_h264_nal_type (0 ∷ 0 ∷ 1 ∷ 101 ∷ []) 5 ≡ false
unfolding contains_h264_nal_type
short_test = refl

contains_h264_nal_type_iff_example : (contains_h264_nal_type bytes 8 ≡ true) ↔ HasNalUnit bytes 8
contains_h264_nal_type_iff_example = contains_h264_nal_type_iff bytes 8 (omega arith) (ground arith)

abbrev segment : String → ℕ → ℕ → Bool → Segment
segment id number at keyframe = record {
  id = id;
  org_id = "o";
  recording_id = "r";
  camera_id = "a";
  object_path = id;
  duration = 2500000;
  size = 100;
  seq_no = number;
  timestamp = at;
  has_keyframe = some keyframe;
}

abbrev segments : List Segment
segments =
    segment "u" 3 7300000 false ∷ segment "s" 1 3500000 false ∷ segment "t" 2 3700000 true ∷ []

-- In order, from the first one with a keyframe on.
playable_test :
    playable_segments "r" "o" none none segments
    ≡ segment "t" 2 3700000 true ∷ segment "u" 3 7300000 false ∷ []
unfolding playable_segments sort_by
playable_test = refl

days_test : get_days_with_recordings "a" "o" 0 90000000 segments ≡ 1 ∷ []
unfolding get_days_with_recordings sort_by
days_test = refl
