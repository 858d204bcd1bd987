-- ===== src/Playback/Publish/Examples.antt =====
-- A push camera whose key is rotated, and the theorem at it.
use sms_app.Base.{
  ◌≤◌, String, true, false, none, some, [], ◌∷◌, ◌≡◌, refl, arith, count_by, eq_iff, string_eq, ok,
}
use sms_app.Playback.Callbacks.{push}
use sms_app.Cameras.Service.{Row, audit, kick_publisher, has_key, new_row, add_probe}
use sms_app.Cameras.Changes.{
  with_key, rotate_stream_key, find_by_stream_key, enqueue_probe_from_srs,
  mark_first_publish_if_needed,
}
use sms_app.Playback.Publish.{
  PublishWorld, audit_rejected, go_online, start_stream, probe, audit_first, on_publish,
  publish_camera,
}
use sms_app.Playback.Publish.Rotation.{publish_after_rotation}

abbrev yard : String → Row
yard key = new_row "host" "j" key "o" "s" none (record {
  name = "Yard";
  ingest_mode = "push";
  stream_url = none;
  description = none;
  tags = [];
  profile_id = none;
})

abbrev as_is : String → String
as_is text = text

abbrev at_noon : PublishWorld
at_noon = record { now = 7; goes_online = λ camera. true; has_probe = λ camera. false }

first_publish_test :
    on_publish as_is at_noon (push "l") (yard "l" ∷ [])
    ≡ ok (record {
      code = 0;
      calls =
          go_online "j" "o"
          ∷ start_stream "j"
          ∷ probe (add_probe "probe-j-srs-api" "j" "rtmp://host:1935/push/l" "o" 1000)
          ∷ audit_first "o" "j"
          ∷ [];
      rows = record (yard "l") { first_publish_at = some 7 } ∷ [];
    })
unfolding on_publish find_by_stream_key publish_camera enqueue_probe_from_srs
    mark_first_publish_if_needed
first_publish_test = refl

each_key_once : (key : String) → count_by (has_key key) (yard "l" ∷ []) ≤ 1
each_key_once key = ground arith

publish_after_rotation_example :
    (on_publish as_is at_noon (push "l") (yard "m" ∷ [])
      ≡ ok (record { code = 403; calls = audit_rejected "l" ∷ []; rows = yard "m" ∷ [] }))
    × (on_publish as_is at_noon (push "m") (yard "m" ∷ [])
        ≡ publish_camera at_noon (with_key "host" "m" (yard "l")) (yard "m" ∷ []))
unfolding rotate_stream_key
publish_after_rotation_example =
    publish_after_rotation as_is "host" (some "c") "l" "m" "j" (yard "l" ∷ []) (yard "l")
      (
        yard "m" ∷ [],
        kick_publisher "c" ∷ audit "camera.push.key_rotated" "j" ("l" ∷ "m" ∷ []) ∷ [],
      )
      at_noon each_key_once refl refl (λ e. ground (arith, eq_iff {A = String} "l" "m")) refl
