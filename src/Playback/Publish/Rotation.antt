-- ===== src/Playback/Publish/Rotation.antt =====
-- Publishing with the keys of a camera whose key was rotated.
use sms_app.Base.{◌≤◌, String, Option, some, List, [], ◌∷◌, ◌≡◌, ◌≢◌, find, count_by, ok}
use sms_app.Playback.Callbacks.{push}
use sms_app.Cameras.Service.{Row, Call, has_id, has_key}
use sms_app.Cameras.Changes.{with_key, rotate_stream_key}
use sms_app.Cameras.Keys.{rotation_revokes_key}
use sms_app.Playback.Publish.{PublishWorld, audit_rejected, on_publish, publish_camera}

-- After a rotation that succeeds, in a table where each stream key is one camera's: a publisher with
-- the old key is refused with code 403, which is audited and changes no row, and one with the new key
-- publishes as this camera.
pub publish_after_rotation :
    (prefix : String → String) (host : String) (client : Option String) (old new id : String)
    (rows : List Row) (r : Row) (result : List Row × List Call) (w : PublishWorld)
    → ((key : String) → count_by (has_key key) rows ≤ 1)
    → find (has_id id) rows ≡ some r
    → r.stream_key ≡ some old
    → old ≢ new
    → rotate_stream_key prefix host client new id rows ≡ ok result
    → (on_publish prefix w (push old) result.0
        ≡ ok (record { code = 403; calls = audit_rejected (prefix old) ∷ []; rows = result.0 }))
      × (on_publish prefix w (push new) result.0 ≡ publish_camera w (with_key host new r) result.0)
unfolding on_publish
publish_after_rotation prefix host client old new id rows r result w unique e k different h =
    let (gone, found_new, target) =
      rotation_revokes_key prefix host client old new id rows r result unique e k different h in
    (rw gone, rw found_new)
