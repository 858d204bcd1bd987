-- ===== src/Playback/Publish.antt =====
-- The publish hook of apps/api/src/srs/srs-callback.controller.ts, over the table of cameras. The calls
-- of a hook are in order; what the best-effort ones throw is logged.
pub mod Rotation
mod Examples
use sms_app.Base.{
  ℕ, String, Bool, true, false, Option, none, some, List, [], ◌∷◌, ◌++◌, map, if◌then◌else◌, ◌==◌,
  ◌||◌, string_eq, Result, ok, err, failure,
}
use sms_app.Playback.Callbacks.{Parsed, push, live}
use sms_app.Cameras.Service.{Row, Call}
use sms_app.Cameras.Changes.{
  find_by_stream_key, enqueue_probe_from_srs, mark_first_publish_if_needed,
}

pub data PublishCall : Type 0 where
  -- `camera.push.publish_rejected`, with the prefix of the key
  audit_rejected : String → PublishCall
  -- `transition(camera, org, 'online')`
  go_online : String → String → PublishCall
  start_stream : String → PublishCall
  probe : Call → PublishCall
  -- `camera.push.first_publish`
  audit_first : String → String → PublishCall

pub record PublishReply : Type 0 where
  pub code : ℕ
  pub calls : List PublishCall
  pub rows : List Row

-- What the hook asks besides the table: the clock, whether the transition succeeds, and whether the
-- queue has a probe of the camera.
pub record PublishWorld : Type 0 where
  pub now : ℕ
  pub goes_online : String → Bool
  pub has_probe : String → Bool

abbrev pub probes : PublishWorld → String → String → List Row → List PublishCall
probes w camera org rows =
    map probe (enqueue_probe_from_srs (w.has_probe camera) 1000 camera org rows)

abbrev pub first_audit : Bool → String → String → List PublishCall
first_audit true org camera = audit_first org camera ∷ []
first_audit false org camera = []

-- A known stream key. A transition that throws ends the hook.
unfoldable pub publish_camera : PublishWorld → Row → List Row → Result PublishReply
publish_camera w r rows =
    let marked = mark_first_publish_if_needed w.now r.id rows in
    if w.goes_online r.id
    then ok (record {
      code = 0;
      calls =
          go_online r.id r.org_id ∷ start_stream r.id ∷ probes w r.id r.org_id rows
          ++ first_audit marked.1 r.org_id r.id;
      rows = marked.0;
    })
    else err (failure "transition")

abbrev pub publish_row : PublishWorld → String → Option Row → List Row → Result PublishReply
publish_row w prefix none rows =
    ok (record { code = 403; calls = audit_rejected prefix ∷ []; rows = rows })
publish_row w prefix (some r) rows = publish_camera w r rows

-- `prefix` is `streamKeyPrefix`.
unfoldable pub on_publish :
    (String → String) → PublishWorld → Parsed → List Row → Result PublishReply
on_publish prefix w (push key) rows = publish_row w (prefix key) (find_by_stream_key key rows) rows
on_publish prefix w (live none) rows = ok (record { code = 0; calls = []; rows = rows })
on_publish prefix w (live (some (org, camera))) rows =
    if org == "" || camera == ""
    then ok (record { code = 0; calls = []; rows = rows })
    else if w.goes_online camera
    then ok
        (record { code = 0; calls = go_online camera org ∷ probes w camera org rows; rows = rows })
    else err (failure "transition")
