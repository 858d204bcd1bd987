-- ===== src/Status/Examples.antt =====
-- Concrete transitions, viewers and announcements, and the theorems at them.
use sms_app.Base.{
  true, false, none, some, List, [], ◌∷◌, ◌≡◌, refl, ◌≢◌, ◌↔◌, ok, err, if◌then◌else◌, ◌==◌, ◌&&◌,
  Error,
}
use sms_app.Camera.{offline, online, reconnecting, degraded, status_eq, Camera}
use sms_app.Status.{
  Effect, update_status, record_transition, broadcast_status, notify_job_id, transition,
  transition_effects, dispatch, online_stamp,
}
use sms_app.Status.Diagram.{◌⟶◌, transition_ok_iff}
use sms_app.Status.Notify.{
  added, removed, reported, job_of, is_announced, transition_announces, dispatch_delivers_iff,
}
use sms_app.Status.Viewers.{Visit, join, leave}

abbrev lobby : Camera
lobby = record {
  id = "lobby";
  org_id = "org";
  name = "Lobby";
  status = online;
  maintenance_mode = false;
  ingest_mode = "pull";
  stream_url = "rtsp://10.0.0.5/1";
  stream_key = none;
  needs_transcode = false;
  stream_profile = none;
  tags = "door" ∷ [];
  is_recording = false;
}

abbrev idle : Camera
idle = record lobby { status = offline }

transition_announces_example :
    let effects = transition_effects 7 true lobby reconnecting in
    (added effects ≡ (
      if is_announced lobby reconnecting
      then (notify_job_id "lobby", 30000, job_of lobby reconnecting) ∷ []
      else []))
    × (removed effects
        ≡ (if is_announced lobby reconnecting && true then notify_job_id "lobby" ∷ [] else []))
    × (reported effects ≡ (
        if reconnecting == online
        then []
        else update_status "lobby" reconnecting (online_stamp 7 reconnecting)
          ∷ record_transition "lobby" online reconnecting
          ∷ broadcast_status "org" "lobby" reconnecting
          ∷ []))
transition_announces_example =
    transition_announces 7 true lobby reconnecting (transition_effects 7 true lobby reconnecting)
      (unfold transition in refl)

dispatch_delivers_iff_example : (dispatch (some idle) (job_of lobby reconnecting) ≢ []) ↔ (
    (c : Camera) × (some idle ≡ some c) × (c.maintenance_mode ≡ false) × (c.status ≡ reconnecting))
dispatch_delivers_iff_example = dispatch_delivers_iff (some idle) (job_of lobby reconnecting)

transition_ok_iff_example :
    ((effects : List Effect) × (transition 7 false (some idle) reconnecting ≡ ok effects))
    ↔ (offline ⟶ reconnecting)
transition_ok_iff_example = transition_ok_iff 7 false idle reconnecting (λ e. cc)

abbrev evening : List Visit
evening = join "lobby" ∷ join "gate" ∷ join "lobby" ∷ leave "lobby" ∷ leave "gate" ∷ []

refused : transition 7 false (some idle) degraded ≡ err (Error.failure "Invalid transition")
unfolding transition
refused = refl
