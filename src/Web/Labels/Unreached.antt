-- ===== src/Web/Labels/Unreached.antt =====
-- The labels of the requests that the bulk actions make.
use Prim.Native.String
use sms_app.Base.{String, true, false, Option, none, List, [], ◌∷◌, map, ◌≡◌, refl, string_eq}
use sms_app.Playback.Keys.{split_path}
use sms_app.Web.Bulk.{
  BulkVerb, start_stream, start_recording, stop_stream, stop_recording, enter_maintenance,
  exit_maintenance, delete_camera, action,
}
use sms_app.Web.Labels.{
  Details, Entry, Label, is_uuid, trimmed, normalize_path, signature, label_of, label_or_fallback,
  derive_action_label, join_path, wild,
}

-- The segments of the address of a request.
abbrev pub segments_of : BulkVerb → String → List String
segments_of start_stream id = "" ∷ "api" ∷ "cameras" ∷ id ∷ "stream" ∷ "start" ∷ []
segments_of start_recording id = "" ∷ "api" ∷ "recordings" ∷ "start" ∷ []
segments_of stop_stream id = "" ∷ "api" ∷ "cameras" ∷ id ∷ "stream" ∷ "stop" ∷ []
segments_of stop_recording id = "" ∷ "api" ∷ "recordings" ∷ "stop" ∷ []
segments_of enter_maintenance id = "" ∷ "api" ∷ "cameras" ∷ id ∷ "maintenance" ∷ []
segments_of exit_maintenance id = "" ∷ "api" ∷ "cameras" ∷ id ∷ "maintenance" ∷ []
segments_of delete_camera id = "" ∷ "api" ∷ "cameras" ∷ id ∷ []

abbrev pub expected_label : BulkVerb → String → Label
expected_label delete_camera action = record { label = "Deleted"; is_fallback = false }
expected_label other action = record { label = action; is_fallback = true }

normalize_path-verb :
    (verb : BulkVerb) (id path : String)
    → split_path (trimmed path) ≡ segments_of verb id
    → is_uuid id ≡ true
    → normalize_path path ≡ join_path (map wild (segments_of verb id))
unfolding normalize_path
normalize_path-verb verb id path s u = rw s refl

verb_label :
    (verb : BulkVerb) (id method : String) (d : Option Details)
    → is_uuid id ≡ true
    → method ≡ (action verb id none).method
    → (name : String)
    → label_or_fallback name (
        label_of d
          (String.◌++◌ method (String.◌++◌ " " (join_path (map wild (segments_of verb id))))))
      ≡ expected_label verb name
unfolding label_of action is_uuid
verb_label start_stream id method d u m name = rw (m, u) refl
verb_label start_recording id method d u m name = rw m refl
verb_label stop_stream id method d u m name = rw (m, u) refl
verb_label stop_recording id method d u m name = rw m refl
verb_label enter_maintenance id method d u m name = rw (m, u) refl
verb_label exit_maintenance id method d u m name = rw (m, u) refl
verb_label delete_camera id method d u m name = rw (m, u) refl

-- An audit entry with the method of a bulk action's request and an address whose segments are the
-- request's, for a camera whose id is a UUID, gets the label "Deleted" for a deletion; for every other
-- action it falls back to the raw action: the rules for streams, recordings and maintenance match none of
-- the requests.
pub bulk_requests_unlabelled :
    (upper : String → String) (verb : BulkVerb) (id : String) (e : Entry)
    → is_uuid id ≡ true
    → upper e.method ≡ (action verb id none).method
    → split_path (trimmed e.path) ≡ segments_of verb id
    → derive_action_label upper e ≡ expected_label verb e.action
unfolding derive_action_label signature
bulk_requests_unlabelled upper verb id e u m s =
    rw (normalize_path-verb verb id e.path s u)
      (verb_label verb id (upper e.method) e.details u m e.action)
