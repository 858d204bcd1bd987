-- ===== src/Cameras/Changes.antt =====
-- apps/api/src/cameras/cameras.service.ts: updates and deletions of cameras, their stream keys, the
-- maintenance mode and the probes.
use sms_app.Base.{
  ℕ, String, Bool, true, false, not, ◌&&◌, Option, none, some, List, [], ◌∷◌, ◌++◌, if◌then◌else◌,
  ◌==◌, string_eq, any, find, keep, length, nat_eq, contains, replace_first, remove_first, map,
  Result, ok, not_found, bad_request, failure, found, require, ◌>>=◌, ◌>>◌,
}
use sms_app.Camera.{Profile, offline, running_statuses, status_eq}
use sms_app.Streams.Processor.{fingerprint_profile}
use sms_app.Streams.Profiles.{set_or}
use sms_app.Cameras.Service.{
  Row, Call, audit, kick_publisher, stop_stream, profile_restart, add_probe, remove_probe, has_id,
  has_name, has_url, has_key, is_push, push_url, duplicate_url, duplicate_key, probe_job_id,
}

-- The columns of an update; `ingestMode` is taken out of it. A profile and a description may be set to
-- `null`.
pub record UpdateCamera : Type 0 where
  pub name : Option String
  pub stream_url : Option String
  pub description : Option (Option String)
  pub tags : Option (List String)
  pub profile_id : Option (Option String)
  pub site_id : Option String
  pub needs_transcode : Option Bool

abbrev pub patch_row : UpdateCamera → Row → Row
patch_row dto r = record r {
  name = set_or r.name dto.name;
  stream_url = set_or r.stream_url dto.stream_url;
  description = set_or r.description dto.description;
  tags = set_or r.tags dto.tags;
  profile_id = set_or r.profile_id dto.profile_id;
  site_id = set_or r.site_id dto.site_id;
  needs_transcode = set_or r.needs_transcode dto.needs_transcode;
}

-- The unique constraints for a row that is written over: against the rows with another id.
abbrev pub others : String → List Row → List Row
others id rows = keep (λ r. not (has_id id r)) rows

abbrev same_text : Option String → Option String → Bool
same_text none none = true
same_text (some a) (some b) = a == b
same_text _ _ = false

abbrev pub profile_text : Option String → String
profile_text none = "none-sentinel"
profile_text (some id) = id

-- Whether the update restarts the stream: another profile with another fingerprint, for a camera that
-- should be running. `profiles` are the rows of the profiles.
unfoldable pub restart_calls :
    (String → String) → (Option String → Option Profile) → UpdateCamera → Row → List Call
restart_calls sha256 profiles dto pre = elim dto.profile_id [
  | none ↦ []
  | some new ↦
      if same_text new pre.profile_id
      then []
      else if fingerprint_profile sha256 (profiles pre.profile_id)
          == fingerprint_profile sha256 (profiles new)
      then []
      else if contains running_statuses pre.status && not pre.maintenance_mode
      then profile_restart pre.id (profile_text new) ∷ []
      else []
]

-- `arraysEqualCaseInsensitive`
unfoldable pub arrays_equal : (String → String) → List String → List String → Bool
arrays_equal lower a b =
    length a == length b && not (any (λ t. not (contains (map lower a) (lower t))) b)

abbrev tags_changed : (String → String) → Option (List String) → List String → Bool
tags_changed lower none before = false
tags_changed lower (some after) before = not (arrays_equal lower before after)

abbrev description_changed : Option (Option String) → Option String → Bool
description_changed none before = false
description_changed (some after) before = not (same_text before after)

-- The fields of the audit entry, and the entry where there are such.
abbrev changed_fields : (String → String) → UpdateCamera → Row → List String
changed_fields lower dto pre =
    (if tags_changed lower dto.tags pre.tags then "tags" ∷ [] else [])
    ++ (if description_changed dto.description pre.description then "description" ∷ [] else [])

abbrev audit_fields : String → List String → List Call
audit_fields id [] = []
audit_fields id (f ∷ fs) = audit "camera.metadata.update" id (f ∷ fs) ∷ []

unfoldable pub update_camera :
    (String → String)
    → (String → String)
    → (Option String → Option Profile)
    → String
    → UpdateCamera
    → List Row
    → Result (List Row × List Call)
unfolding restart_calls arrays_equal
update_camera lower sha256 profiles id dto rows =
    found (find (has_id id) rows) (not_found "Camera not found") >>= λ pre.
    let new = patch_row dto pre in
    require (not (any (has_name new.org_id new.name) (others id rows))) (failure "P2002")
    >> (require (not (any (has_url new.org_id new.stream_url) (others id rows))) (failure "P2002")
        >> ok (
          replace_first (has_id id) (patch_row dto) rows,
          restart_calls sha256 profiles dto pre ++ audit_fields id (changed_fields lower dto pre),
        ))

abbrev pub kick_if : Bool → Option String → List Call
kick_if true (some client) = kick_publisher client ∷ []
kick_if true none = []
kick_if false client = []

abbrev has_stream_key : Option String → Bool
has_stream_key none = false
has_stream_key (some key) = not (key == "")

-- `client` is what `findPublisherClientId` answers, `none` where it throws. What the kick and the stop
-- throw is logged.
unfoldable pub delete_camera : Option String → String → List Row → Result (List Row × List Call)
delete_camera client id rows = found (find (has_id id) rows) (not_found "Camera not found") >>= λ r.
    ok (
      remove_first (has_id id) rows,
      kick_if (is_push r.ingest_mode && has_stream_key r.stream_key) client ++ stop_stream id ∷ [],
    )

-- The camera of a stream key.
unfoldable pub find_by_stream_key : String → List Row → Option Row
find_by_stream_key key rows = find (has_key key) rows

unfoldable pub resolve_forward_target : String → List Row → Option (String × String × Bool)
resolve_forward_target key rows = elim (find (has_key key) rows) [
  | none ↦ none
  | some r ↦ some (r.org_id, r.id, r.needs_transcode)
]

abbrev is_unpublished : String → Row → Bool
is_unpublished id r = has_id id r && (elim r.first_publish_at [ none ↦ true | some t ↦ false ])

abbrev stamp : ℕ → Row → Row
stamp now r = record r { first_publish_at = some now }

-- Whether this call wrote the stamp.
unfoldable pub mark_first_publish_if_needed : ℕ → String → List Row → List Row × Bool
mark_first_publish_if_needed now id rows =
    (replace_first (is_unpublished id) (stamp now) rows, any (is_unpublished id) rows)

abbrev pub with_key : String → String → Row → Row
with_key host key r = record r { stream_key = some key; stream_url = push_url host key }

abbrev key_prefix : (String → String) → Option String → String
key_prefix prefix none = prefix ""
key_prefix prefix (some key) = prefix key

-- `client` is what SRS answers for the publisher of the old key, before the update.
unfoldable pub rotate_stream_key :
    (String → String)
    → String
    → Option String
    → String
    → String
    → List Row
    → Result (List Row × List Call)
rotate_stream_key prefix host client new_key id rows =
    found (find (has_id id) rows) (not_found "Camera not found") >>= λ r.
    require (is_push r.ingest_mode) (bad_request "Only push cameras can rotate their stream key")
    >> (require (not (any (has_url r.org_id (push_url host new_key)) (others id rows)))
          duplicate_url
        >> (require (not (any (has_key new_key) (others id rows))) duplicate_key
            >> ok (
              replace_first (has_id id) (with_key host new_key) rows,
              kick_if true client
                  ++ audit "camera.push.key_rotated" id
                      (key_prefix prefix r.stream_key ∷ prefix new_key ∷ [])
                    ∷ [],
            )))

abbrev pub in_maintenance : String → Row → Row
in_maintenance user r = record r { maintenance_mode = true; maintenance_by = some user }

abbrev pub stopped : Row → Row
stopped r = record r { status = offline }

-- A pull camera's stream is stopped and its status set; what the stop throws is logged. The table is
-- the one after the stop's own transition, which sets the same status.
unfoldable pub enter_maintenance : String → String → List Row → Result (List Row × List Call)
enter_maintenance user id rows =
    found (find (has_id id) rows) (not_found "Camera not found") >>= λ r. ok (
      if r.maintenance_mode
      then (rows, [])
      else if is_push r.ingest_mode
      then (replace_first (has_id id) (in_maintenance user) rows, [])
      else (
        replace_first (has_id id) (λ c. stopped (in_maintenance user c)) rows,
        stop_stream id ∷ [],
      ))

abbrev pub out_of_maintenance : Row → Row
out_of_maintenance r = record r { maintenance_mode = false }

unfoldable pub exit_maintenance : String → List Row → Result (List Row)
exit_maintenance id rows = found (find (has_id id) rows) (not_found "Camera not found") >>= λ r.
    ok (if r.maintenance_mode then replace_first (has_id id) out_of_maintenance rows else rows)

-- `existing` is whether the queue has a job of that id.
unfoldable pub enqueue_probe_from_srs : Bool → ℕ → String → String → List Row → List Call
enqueue_probe_from_srs existing delay id org rows = elim (find (has_id id) rows) [
  | none ↦ []
  | some r ↦
      (if existing then remove_probe (probe_job_id id "srs-api") ∷ [] else [])
      ++ add_probe (probe_job_id id "srs-api") id r.stream_url org delay ∷ []
]

unfoldable pub enqueue_probe_retry : String → String → String → List Call
enqueue_probe_retry id url org = add_probe (probe_job_id id "ffprobe") id url org 0 ∷ []
