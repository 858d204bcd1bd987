-- ===== src/Status/Notify.antt =====
-- Which transitions are announced, and which announcements are delivered 30 seconds later.
use sms_app.Base.{
  ℕ, String, Bool, false, not, ◌&&◌, Option, none, some, List, [], ◌∷◌, ◌≡◌, refl, ◌≢◌, ◌↔◌, arith,
  contains, if◌then◌else◌, ◌==◌, ok,
}
use sms_app.Camera.{Status, status_eq, status_same_iff, Camera}
use sms_app.Status.{
  Effect, add_notify, remove_notify, update_status, record_transition, broadcast_status, NotifyJob,
  notifiable_statuses, notify_job_id, notify_effects, transition_effects, transition, dispatch,
  online_stamp, emit_event, create_notification,
}

abbrev pub added : List Effect → List (String × ℕ × NotifyJob)
added [] = []
added (add_notify id delay job ∷ es) = (id, delay, job) ∷ added es
added (e ∷ es) = added es

abbrev pub removed : List Effect → List String
removed [] = []
removed (remove_notify id ∷ es) = id ∷ removed es
removed (e ∷ es) = removed es

-- What the gateway and the metrics hear: the same for every change, in maintenance too.
abbrev pub reported : List Effect → List Effect
reported [] = []
reported (add_notify id delay job ∷ es) = reported es
reported (remove_notify id ∷ es) = reported es
reported (e ∷ es) = e ∷ reported es

abbrev pub job_of : Camera → Status → NotifyJob
job_of c to = record {
  org_id = c.org_id;
  camera_id = c.id;
  camera_name = c.name;
  new_status = to;
  previous_status = c.status;
}

abbrev pub is_announced : Camera → Status → Bool
is_announced c to =
    not (to == c.status) && not c.maintenance_mode && contains notifiable_statuses to

-- What a successful call of `transition` does on every branch. A job to announce the change is
-- added, with a delay of 30 s, exactly when the status changes, the camera is not in maintenance and
-- the new status is one of the four to announce; a job that was pending for the camera is then
-- removed, and otherwise left. A change is written to the row, the metrics and the gateway
-- whether it is announced or not, and no change writes nothing.
pub transition_announces :
    (now : ℕ) (pending : Bool) (c : Camera) (to : Status) (effects : List Effect)
    → transition now pending (some c) to ≡ ok effects
    → (added effects
        ≡ (if is_announced c to then (notify_job_id c.id, 30000, job_of c to) ∷ [] else []))
      × (removed effects ≡ (if is_announced c to && pending then notify_job_id c.id ∷ [] else []))
      × (reported effects ≡ (
          if to == c.status
          then []
          else update_status c.id to (online_stamp now to)
            ∷ record_transition c.id c.status to
            ∷ broadcast_status c.org_id c.id to
            ∷ []))
unfolding transition transition_effects notify_effects
transition_announces now pending c to effects h = ground arith

-- The webhook and the notification go out exactly when the camera is still there, is not in
-- maintenance, and is still in the status that the job announces.
pub dispatch_delivers_iff :
    (row : Option Camera) (job : NotifyJob)
    → (dispatch row job ≢ [])
      ↔ ((c : Camera) × (row ≡ some c) × (c.maintenance_mode ≡ false) × (c.status ≡ job.new_status))
unfolding dispatch
dispatch_delivers_iff none job = (λ h. absurd (h refl), λ (c, e, _, _). cc)
dispatch_delivers_iff (some c) job = (
  λ h. (c, refl, ground arith, ground (arith, status_same_iff c.status job.new_status)),
  λ (d, e, quiet, same) none_sent. ground (arith, status_same_iff c.status job.new_status),
)

-- A change that is announced and not undone within the 30 seconds is delivered once to each
-- channel, with the status before and after and the camera's tags at delivery; if the status has
-- moved on by then, or the camera has entered maintenance, nothing is sent.
pub announced-dispatch :
    (c d : Camera) (to : Status)
    → dispatch (some d) (job_of c to) ≡ (
        if d.status == to && not d.maintenance_mode
        then emit_event c.org_id to c.id c.status d.tags
          ∷ create_notification c.org_id c.id to c.name
          ∷ []
        else [])
unfolding dispatch
announced-dispatch c d to = ground arith
