-- ===== src/Status.antt =====
-- apps/api/src/status/status.service.ts and processors/notify-dispatch.processor.ts. The database
-- and the job queue are not modelled: a method takes what its queries answer, and returns the calls
-- that it makes, in order, or the error that it throws.
pub mod Diagram
pub mod Notify
pub mod Viewers
mod Examples
use sms_app.Base.{
  ℕ, ◌+◌, ◌-◌, String, Bool, true, false, not, ◌&&◌, Option, none, some, List, [], ◌∷◌, ◌++◌,
  contains, Dict, lookup, insert, if◌then◌else◌, ◌==◌, Error, Result, ok, err, ◌>>=◌, ◌>>◌, require,
  found, string_eq,
}
use sms_app.Camera.{
  Status, offline, connecting, online, reconnecting, degraded, other, status_eq, Camera,
}
use Prim.Native.String

pub record NotifyJob : Type 0 where
  pub org_id : String
  pub camera_id : String
  pub camera_name : String
  pub new_status : Status
  pub previous_status : Status

-- The calls that `transition` makes.
pub data Effect : Type 0 where
  -- `camera.update`, with the time of `lastOnlineAt` where that is written
  update_status : String → Status → Option ℕ → Effect
  record_transition : String → Status → Status → Effect
  broadcast_status : String → String → Status → Effect
  remove_notify : String → Effect
  -- `notifyQueue.add` under a job id, with the delay in milliseconds
  add_notify : String → ℕ → NotifyJob → Effect

unfoldable pub valid_transitions : Status → List Status
valid_transitions offline = connecting ∷ online ∷ []
valid_transitions connecting = online ∷ offline ∷ reconnecting ∷ degraded ∷ []
valid_transitions online = reconnecting ∷ degraded ∷ offline ∷ connecting ∷ []
valid_transitions reconnecting = online ∷ offline ∷ connecting ∷ degraded ∷ []
valid_transitions degraded = online ∷ offline ∷ connecting ∷ []
valid_transitions (other s) = []

abbrev pub notifiable_statuses : List Status
notifiable_statuses = online ∷ offline ∷ degraded ∷ reconnecting ∷ []

abbrev pub notify_job_id : String → String
notify_job_id camera_id = String.◌++◌ "camera:" (String.◌++◌ camera_id ":notify")

abbrev pub online_stamp : ℕ → Status → Option ℕ
online_stamp now status = if status == online then some now else none

-- `getJob`, `remove` where a job is there, `add`. `pending` is whether `getJob` finds one.
unfoldable pub notify_effects : Bool → Camera → Status → List Effect
notify_effects pending c status =
    let job_id = notify_job_id c.id in
    let job : NotifyJob = record {
      org_id = c.org_id;
      camera_id = c.id;
      camera_name = c.name;
      new_status = status;
      previous_status = c.status;
    } in
    let add = add_notify job_id 30000 job ∷ [] in
    if pending then remove_notify job_id ∷ add else add

-- From the row update on.
unfoldable pub transition_effects : ℕ → Bool → Camera → Status → List Effect
unfolding notify_effects
transition_effects now pending c status =
    update_status c.id status (online_stamp now status)
    ∷ record_transition c.id c.status status
    ∷ broadcast_status c.org_id c.id status
    ∷ (if c.maintenance_mode
        then []
        else if contains notifiable_statuses status
        then notify_effects pending c status
        else [])

-- `row` is what `findFirst` answers for the camera and its organization.
unfoldable pub transition : ℕ → Bool → Option Camera → Status → Result (List Effect)
unfolding transition_effects valid_transitions
transition now pending row status = do
  c ← found row (Error.failure "Camera not found")
  if status == c.status
      then ok []
      else if not (status == offline) && not (contains (valid_transitions c.status) status)
      then err (Error.failure "Invalid transition")
      else ok (transition_effects now pending c status)

-- The viewer counts, in memory.
abbrev pub ViewerCounts : Type 0
ViewerCounts = Dict ℕ

abbrev pub count_or_zero : Option ℕ → ℕ
count_or_zero none = 0
count_or_zero (some n) = n

unfoldable pub get_viewer_count : String → ViewerCounts → ℕ
get_viewer_count id counts = count_or_zero (lookup id counts)

unfoldable pub increment_viewers : String → ViewerCounts → ℕ × ViewerCounts
unfolding get_viewer_count
increment_viewers id counts =
    let count = get_viewer_count id counts + 1 in (count, insert id count counts)

-- `Math.max(0, count - 1)`
unfoldable pub decrement_viewers : String → ViewerCounts → ℕ × ViewerCounts
unfolding get_viewer_count
decrement_viewers id counts =
    let count = get_viewer_count id counts - 1 in (count, insert id count counts)

-- The calls of `NotifyDispatchProcessor.process`, 30 seconds later.
pub data Delivery : Type 0 where
  emit_event : String → Status → String → Status → List String → Delivery
  create_notification : String → String → Status → String → Delivery

-- `row` is what `findUnique` answers for the camera at that time.
unfoldable pub dispatch : Option Camera → NotifyJob → List Delivery
dispatch none job = []
dispatch (some c) job =
    if c.maintenance_mode
    then []
    else if not (c.status == job.new_status)
    then []
    else emit_event job.org_id job.new_status job.camera_id job.previous_status c.tags
      ∷ create_notification job.org_id job.camera_id job.new_status job.camera_name
      ∷ []
