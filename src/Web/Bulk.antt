-- ===== src/Web/Bulk.antt =====
-- apps/web/src/lib/bulk-actions.ts: one action for many cameras, with at most so many requests at a time.
-- The runners of `chunkedAllSettled` interleave at their requests: a step relation.
pub mod Runners
pub mod Ends
use Prim.Native.String
use sms_app.Base.{
  ℕ, zero, suc, ◌+◌, ◌≤◌, ◌<◌, min, max, String, Bool, true, false, not, Option, none, some, List,
  [], ◌∷◌, ◌≡◌, ◌==◌, string_eq, nat_eq, if◌then◌else◌, nat_same, any, keep, length, remove_first,
  get_elem?,
}
use sms_app.Camera.{Camera, online, Status, status_same}

pub data BulkVerb : Type 0 where
  start_stream start_recording stop_stream stop_recording enter_maintenance exit_maintenance
        delete_camera :
      BulkVerb

pub record Request : Type 0 where
  pub method : String
  pub path : String
  pub body : Option (String × String)

abbrev camera_path : String → String → String
camera_path id tail = String.◌++◌ "/api/cameras/" (String.◌++◌ id tail)

abbrev reason_body : Option String → Option (String × String)
reason_body none = none
reason_body (some r) = some ("reason", r)

-- `ACTION[verb](id, reason)`
unfoldable pub action : BulkVerb → String → Option String → Request
action start_stream id reason = record {
  method = "POST";
  path = camera_path id "/stream/start";
  body = none;
}
action start_recording id reason = record {
  method = "POST";
  path = "/api/recordings/start";
  body = some ("cameraId", id);
}
action stop_stream id reason = record {
  method = "POST";
  path = camera_path id "/stream/stop";
  body = none;
}
action stop_recording id reason = record {
  method = "POST";
  path = "/api/recordings/stop";
  body = some ("cameraId", id);
}
action enter_maintenance id reason = record {
  method = "POST";
  path = camera_path id "/maintenance";
  body = reason_body reason;
}
action exit_maintenance id reason = record {
  method = "DELETE";
  path = camera_path id "/maintenance";
  body = none;
}
action delete_camera id reason = record { method = "DELETE"; path = camera_path id ""; body = none }

-- What a request comes to: it is fulfilled, or rejected with a message.
pub data Settled : Type 0 where
  fulfilled : Settled
  rejected : String → Settled

-- The pool: the shared cursor, the runners that are about to take an item, the items in flight, the
-- runners that have returned and the results.
pub record Pool : Type 0 where
  pub cursor : ℕ
  pub ready : ℕ
  pub in_flight : List ℕ
  pub returned : ℕ
  pub results : List (ℕ × Settled)

abbrev pub worker_count : ℕ → ℕ → ℕ
worker_count concurrency items = min (max concurrency 1) items

abbrev pub start : ℕ → ℕ → Pool
start concurrency items = record {
  cursor = 0;
  ready = worker_count concurrency items;
  in_flight = [];
  returned = 0;
  results = [];
}

abbrev pub taking : ℕ → Pool → Pool
taking r p = record p { cursor = p.cursor + 1; ready = r; in_flight = p.cursor ∷ p.in_flight }

abbrev pub leaving : ℕ → Pool → Pool
leaving r p = record p { cursor = p.cursor + 1; ready = r; returned = p.returned + 1 }

abbrev pub settling : ℕ → Settled → Pool → Pool
settling i result p = record p {
  ready = p.ready + 1;
  in_flight = remove_first (nat_same i) p.in_flight;
  results = (i, result) ∷ p.results;
}

-- One turn of a runner: it takes the next item, returns where there is none, or its request settles.
pub data Step (items : ℕ) : Pool → Pool → Type 0 where
  take_item : (p : Pool) (r : ℕ) → p.ready ≡ suc r → p.cursor < items → Step items p (taking r p)
  leave : (p : Pool) (r : ℕ) → p.ready ≡ suc r → items ≤ p.cursor → Step items p (leaving r p)
  settle :
      (p : Pool) (i : ℕ) (result : Settled)
      → any (nat_same i) p.in_flight ≡ true
      → Step items p (settling i result p)

pub data Reach (items : ℕ) (p : Pool) : Pool → Type 0 where
  here : Reach items p p
  next : {q r : Pool} → Reach items p q → Step items q r → Reach items p r

-- `Promise.all` ends when every runner has returned.
abbrev pub IsDone : Pool → Type 0
IsDone p = (p.ready ≡ 0) × (p.in_flight ≡ [])

abbrev pub result_at : ℕ → List (ℕ × Settled) → Option Settled
result_at i [] = none
result_at i ((j, r) ∷ rs) = if nat_same i j then some r else result_at i rs

-- The partition of the results in the order of the cameras.
abbrev pub succeeded_from : ℕ → List String → List (ℕ × Settled) → List String
succeeded_from i [] rs = []
succeeded_from i (c ∷ cs) rs = elim (result_at i rs) [
  | some fulfilled ↦ c ∷ succeeded_from (i + 1) cs rs
  | other ↦ succeeded_from (i + 1) cs rs
]

abbrev pub failed_from : ℕ → List String → List (ℕ × Settled) → List (String × String)
failed_from i [] rs = []
failed_from i (c ∷ cs) rs = elim (result_at i rs) [
  | some (rejected message) ↦ (c, message) ∷ failed_from (i + 1) cs rs
  | other ↦ failed_from (i + 1) cs rs
]

-- The filters of the cameras that an action is for.
abbrev pub filter_start_stream_targets : List Camera → List Camera
filter_start_stream_targets cs = keep (λ c. not (status_same c.status online)) cs

abbrev pub filter_stop_stream_targets : List Camera → List Camera
filter_stop_stream_targets cs = keep (λ c. status_same c.status online) cs

abbrev pub filter_start_recording_targets : List Camera → List Camera
filter_start_recording_targets cs = keep (λ c. not c.is_recording) cs

abbrev pub filter_stop_recording_targets : List Camera → List Camera
filter_stop_recording_targets cs = keep (λ c. c.is_recording) cs

abbrev pub filter_enter_maintenance_targets : List Camera → List Camera
filter_enter_maintenance_targets cs = keep (λ c. not c.maintenance_mode) cs

abbrev pub filter_exit_maintenance_targets : List Camera → List Camera
filter_exit_maintenance_targets cs = keep (λ c. c.maintenance_mode) cs
