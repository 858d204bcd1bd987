-- ===== src/Streams/Service/Examples.antt =====
-- A queue as an association list, two cameras, and the theorems at them.
use sms_app.Base.{
  ℕ, String, Bool, true, false, none, some, [], ◌∷◌, ◌≡◌, refl, arith, Dict, lookup, insert, erase,
  lookup-insert, lookup-erase, ◌==◌, eq_refl, string_eq,
}
use sms_app.Camera.{Camera, online}
use sms_app.Streams.Jobs.{ffmpeg_job_id, fallback_profile, build_stream_job_data}
use sms_app.Streams.Service.{Job, restart_cameras}
use sms_app.Streams.Service.Queue.{JobQueue, calls_on, job_of, entry_after, restart_reaches_queue}

abbrev Entries : Type 0
Entries = Dict (Job × Bool)

abbrev add : String → Job → Entries → Entries
add id j q = elim (lookup id q) [ none ↦ insert id (j, false) q | some k ↦ q ]

abbrev remove : String → Entries → Entries
remove id q = elim (lookup id q) [ none ↦ q | some (j, true) ↦ q | some (j, false) ↦ erase id q ]

add_new_lem :
    (id : String) (j : Job) (q : Entries)
    → lookup id q ≡ none
    → lookup id (add id j q) ≡ some (j, false)
add_new_lem id j q h = ground (arith, lookup-insert id id (j, false) q, eq_refl id)

add_taken_lem :
    (id : String) (j : Job) (q : Entries) (k : Job × Bool)
    → lookup id q ≡ some k
    → lookup id (add id j q) ≡ some k
add_taken_lem id j q k h = ground arith

add_other_lem :
    (id other : String) (j : Job) (q : Entries)
    → (other == id) ≡ false
    → lookup other (add id j q) ≡ lookup other q
add_other_lem id other j q h = ground (arith, lookup-insert other id (j, false) q)

remove_waiting_lem :
    (id : String) (q : Entries) (j : Job)
    → lookup id q ≡ some (j, false)
    → lookup id (remove id q) ≡ none
remove_waiting_lem id q j h = ground (arith, lookup-erase id id q, eq_refl id)

remove_locked_lem :
    (id : String) (q : Entries) (j : Job)
    → lookup id q ≡ some (j, true)
    → lookup id (remove id q) ≡ some (j, true)
remove_locked_lem id q j h = ground arith

remove_other_lem :
    (id other : String) (q : Entries)
    → (other == id) ≡ false
    → lookup other (remove id q) ≡ lookup other q
remove_other_lem id other q h = ground (arith, lookup-erase other id q)

abbrev listed : JobQueue
listed = record {
  Queue = Entries;
  get = lookup;
  add = add;
  remove = remove;
  add_new = add_new_lem;
  add_taken = add_taken_lem;
  add_other = add_other_lem;
  remove_waiting = remove_waiting_lem;
  remove_locked = remove_locked_lem;
  remove_other = remove_other_lem;
}

abbrev camera : String → Camera
camera id = record {
  id = id;
  org_id = "o";
  name = "Gate";
  status = online;
  maintenance_mode = false;
  ingest_mode = "pull";
  stream_url = "rtsp://gate.example";
  stream_key = none;
  needs_transcode = true;
  stream_profile = none;
  tags = [];
  is_recording = false;
}

abbrev queued_start : Job
queued_start = record { name = "start"; delay = 0; payload = build_stream_job_data (camera "a") }

abbrev entries : Entries
entries = insert (ffmpeg_job_id "a") (queued_start, false) []

abbrev jitter : String → ℕ
jitter id = 1500

restart_reaches_queue_example :
    lookup (ffmpeg_job_id "a") (
      calls_on listed
        (restart_cameras
          (some fallback_profile)
          (job_of listed entries)
          jitter
          (camera "b" ∷ camera "a" ∷ camera "c" ∷ []))
        entries)
    ≡ entry_after (some fallback_profile) jitter (camera "a") (lookup (ffmpeg_job_id "a") entries)
restart_reaches_queue_example =
    restart_reaches_queue listed (some fallback_profile) jitter (camera "b" ∷ []) (camera "c" ∷ [])
      (camera "a") entries (refl, tt) (refl, tt)
