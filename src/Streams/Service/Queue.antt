-- ===== src/Streams/Service/Queue.antt =====
-- The jobs that the calls leave in the queue. BullMQ is an interface: what its documentation says of a
-- job id that is taken, of the removal of a job and of one that a worker has locked.
use sms_app.Base.{
  ℕ, String, Bool, true, false, Option, none, some, List, [], ◌∷◌, ◌++◌, ◌≡◌, refl, sym, ◌∙◌, ap,
  arith, All, if◌then◌else◌, ◌==◌, eq_iff, string_eq, Result, ok, err,
}
use sms_app.Camera.{Profile, Camera, is_push_passthrough}
use sms_app.Streams.Jobs.{ffmpeg_job_id}
use sms_app.Streams.Service.{
  Job, Call, remove_job, add_job, job_data_with, remove_if, start_stream, restart_camera,
  restart_cameras, is_active, is_queued, either_row,
}
use text.Mathlib.TextLemmas.{append_cancel_left, append_cancel_right}

pub record JobQueue : Type 1 where
  pub Queue : Type 0
  -- the job under an id, and whether a worker is active on it
  pub get : String → Queue → Option (Job × Bool)
  pub add : String → Job → Queue → Queue
  pub remove : String → Queue → Queue
  pub add_new :
      (id : String) (j : Job) (q : Queue) → get id q ≡ none → get id (add id j q) ≡ some (j, false)
  -- a job id that is taken makes `add` do nothing
  pub add_taken :
      (id : String) (j : Job) (q : Queue) (k : Job × Bool)
      → get id q ≡ some k
      → get id (add id j q) ≡ some k
  pub add_other :
      (id other : String) (j : Job) (q : Queue)
      → (other == id) ≡ false
      → get other (add id j q) ≡ get other q
  pub remove_waiting :
      (id : String) (q : Queue) (j : Job) → get id q ≡ some (j, false) → get id (remove id q) ≡ none
  -- a locked job cannot be removed
  pub remove_locked :
      (id : String) (q : Queue) (j : Job)
      → get id q ≡ some (j, true)
      → get id (remove id q) ≡ some (j, true)
  pub remove_other :
      (id other : String) (q : Queue)
      → (other == id) ≡ false
      → get other (remove id q) ≡ get other q

-- What `getJob`, and `isActive` of its job, answer.
abbrev pub activity : Option (Job × Bool) → Option Bool
activity none = none
activity (some (j, active)) = some active

job_ids_apart : (a b : String) → (a == b) ≡ false → (ffmpeg_job_id a == ffmpeg_job_id b) ≡ false
job_ids_apart a b h = ground (
  arith,
  eq_iff a b,
  eq_iff (ffmpeg_job_id a) (ffmpeg_job_id b),
  λ (e : ffmpeg_job_id a ≡ ffmpeg_job_id b).
      append_cancel_right a b ":ffmpeg" (append_cancel_left "camera:" _ _ e),
)

-- The entry of a camera after its restart: an active job is left, any other gives way.
abbrev pub entry_after :
    Option Profile → (String → ℕ) → Camera → Option (Job × Bool) → Option (Job × Bool)
entry_after profile jitter c entry =
    if is_active (activity entry)
    then entry
    else some
        (record { name = "restart"; delay = jitter c.id; payload = job_data_with profile c }, false)

abbrev pub calls_of : Result (List Call) → List Call
calls_of (ok cs) = cs
calls_of (err e) = []

module _ (jobs : JobQueue) where
  abbrev pub call_on : Call → jobs.Queue → jobs.Queue
  call_on (remove_job id) q = jobs.remove id q
  call_on (add_job id j) q = jobs.add id j q
  call_on c q = q

  abbrev pub calls_on : List Call → jobs.Queue → jobs.Queue
  calls_on [] q = q
  calls_on (c ∷ cs) q = calls_on cs (call_on c q)

  calls_on-append :
      (cs ds : List Call) (q : jobs.Queue) → calls_on (cs ++ ds) q ≡ calls_on ds (calls_on cs q)
  calls_on-append [] ds q = refl
  calls_on-append (c ∷ cs) ds q = calls_on-append cs ds (call_on c q)

  abbrev pub job_of : jobs.Queue → String → Option Bool
  job_of q id = activity (jobs.get (ffmpeg_job_id id) q)

  replace_found :
      (id : String) (j : Job) (q : jobs.Queue) (o : Option (Job × Bool))
      → jobs.get id q ≡ o
      → is_active (activity o) ≡ false
      → jobs.get id (calls_on (remove_if (is_queued (activity o)) id ++ add_job id j ∷ []) q)
        ≡ some (j, false)
  replace_found id j q none h idle = jobs.add_new id j q h
  replace_found id j q (some (k, true)) h idle = ground arith
  replace_found id j q (some (k, false)) h idle =
      jobs.add_new id j (jobs.remove id q) (jobs.remove_waiting id q k h)

  replace_other :
      (id other : String) (queued : Bool) (j : Job) (q : jobs.Queue)
      → (other == id) ≡ false
      → jobs.get other (calls_on (remove_if queued id ++ add_job id j ∷ []) q) ≡ jobs.get other q
  replace_other id other true j q h =
      jobs.add_other id other j (jobs.remove id q) h ∙ jobs.remove_other id other q h
  replace_other id other false j q h = jobs.add_other id other j q h

  restart-other :
      (profile : Option Profile) (job : String → Option Bool) (jitter : String → ℕ) (c : Camera)
      (id : String) (q : jobs.Queue)
      → (id == c.id) ≡ false
      → jobs.get (ffmpeg_job_id id) (calls_on (restart_camera profile job jitter c) q)
        ≡ jobs.get (ffmpeg_job_id id) q
  unfolding restart_camera
  restart-other profile job jitter c id q h = ground (
    arith,
    replace_other (ffmpeg_job_id c.id) (ffmpeg_job_id id) (is_queued (job c.id))
        (record { name = "restart"; delay = jitter c.id; payload = job_data_with profile c }) q
        (job_ids_apart id c.id h),
  )

  restarts-other :
      (profile : Option Profile) (job : String → Option Bool) (jitter : String → ℕ)
      (cs : List Camera) (id : String) (q : jobs.Queue)
      → All (λ c. (id == c.id) ≡ false) cs
      → jobs.get (ffmpeg_job_id id) (calls_on (restart_cameras profile job jitter cs) q)
        ≡ jobs.get (ffmpeg_job_id id) q
  unfolding restart_cameras
  restarts-other profile job jitter [] id q h = refl
  restarts-other profile job jitter (c ∷ cs) id q (p, h) =
      ap (jobs.get (ffmpeg_job_id id)) (
        calls_on-append (restart_camera profile job jitter c)
          (restart_cameras profile job jitter cs) q)
      ∙ restarts-other profile job jitter cs id (calls_on (restart_camera profile job jitter c) q) h
      ∙ restart-other profile job jitter c id q p

  restart-own :
      (profile : Option Profile) (job : String → Option Bool) (jitter : String → ℕ) (c : Camera)
      (q : jobs.Queue)
      → job c.id ≡ job_of q c.id
      → jobs.get (ffmpeg_job_id c.id) (calls_on (restart_camera profile job jitter c) q)
        ≡ entry_after profile jitter c (jobs.get (ffmpeg_job_id c.id) q)
  unfolding restart_camera
  restart-own profile job jitter c q same = ground (
    arith,
    replace_found (ffmpeg_job_id c.id)
        (record { name = "restart"; delay = jitter c.id; payload = job_data_with profile c }) q
        (jobs.get (ffmpeg_job_id c.id) q) refl,
  )

  restart-among :
      (profile : Option Profile) (job : String → Option Bool) (jitter : String → ℕ)
      (before after : List Camera) (c : Camera) (q : jobs.Queue)
      → All (λ d. (c.id == d.id) ≡ false) before
      → All (λ d. (c.id == d.id) ≡ false) after
      → job c.id ≡ job_of q c.id
      → jobs.get
          (ffmpeg_job_id c.id)
          (calls_on (restart_cameras profile job jitter (before ++ c ∷ after)) q)
        ≡ entry_after profile jitter c (jobs.get (ffmpeg_job_id c.id) q)
  unfolding restart_cameras
  restart-among profile job jitter [] after c q hb ha same =
      ap (jobs.get (ffmpeg_job_id c.id)) (
        calls_on-append (restart_camera profile job jitter c)
          (restart_cameras profile job jitter after) q)
      ∙ restarts-other profile job jitter after c.id
          (calls_on (restart_camera profile job jitter c) q) ha
      ∙ restart-own profile job jitter c q same
  restart-among profile job jitter (d ∷ before) after c q (p, hb) ha same =
      let q' = calls_on (restart_camera profile job jitter d) q in
      let kept = restart-other profile job jitter d c.id q p in
      ap (jobs.get (ffmpeg_job_id c.id)) (
        calls_on-append (restart_camera profile job jitter d)
          (restart_cameras profile job jitter (before ++ c ∷ after)) q)
      ∙ restart-among profile job jitter before after c q' hb ha (same ∙ sym (ap activity kept))
      ∙ ap (entry_after profile jitter c) kept

  -- A restart for a changed profile, with the jobs of the queue before the batch and no other camera
  -- of the batch with the same id, leaves under a camera's job id the job that was there if a worker
  -- is active on it, and else one waiting 'restart' job with the new profile and the camera's jitter,
  -- whatever the other cameras of the batch.
  pub restart_reaches_queue :
      (profile : Option Profile) (jitter : String → ℕ) (before after : List Camera) (c : Camera)
      (q : jobs.Queue)
      → All (λ d. (c.id == d.id) ≡ false) before
      → All (λ d. (c.id == d.id) ≡ false) after
      → jobs.get
          (ffmpeg_job_id c.id)
          (calls_on (restart_cameras profile (job_of q) jitter (before ++ c ∷ after)) q)
        ≡ entry_after profile jitter c (jobs.get (ffmpeg_job_id c.id) q)
  restart_reaches_queue profile jitter before after c q hb ha =
      restart-among profile (job_of q) jitter before after c q hb ha refl

  -- A start of a camera that needs FFmpeg, with no active job, leaves under its job id one waiting
  -- 'start' job without delay, with the camera's own profile or else its organization's default, and
  -- leaves the job of every other id as it was; this holds whichever client finds the camera.
  pub start_reaches_queue :
      (c : Camera) (tenant_row system_row : Option Camera) (default_row : Option Profile)
      (q : jobs.Queue) (other : String)
      → either_row tenant_row system_row ≡ some c
      → is_push_passthrough c ≡ false
      → is_active (job_of q c.id) ≡ false
      → (other == ffmpeg_job_id c.id) ≡ false
      → let queued = is_queued (job_of q c.id) in
        let q' = calls_on (calls_of (start_stream tenant_row system_row default_row queued)) q in
        (jobs.get (ffmpeg_job_id c.id) q'
          ≡ some (
            record {
              name = "start";
              delay = 0;
              payload = job_data_with (either_row c.stream_profile default_row) c;
            },
            false,
          ))
        × (jobs.get other q' ≡ jobs.get other q)
  unfolding start_stream
  start_reaches_queue c tenant_row system_row default_row q other row needed idle apart =
      let j : Job = record {
        name = "start";
        delay = 0;
        payload = job_data_with (either_row c.stream_profile default_row) c;
      } in
      rw row (
        rw needed (
          replace_found (ffmpeg_job_id c.id) j q (jobs.get (ffmpeg_job_id c.id) q) refl idle,
          replace_other (ffmpeg_job_id c.id) other (is_queued (job_of q c.id)) j q apart,
        ))
