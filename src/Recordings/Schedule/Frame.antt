-- ===== src/Recordings/Schedule/Frame.antt =====
-- What the schedules leave alone: the rows of other cameras, the segments, and that the tables are
-- reached by starts and stops.
use sms_app.Base.{
  ℕ, String, Bool, true, false, not, ◌&&◌, Option, none, some, List, [], ◌∷◌, ◌++◌, ◌≡◌, refl, ◌∙◌,
  arith, ◌==◌, string_eq, find, All, Result-cases, Option-cases, Bool-cases, inl, inr,
}
use sms_app.Camera.{Camera, online, status_eq}
use sms_app.Recordings.Service.{
  Store, is_camera, is_active_for, start_recording, stop_recording, start_checks,
}
use sms_app.Recordings.Service.Flag.{Reaches, next, started, stopped}
use sms_app.Recordings.Service.Operations.{
  start_refused, start_done, stop_refused, stop_done, find-with_flag_other,
}
use sms_app.Recordings.Schedule.{
  Schedule, Run, is_skipped, should_be_recording, act_on, apply_schedule, process,
}

module _ (limit_gb : Option ℕ) (bucket_ok : Bool) (id camera org : String) (s : Store) where
  start-other :
      (j : String)
      → (j == camera) ≡ false
      → find (is_camera j) (start_recording limit_gb bucket_ok id camera org s).0.cameras
        ≡ find (is_camera j) s.cameras
  start-other j h = elim (Result-cases (start_checks limit_gb camera org s)) [
    | inl (e, f) ↦ rw (start_refused limit_gb bucket_ok id camera org s e f)
    | inr (u, f) ↦
        rw (start_done limit_gb bucket_ok id camera org s u f)
          (find-with_flag_other true camera j s h)
  ]

  start-segments : (start_recording limit_gb bucket_ok id camera org s).0.segments ≡ s.segments
  start-segments = elim (Result-cases (start_checks limit_gb camera org s)) [
    | inl (e, f) ↦ rw (start_refused limit_gb bucket_ok id camera org s e f)
    | inr (u, f) ↦ rw (start_done limit_gb bucket_ok id camera org s u f)
  ]

module _ (now : ℕ) (camera org : String) (s : Store) where
  stop-other :
      (j : String)
      → (j == camera) ≡ false
      → find (is_camera j) (stop_recording now camera org s).0.cameras
        ≡ find (is_camera j) s.cameras
  stop-other j h = elim (Option-cases (find (is_active_for camera org) s.recordings)) [
    | inl f ↦ rw (stop_refused now camera org s f)
    | inr (r, f) ↦ rw (stop_done now camera org s r f) (find-with_flag_other false camera j s h)
  ]

  stop-segments : (stop_recording now camera org s).0.segments ≡ s.segments
  stop-segments = elim (Option-cases (find (is_active_for camera org) s.recordings)) [
    | inl f ↦ rw (stop_refused now camera org s f)
    | inr (r, f) ↦ rw (stop_done now camera org s r f)
  ]

module _ (run : Run) (sch : Schedule) where
  -- A schedule of another camera leaves the camera's row, and no schedule touches the segments.
  act_on-other :
      (row : Option Camera) (s : Store) (j : String)
      → (j == sch.camera_id) ≡ false
      → find (is_camera j) (act_on run sch row s).cameras ≡ find (is_camera j) s.cameras
  unfolding act_on
  act_on-other none s j h = refl
  act_on-other (some c) s j h = ground (
    arith,
    start-other (run.limit_gb sch.org_id) (run.bucket_ok sch.org_id) (run.new_id sch.camera_id)
        sch.camera_id sch.org_id s j h,
    stop-other run.now sch.camera_id sch.org_id s j h,
  )

  act_on-segments : (row : Option Camera) (s : Store) → (act_on run sch row s).segments ≡ s.segments
  unfolding act_on
  act_on-segments none s = refl
  act_on-segments (some c) s = ground (
    arith,
    start-segments (run.limit_gb sch.org_id) (run.bucket_ok sch.org_id) (run.new_id sch.camera_id)
        sch.camera_id sch.org_id s,
    stop-segments run.now sch.camera_id sch.org_id s,
  )

  act_on-Reaches :
      (row : Option Camera) (b s : Store) → Reaches b s → Reaches b (act_on run sch row s)
  unfolding act_on
  act_on-Reaches none b s r = r
  act_on-Reaches (some c) b s r =
      elim (Bool-cases
        (should_be_recording run.time sch && (not c.is_recording && c.status == online))) [
          | inl e ↦ rw e (next s _ r (started _ _ _ _ _ s))
          | inr e ↦
              rw e (elim (Bool-cases (not (should_be_recording run.time sch) && c.is_recording)) [
                | inl f ↦ rw f (next s _ r (stopped _ _ _ s))
                | inr f ↦ rw f r
              ])
        ]

  pub apply_schedule-other :
      (s : Store) (j : String)
      → (j == sch.camera_id) ≡ false
      → find (is_camera j) (apply_schedule run sch s).cameras ≡ find (is_camera j) s.cameras
  unfolding apply_schedule
  apply_schedule-other s j h =
      ground (arith, act_on-other (find (is_camera sch.camera_id) s.cameras) s j h)

  pub apply_schedule-segments : (s : Store) → (apply_schedule run sch s).segments ≡ s.segments
  unfolding apply_schedule
  apply_schedule-segments s =
      ground (arith, act_on-segments (find (is_camera sch.camera_id) s.cameras) s)

  pub apply_schedule-Reaches : (b s : Store) → Reaches b s → Reaches b (apply_schedule run sch s)
  unfolding apply_schedule
  apply_schedule-Reaches b s r = elim (Bool-cases (is_skipped run sch)) [
    | inl e ↦ rw e r
    | inr e ↦ rw e (act_on-Reaches (find (is_camera sch.camera_id) s.cameras) b s r)
  ]

module _ (run : Run) where
  pub process-append :
      (xs ys : List Schedule) (s : Store)
      → process run (xs ++ ys) s ≡ process run ys (process run xs s)
  unfolding process
  process-append [] ys s = refl
  process-append (x ∷ xs) ys s = process-append xs ys (apply_schedule run x s)

  pub process-other :
      (xs : List Schedule) (s : Store) (id : String)
      → All (λ x. (id == x.camera_id) ≡ false) xs
      → find (is_camera id) (process run xs s).cameras ≡ find (is_camera id) s.cameras
  unfolding process
  process-other [] s id a = refl
  process-other (x ∷ xs) s id (h, a) =
      process-other xs (apply_schedule run x s) id a ∙ apply_schedule-other run x s id h

  pub process-segments : (xs : List Schedule) (s : Store) → (process run xs s).segments ≡ s.segments
  unfolding process
  process-segments [] s = refl
  process-segments (x ∷ xs) s =
      process-segments xs (apply_schedule run x s) ∙ apply_schedule-segments run x s

  pub process-Reaches :
      (xs : List Schedule) (b s : Store) → Reaches b s → Reaches b (process run xs s)
  unfolding process
  process-Reaches [] b s r = r
  process-Reaches (x ∷ xs) b s r =
      process-Reaches xs b (apply_schedule run x s) (apply_schedule-Reaches run x b s r)
