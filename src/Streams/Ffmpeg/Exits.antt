-- ===== src/Streams/Ffmpeg/Exits.antt =====
-- Which exits count as crashes, over any sequence of calls and process events.
use sms_app.Base.{
  ℕ, String, Bool, true, false, not, List, [], ◌∷◌, ◌≡◌, refl, arith, contains, contains-set_add,
  contains-set_remove, if◌then◌else◌, ◌==◌, eq_iff, eq_refl, string_eq, some, lookup, lookup-insert,
  ◌∙◌,
}
use sms_app.Streams.Health.{
  HealthMetrics, HealthRecord, fresh_metrics, exit_record, record_exit, get_or_create_record,
}
use sms_app.Streams.Ffmpeg.{
  FfmpegState, resolved, rejected, is_running, start_stream, on_start, on_error, on_end,
  stop_stream, force_kill,
}

-- A call of the service, or an event of a process.
pub data Act : Type 0 where
  spawn stop kill : String → Act
  started errored ended : ℕ → String → Act

unfoldable pub act : Act → FfmpegState → FfmpegState
unfolding start_stream on_start on_error on_end stop_stream force_kill
act (spawn id) s = (start_stream id s).1
act (stop id) s = (stop_stream id s).1
act (kill id) s = (force_kill id s).1
act (started now id) s = on_start now id s
act (errored now id) s = (on_error now id s).1
act (ended now id) s = (on_end now id s).1

unfoldable pub acts : List Act → FfmpegState → FfmpegState
acts [] s = s
acts (a ∷ rest) s = acts rest (act a s)

abbrev pub no_process : FfmpegState
no_process = record { running_processes = []; intentional_stops = []; metrics = fresh_metrics }

-- A camera's process as the calls and events tell it, with no sets.
pub data Life : Type 0 where
  -- no process; one that nobody asked to stop; one that was asked to
  gone alive asked : Life

abbrev pub live : String → Act → Life → Life
live id (spawn j) gone = if id == j then alive else gone
live id (spawn j) l = l
live id (stop j) alive = if id == j then asked else alive
live id (stop j) l = l
live id (kill j) alive = if id == j then asked else alive
live id (kill j) l = l
live id (started now j) l = l
live id (errored now j) l = if id == j then gone else l
live id (ended now j) l = if id == j then gone else l

abbrev pub life : String → List Act → Life → Life
life id [] l = l
life id (a ∷ rest) l = life id rest (live id a l)

abbrev pub runs : Life → Bool
runs gone = false
runs l = true

abbrev pub was_asked : Life → Bool
was_asked asked = true
was_asked l = false

-- The two sets say of a camera what its life says.
pub record Shows (id : String) (l : Life) (s : FfmpegState) : Type 0 where
  pub running : contains s.running_processes id ≡ runs l
  pub stopping : contains s.intentional_stops id ≡ was_asked l

module _ (id : String) where
  Shows-spawn :
      (j : String) (l : Life) (s : FfmpegState)
      → Shows id l s
      → Shows id (live id (spawn j) l) (act (spawn j) s)
  unfolding act
  Shows-spawn j gone s h =
      unfold is_running in ground (arith, eq_iff id j, contains-set_add id j s.running_processes)
  Shows-spawn j l s h =
      unfold is_running in ground (arith, eq_iff id j, contains-set_add id j s.running_processes)

  Shows-stop :
      (j : String) (l : Life) (s : FfmpegState)
      → Shows id l s
      → Shows id (live id (stop j) l) (act (stop j) s)
  unfolding act
  Shows-stop j alive s h =
      unfold is_running in ground (arith, eq_iff id j, contains-set_add id j s.intentional_stops)
  Shows-stop j l s h =
      unfold is_running in ground (arith, eq_iff id j, contains-set_add id j s.intentional_stops)

  Shows-kill :
      (j : String) (l : Life) (s : FfmpegState)
      → Shows id l s
      → Shows id (live id (kill j) l) (act (kill j) s)
  unfolding act
  Shows-kill j alive s h =
      unfold is_running in ground (arith, eq_iff id j, contains-set_add id j s.intentional_stops)
  Shows-kill j l s h =
      unfold is_running in ground (arith, eq_iff id j, contains-set_add id j s.intentional_stops)

  Shows-act :
      (a : Act) (l : Life) (s : FfmpegState) → Shows id l s → Shows id (live id a l) (act a s)
  unfolding act
  Shows-act (spawn j) l s h = Shows-spawn j l s h
  Shows-act (stop j) l s h = Shows-stop j l s h
  Shows-act (kill j) l s h = Shows-kill j l s h
  Shows-act (started now j) l s h = ground arith
  Shows-act (errored now j) l s h = ground (
    arith,
    eq_iff id j,
    contains-set_remove id j s.running_processes,
    contains-set_remove id j s.intentional_stops,
  )
  Shows-act (ended now j) l s h = ground (
    arith,
    eq_iff id j,
    contains-set_remove id j s.running_processes,
    contains-set_remove id j s.intentional_stops,
  )

  Shows-acts :
      (rest : List Act) (l : Life) (s : FfmpegState)
      → Shows id l s
      → Shows id (life id rest l) (acts rest s)
  unfolding acts
  Shows-acts [] l s h = h
  Shows-acts (a ∷ rest) l s h = Shows-acts rest (live id a l) (act a s) (Shows-act a l s h)

-- The record of a camera after one more exit of a process that nobody asked to stop.
abbrev pub counted_exit : ℕ → String → HealthMetrics → HealthRecord
counted_exit now id m = exit_record now (lookup id m.start_times) (get_or_create_record id m)

recorded_exit :
    (now : ℕ) (id : String) (asked : Bool) (m : HealthMetrics)
    → lookup id (record_exit now id asked m).records
      ≡ (if asked then lookup id m.records else some (counted_exit now id m))
unfolding record_exit get_or_create_record
recorded_exit now id true m = refl
recorded_exit now id false m =
    ground (arith, lookup-insert id id (counted_exit now id m) m.records, eq_refl id)

-- After any calls and process events for any cameras, an error exit of a camera's FFmpeg rejects the
-- promise, so that the job is retried, and adds the exit to the camera's health record, exactly when
-- nobody has asked the process to stop since it was spawned; an ordinary end resolves the promise and
-- leaves the health records as they are. Either leaves the camera no process, and the service spawns one
-- exactly when the camera has none.
pub exits_follow_life :
    (id : String) (history : List Act) (now : ℕ)
    → let s = acts history no_process in
      let l = life id history gone in
      ((on_error now id s).0 ≡ (if was_asked l then resolved else rejected))
      × (lookup id (on_error now id s).1.metrics.records ≡ (
          if was_asked l
          then lookup id s.metrics.records
          else some (counted_exit now id s.metrics)))
      × ((on_end now id s).0 ≡ resolved)
      × ((on_end now id s).1.metrics.records ≡ s.metrics.records)
      × (is_running id (on_error now id s).1 ≡ false)
      × (is_running id (on_end now id s).1 ≡ false)
      × ((start_stream id s).0 ≡ not (runs l))
unfolding on_error on_end start_stream is_running
exits_follow_life id history now =
    let s = acts history no_process in
    let h = Shows-acts id history gone no_process (record { running = refl; stopping = refl }) in
    (
      ground (arith, h),
      recorded_exit now id (contains s.intentional_stops id) s.metrics ∙ rw h.stopping refl,
      refl,
      unfold record_exit in refl,
      ground (arith, contains-set_remove id id s.running_processes, eq_refl id),
      ground (arith, contains-set_remove id id s.running_processes, eq_refl id),
      ground (arith, h),
    )
