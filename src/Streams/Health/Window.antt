-- ===== src/Streams/Health/Window.antt =====
-- The crash-loop verdict against the whole history of a camera.
use sms_app.Base.{
  ℕ, ◌≤◌, String, false, Option, none, some, List, [], ◌∷◌, ◌++◌, ◌≡◌, refl, ap, ◌∙◌, sym, arith,
  ltb, if◌then◌else◌, ◌==◌, eq_iff, string_eq, length, keep, keep-keep, keep-append, append_assoc,
  append-nil, lookup, All, All-append,
}
use sms_app.Streams.Health.{
  HealthMetrics, fresh_metrics, crash_window_ms, crash_loop_threshold, within, is_fast_exit,
  exit_record, get_or_create_record, is_in_crash_loop, transition_record,
}
use sms_app.Streams.Health.Camera.{
  Event, start, exit, moved, mark, read_tolerance, bump, read_snapshot, run, View, view, step,
  steps, view-run,
}

abbrev pub time_of : Event → ℕ
time_of (start now j) = now
time_of (exit now j i) = now
time_of (moved now j from to) = now
time_of (mark now j) = now
time_of (read_tolerance now j) = now
time_of (bump j) = 0
time_of (read_snapshot now) = now

-- When FFmpeg of camera `id` was last started and has not exited, after a call.
abbrev pub started_after : String → Event → Option ℕ → Option ℕ
started_after id (start now j) started = if id == j then some now else started
started_after id (exit now j intentional) started = if id == j then none else started
started_after id e started = started

-- The fast exit that a call reports, if it does: not asked for, and within 10 s of its start.
abbrev pub fast_exit_of : String → Event → Option ℕ → List ℕ
fast_exit_of id (exit now j intentional) started =
    if id == j
    then (if intentional then [] else if is_fast_exit now started then now ∷ [] else [])
    else []
fast_exit_of id e started = []

-- The times of all fast exits of a camera in a history of calls, with no window.
abbrev pub fast_exits_of : String → List Event → Option ℕ → List ℕ
fast_exits_of id [] started = []
fast_exits_of id (e ∷ es) started =
    fast_exit_of id e started ++ fast_exits_of id es (started_after id e started)

step-started :
    (id : String) (e : Event) (v : View) → (step id e v).started ≡ started_after id e v.started
unfolding step
step-started id (start now j) v = ground arith
step-started id (exit now j i) v = ground arith
step-started id (moved now j from to) v = ground arith
step-started id (mark now j) v = ground arith
step-started id (read_tolerance now j) v = ground arith
step-started id (bump j) v = ground arith
step-started id (read_snapshot now) v = ground arith

keep-within :
    (now t : ℕ) (xs : List ℕ)
    → t ≤ now
    → keep (within crash_window_ms now) (keep (within crash_window_ms t) xs)
      ≡ keep (within crash_window_ms now) xs
keep-within now t xs h =
    keep-keep (within crash_window_ms now) (within crash_window_ms t) xs (λ x e. ground arith)

-- What the window of time `now` shows of a record, and what a call adds to it.
abbrev shown : ℕ → View → List ℕ
shown now v = keep (within crash_window_ms now) v.health.fast_exits

shown-step :
    (now : ℕ) (id : String) (e : Event) (v : View)
    → time_of e ≤ now
    → shown now (step id e v)
      ≡ keep (within crash_window_ms now) (v.health.fast_exits ++ fast_exit_of id e v.started)
unfolding step
shown-step now id (exit t j i) v h =
    unfold exit_record in
    ground (
      arith,
      append-nil v.health.fast_exits,
      keep-within now t (v.health.fast_exits ++ t ∷ []) h,
      keep-within now t v.health.fast_exits h,
    )
shown-step now id (moved t j from to) v h =
    unfold transition_record in ground (arith, append-nil v.health.fast_exits)
shown-step now id (read_snapshot t) v h =
    ground (arith, append-nil v.health.fast_exits, keep-within now t v.health.fast_exits h)
shown-step now id e v h = ground (arith, append-nil v.health.fast_exits)

shown-steps :
    (now : ℕ) (id : String) (es : List Event) (v : View)
    → All (λ e. time_of e ≤ now) es
    → shown now (steps id es v)
      ≡ keep (within crash_window_ms now) (v.health.fast_exits ++ fast_exits_of id es v.started)
unfolding steps
shown-steps now id [] v h = rw append-nil
shown-steps now id (e ∷ es) v (p, h) =
    let w = step id e v in
    let news = fast_exit_of id e v.started in
    let later = fast_exits_of id es (started_after id e v.started) in
    shown-steps now id es w h
    ∙ ap (λ x. keep (within crash_window_ms now) (w.health.fast_exits ++ fast_exits_of id es x))
        (step-started id e v)
    ∙ keep-append (within crash_window_ms now) w.health.fast_exits later
    ∙ ap (λ x. x ++ keep (within crash_window_ms now) later) (shown-step now id e v p)
    ∙ sym (keep-append (within crash_window_ms now) (v.health.fast_exits ++ news) later)
    ∙ ap (keep (within crash_window_ms now)) (append_assoc v.health.fast_exits news later)

-- The times of the fast exits of camera `id` in the 10 minutes up to `now`.
abbrev pub recent_fast_exits : ℕ → String → List Event → List ℕ
recent_fast_exits now id es = keep (within crash_window_ms now) (fast_exits_of id es none)

verdict-of-view :
    (id : String) (m : HealthMetrics)
    → is_in_crash_loop id m ≡ ltb crash_loop_threshold (length (view id m).health.fast_exits)
unfolding is_in_crash_loop view get_or_create_record
verdict-of-view id m = ground arith

steps-concat :
    (id : String) (es : List Event) (e : Event) (v : View)
    → steps id (es ++ e ∷ []) v ≡ step id e (steps id es v)
unfolding steps
steps-concat id [] e v = refl
steps-concat id (d ∷ es) e v = steps-concat id es e (step id d v)

-- An exit that was not asked for leaves no fast exit outside the window.
step-exit-shown :
    (now : ℕ) (id : String) (v : View)
    → (step id (exit now id false) v).health.fast_exits ≡ shown now (step id (exit now id false) v)
unfolding step exit_record
step-exit-shown now id v = ground (
  arith,
  eq_iff id id,
  keep-within now now (v.health.fast_exits ++ now ∷ []),
  keep-within now now v.health.fast_exits,
)

-- Right after an exit of a camera's FFmpeg that was not asked for, whatever calls for whatever
-- cameras came before it, none of them later, the crash-loop verdict says whether the camera has had
-- more than 5 fast exits (within 10 s of their start, not asked for) in the last 10 minutes.
pub crash_loop_verdict :
    (now : ℕ) (id : String) (es : List Event)
    → All (λ e. time_of e ≤ now) es
    → let history = es ++ exit now id false ∷ [] in
      is_in_crash_loop id (run history fresh_metrics)
      ≡ ltb crash_loop_threshold (length (recent_fast_exits now id history))
unfolding view lookup get_or_create_record
crash_loop_verdict now id es h =
    let last = exit now id false in
    let history = es ++ last ∷ [] in
    let v = view id fresh_metrics in
    let verdict = λ (x : List ℕ). ltb crash_loop_threshold (length x) in
    verdict-of-view id (run history fresh_metrics)
    ∙ ap (λ (w : View). verdict w.health.fast_exits)
        (view-run id history fresh_metrics ∙ steps-concat id es last v)
    ∙ ap verdict (step-exit-shown now id (steps id es v))
    ∙ ap (λ (w : View). verdict (shown now w)) (sym (steps-concat id es last v))
    ∙ ap verdict (
        shown-steps now id history v
          (All-append (λ e. time_of e ≤ now) es (last ∷ []) h (omega arith, tt)))
