-- ===== src/Streams/Ffmpeg/Examples.antt =====
-- A process that is stopped and spawned again beside one that dies by itself, and the theorem at it.
use sms_app.Base.{
  set_add, set_remove, false, lookup, ℕ, some, refl, ◌==◌, nat_eq, arith, true, not, List, [], ◌∷◌,
  ◌≡◌, if◌then◌else◌,
}
use sms_app.Streams.Ffmpeg.{
  FfmpegState, Signal, sigterm, sigkill, resolved, rejected, is_running, on_error, on_end,
  start_stream,
}
use mathlib.Core.Option
use sms_app.Streams.Ffmpeg.Exits.{
  act, Act, spawn, stop, started, errored, ended, acts, no_process, gone, life, was_asked, runs,
  counted_exit, exits_follow_life,
}
use sms_app.Streams.Ffmpeg.Restart.{Pauses, graceful_restart, is_settled, graceful_restart_ends}

abbrev stop_and_start : List Act
stop_and_start =
    spawn "a"
    ∷ started 10 "a"
    ∷ spawn "b"
    ∷ stop "a"
    ∷ errored 20 "b"
    ∷ ended 30 "a"
    ∷ spawn "a"
    ∷ []

abbrev then_stopped : FfmpegState
then_stopped = acts stop_and_start no_process

exits_follow_life_example :
    ((on_error 40 "a" then_stopped).0
      ≡ (if was_asked (life "a" stop_and_start gone) then resolved else rejected))
    × (lookup "a" (on_error 40 "a" then_stopped).1.metrics.records ≡ (
        if was_asked (life "a" stop_and_start gone)
        then lookup "a" then_stopped.metrics.records
        else some (counted_exit 40 "a" then_stopped.metrics)))
    × ((on_end 40 "a" then_stopped).0 ≡ resolved)
    × ((on_end 40 "a" then_stopped).1.metrics.records ≡ then_stopped.metrics.records)
    × (is_running "a" (on_error 40 "a" then_stopped).1 ≡ false)
    × (is_running "a" (on_end 40 "a" then_stopped).1 ≡ false)
    × ((start_stream "a" then_stopped).0 ≡ not (runs (life "a" stop_and_start gone)))
exits_follow_life_example = exits_follow_life "a" stop_and_start 40

-- A process that ends during the second pause, and one that does not end.
abbrev slow_end : ℕ → List Act
slow_end i = if i == 1 then ended 250 "a" ∷ [] else []

abbrev with_a : FfmpegState
with_a = acts (spawn "a" ∷ []) no_process

abbrev polled : Pauses
polled = record { takes = λ i. 100; happens = slow_end }

abbrev stuck : Pauses
stuck = record { takes = λ i. 100; happens = λ i. [] }

polled_test :
    graceful_restart 60 polled 5000 "a" 10 with_a
    ≡ some (sigterm "a" ∷ [], acts (spawn "a" ∷ stop "a" ∷ ended 250 "a" ∷ []) no_process)
unfolding graceful_restart acts act set_add set_remove
polled_test = refl

stuck_test :
    Option.map (λ end. end.0) (graceful_restart 60 stuck 5000 "a" 10 with_a)
    ≡ some (sigterm "a" ∷ sigkill "a" ∷ [])
unfolding graceful_restart acts act set_add set_remove
stuck_test = refl

graceful_restart_ends_example :
    (end : List Signal × FfmpegState) × (graceful_restart 301 stuck 300 "a" 10 with_a ≡ some end)
    × (is_settled "a" end ≡ true)
graceful_restart_ends_example = graceful_restart_ends stuck 300 "a" 10 with_a (λ j. omega arith)
