-- ===== src/Streams/Health/Examples.antt =====
-- A crash loop of one camera beside another, and the theorems at it.
use sms_app.Base.{true, false, List, [], ◌∷◌, ◌++◌, ◌≡◌, arith, ltb, length}
use sms_app.Camera.{reconnecting, degraded}
use sms_app.Streams.Health.{fresh_metrics, is_in_crash_loop, crash_loop_threshold}
use sms_app.Streams.Health.Camera.{
  Event, start, exit, moved, mark, bump, read_snapshot, run, view, steps, view-run,
}
use sms_app.Streams.Health.Window.{recent_fast_exits, crash_loop_verdict}

abbrev flapping : List Event
flapping =
    start 1000 "a"
    ∷ exit 2000 "a" false
    ∷ start 3000 "b"
    ∷ start 4000 "a"
    ∷ exit 4500 "a" false
    ∷ exit 5000 "b" true
    ∷ bump "a"
    ∷ read_snapshot 6000
    ∷ mark 6500 "a"
    ∷ moved 7000 "a" reconnecting degraded
    ∷ start 8000 "a"
    ∷ []

view-run_example :
    view "a" (run flapping fresh_metrics) ≡ steps "a" flapping (view "a" fresh_metrics)
view-run_example = view-run "a" flapping fresh_metrics

crash_loop_verdict_example :
    let history = flapping ++ exit 9000 "a" false ∷ [] in
    is_in_crash_loop "a" (run history fresh_metrics)
    ≡ ltb crash_loop_threshold (length (recent_fast_exits 9000 "a" history))
crash_loop_verdict_example = crash_loop_verdict 9000 "a" flapping (omega arith)
