-- ===== src/Streams/Ffmpeg/Restart.antt =====
-- `gracefulRestart` of apps/api/src/streams/ffmpeg/ffmpeg.service.ts: the polling loop that waits for a
-- process to end. What happens during a pause is a list of calls and events, and how long it takes is
-- the clock's: both are arguments, by the number of the pause.
use sms_app.Base.{
  ℕ, zero, suc, ◌+◌, ◌≤◌, String, Bool, true, false, not, ◌||◌, Option, none, some, List, [], ◌∷◌,
  ◌++◌, ◌≡◌, refl, arith, if◌then◌else◌, ◌==◌, string_eq, eq_refl, ltb, any, Bool-cases, inl, inr,
}
use sms_app.Streams.Ffmpeg.{
  FfmpegState, Signal, sigterm, sigkill, is_running, stop_stream, force_kill,
}
use sms_app.Streams.Ffmpeg.Exits.{Act, acts}

-- What the clock and the other callers do during the pauses.
pub record Pauses : Type 0 where
  pub takes : ℕ → ℕ
  pub happens : ℕ → List Act

-- The `while` loop with fuel, `none` where the fuel ran out: the signals sent and the state at the end.
-- `i` is the number of the next pause.
unfoldable pub poll :
    ℕ → Pauses → ℕ → String → ℕ → ℕ → FfmpegState → Option (List Signal × FfmpegState)
unfolding force_kill
poll zero p deadline id i now s = none
poll (suc fuel) p deadline id i now s =
    let rest = poll fuel p deadline id (suc i) (now + p.takes i) (acts (p.happens i) s) in
    if not (ltb now deadline)
    then some (force_kill id s)
    else if not (is_running id s)
    then some ([], s)
    else rest

abbrev after_signals :
    List Signal → Option (List Signal × FfmpegState) → Option (List Signal × FfmpegState)
after_signals sent none = none
after_signals sent (some (more, s)) = some (sent ++ more, s)

-- The grace period is 5000 ms unless the caller gives another.
unfoldable pub graceful_restart :
    ℕ → Pauses → ℕ → String → ℕ → FfmpegState → Option (List Signal × FfmpegState)
unfolding poll stop_stream
graceful_restart fuel p grace_ms id now s =
    if not (is_running id s)
    then some ([], s)
    else after_signals (stop_stream id s).0
        (poll fuel p (now + grace_ms) id 0 now (stop_stream id s).1)

abbrev is_kill_of : String → Signal → Bool
is_kill_of id (sigterm other) = false
is_kill_of id (sigkill other) = other == id

-- The process is gone, or it has been killed.
abbrev pub is_settled : String → List Signal × FfmpegState → Bool
is_settled id (sent, s) = not (is_running id s) || any (is_kill_of id) sent

force_kill-settled : (id : String) (s : FfmpegState) → is_settled id (force_kill id s) ≡ true
unfolding force_kill
force_kill-settled id s = ground (arith, eq_refl id)

-- How a poll ends: a value, which is settled.
abbrev Ends : String → Option (List Signal × FfmpegState) → Type 0
Ends id result =
    (end : List Signal × FfmpegState) × (result ≡ some end) × (is_settled id end ≡ true)

poll_late :
    (fuel : ℕ) (p : Pauses) (deadline : ℕ) (id : String) (i now : ℕ) (s : FfmpegState)
    → ltb now deadline ≡ false
    → Ends id (poll (suc fuel) p deadline id i now s)
unfolding poll
poll_late fuel p deadline id i now s late = (force_kill id s, rw late, force_kill-settled id s)

poll_gone :
    (fuel : ℕ) (p : Pauses) (deadline : ℕ) (id : String) (i now : ℕ) (s : FfmpegState)
    → ltb now deadline ≡ true
    → is_running id s ≡ false
    → Ends id (poll (suc fuel) p deadline id i now s)
unfolding poll
poll_gone fuel p deadline id i now s early gone = (([], s), rw (early, gone), rw gone)

poll_running :
    (fuel : ℕ) (p : Pauses) (deadline : ℕ) (id : String) (i now : ℕ) (s : FfmpegState)
    → ltb now deadline ≡ true
    → is_running id s ≡ true
    → poll (suc fuel) p deadline id i now s
      ≡ poll fuel p deadline id (suc i) (now + p.takes i) (acts (p.happens i) s)
unfolding poll
poll_running fuel p deadline id i now s early running = rw (early, running)

-- A pause for each millisecond of the grace period is enough, as each takes one at least.
poll_total :
    (fuel : ℕ) (p : Pauses) (deadline : ℕ) (id : String) (i now : ℕ) (s : FfmpegState)
    → ((j : ℕ) → 1 ≤ p.takes j)
    → deadline ≤ now + fuel
    → Ends id (poll (suc fuel) p deadline id i now s)
poll_total zero p deadline id i now s h f = poll_late 0 p deadline id i now s (ground arith)
poll_total (suc fuel) p deadline id i now s h f = elim (Bool-cases (ltb now deadline)) [
  | inr late ↦ poll_late (suc fuel) p deadline id i now s late
  | inl early ↦ elim (Bool-cases (is_running id s)) [
    | inr gone ↦ poll_gone (suc fuel) p deadline id i now s early gone
    | inl running ↦ rw (poll_running (suc fuel) p deadline id i now s early running) (
        poll_total fuel p deadline id (suc i) (now + p.takes i) (acts (p.happens i) s) h
          (omega (arith, h i)))
  ]
]

any-append : (q : Signal → Bool) (xs ys : List Signal) → any q ys ≡ true → any q (xs ++ ys) ≡ true
any-append q [] ys h = h
any-append q (x ∷ xs) ys h = ground (arith, any-append q xs ys h)

settled_after :
    (id : String) (sent more : List Signal) (s : FfmpegState)
    → is_settled id (more, s) ≡ true
    → is_settled id (sent ++ more, s) ≡ true
settled_after id sent more s h = ground (arith, any-append (is_kill_of id) sent more)

Ends-after_signals :
    (id : String) (sent : List Signal) (r : Option (List Signal × FfmpegState))
    → Ends id r
    → Ends id (after_signals sent r)
Ends-after_signals id sent none (end, e, settled) = (end, ground arith, settled)
Ends-after_signals id sent (some (more, s)) (end, e, settled) =
    ((sent ++ more, s), refl, settled_after id sent more s (ground arith))

restart_running :
    (fuel : ℕ) (p : Pauses) (grace_ms : ℕ) (id : String) (now : ℕ) (s : FfmpegState)
    → is_running id s ≡ true
    → graceful_restart fuel p grace_ms id now s
      ≡ after_signals
          (stop_stream id s).0
          (poll fuel p (now + grace_ms) id 0 now (stop_stream id s).1)
unfolding graceful_restart
restart_running fuel p grace_ms id now s running = rw running

restart_gone :
    (fuel : ℕ) (p : Pauses) (grace_ms : ℕ) (id : String) (now : ℕ) (s : FfmpegState)
    → is_running id s ≡ false
    → graceful_restart fuel p grace_ms id now s ≡ some ([], s)
unfolding graceful_restart
restart_gone fuel p grace_ms id now s gone = rw gone

-- `gracefulRestart` ends whatever happens during its pauses, if each of them takes a millisecond at
-- least: with one more round than the grace period has milliseconds it answers. At its end the camera's
-- process is gone, or it has been killed.
pub graceful_restart_ends :
    (p : Pauses) (grace_ms : ℕ) (id : String) (now : ℕ) (s : FfmpegState)
    → ((j : ℕ) → 1 ≤ p.takes j)
    → (end : List Signal × FfmpegState) × (graceful_restart (suc grace_ms) p grace_ms id now s
        ≡ some end)
      × (is_settled id end ≡ true)
graceful_restart_ends p grace_ms id now s h = elim (Bool-cases (is_running id s)) [
  | inr gone ↦ (([], s), restart_gone (suc grace_ms) p grace_ms id now s gone, rw gone)
  | inl running ↦ rw (restart_running (suc grace_ms) p grace_ms id now s running) (
      Ends-after_signals id (stop_stream id s).0
        (poll (suc grace_ms) p (now + grace_ms) id 0 now (stop_stream id s).1)
        (poll_total grace_ms p (now + grace_ms) id 0 now (stop_stream id s).1 h (omega arith)))
]
