-- ===== src/Resilience/Restart.antt =====
-- When the restart detector fires, and which cameras the recoveries start.
use sms_app.Base.{
  ℕ, zero, suc, String, Bool, true, Option, none, some, List, [], ◌∷◌, ◌++◌, ◌≡◌, arith, keep,
  if◌then◌else◌, ◌==◌, string_eq,
}
use sms_app.Camera.{Status, other, status_eq, Camera}
use sms_app.Resilience.{
  Call, DetectorState, detect_and_handle, restart_cameras, survives_restart, should_run,
}

abbrev pub fresh_detector : DetectorState
fresh_detector = record { last_server_id = none; first_tick = true }

-- The instance ids that the ticks read, the failed ones left out.
abbrev pub present : List (Option String) → List String
present [] = []
present (none ∷ answers) = present answers
present (some id ∷ answers) = id ∷ present answers

-- How often an id differs from the one before it.
abbrev pub changes_from : String → List String → ℕ
changes_from last [] = 0
changes_from last (id ∷ ids) =
    let rest = changes_from id ids in if last == id then rest else suc rest

abbrev pub changes : List String → ℕ
changes [] = 0
changes (id ∷ ids) = changes_from id ids

abbrev pub repeated {ℓ} : {A : Type ℓ} → ℕ → List A → List A
repeated zero xs = []
repeated (suc n) xs = xs ++ repeated n xs

module _ (is_running : String → Bool) (jitter : String → ℕ) (table : List Camera) where
  -- The calls of a sequence of ticks.
  abbrev pub run_detector : List (Option String) → DetectorState → List Call
  run_detector [] d = []
  run_detector (answer ∷ answers) d =
      let (calls, d') = detect_and_handle is_running jitter table answer d in
      calls ++ run_detector answers d'

  restarts : ℕ → List Call
  restarts n = repeated n (restart_cameras is_running jitter (keep survives_restart table))

-- A status that the source writes.
abbrev pub IsKnown : Status → Type 0
IsKnown (other s) = ⊥
IsKnown s = Unit

-- The boot recovery, the health tick and the restart detector agree on the cameras that should be
-- running, for every status that the source writes.
pub should_run-survives_restart :
    (c : Camera) → IsKnown c.status → should_run c ≡ survives_restart c
should_run-survives_restart c h = ground arith
