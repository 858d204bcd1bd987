-- ===== src/Cameras/Examples.antt =====
-- Two cameras of an organization with a plan, and the theorems at them.
use sms_app.Base.{
  ℕ, ◌≤◌, String, true, Option, none, some, List, [], ◌∷◌, refl, if◌then◌else◌, ◌==◌, string_eq,
  nat_eq,
}
use sms_app.Camera.{Profile}
use sms_app.Cameras.Service.{Row, NewCamera, Imported, new_row}
use sms_app.Cameras.Limits.{created, imported, handle_all, camera_count}
use sms_app.Cameras.Limits.Plan.{plan_limit_kept}

abbrev pull : String → String → NewCamera
pull name url = record {
  name = name;
  ingest_mode = "pull";
  stream_url = some url;
  description = none;
  tags = [];
  profile_id = none;
}

abbrev push : String → NewCamera
push name = record {
  name = name;
  ingest_mode = "push";
  stream_url = none;
  description = none;
  tags = [];
  profile_id = none;
}

-- The second row repeats the address of the first.
abbrev file : List NewCamera
file = pull "Gate" "rtsp://a" ∷ pull "Door" "rtsp://a" ∷ push "Yard" ∷ []

abbrev ids : ℕ → String
ids i = if i == 0 then "i" else "j"

abbrev keys : ℕ → String
keys i = if i == 0 then "k" else "l"

abbrev gate : Row
gate = new_row "host" "i" "k" "o" "s" none (pull "Gate" "rtsp://a")

abbrev yard : String → Row
yard key = new_row "host" "j" key "o" "s" none (push "Yard")

abbrev after_import : Imported
after_import = record { rows = yard "l" ∷ gate ∷ []; imported = 2; skipped = 1 }

abbrev two_cameras : String → Option ℕ
two_cameras org = some 2

abbrev as_is : String → String
as_is text = text

abbrev no_profiles : Option String → Option Profile
no_profiles id = none

plan_limit_kept_example :
    camera_count "o" (
      handle_all two_cameras as_is as_is as_is no_profiles
        (imported true "host" ids keys "o" "s" none file
          ∷ created true "host" "m" "n" "o" "s" (push "Hall")
          ∷ [])
        [])
    ≤ 2
plan_limit_kept_example = plan_limit_kept two_cameras as_is as_is as_is no_profiles "o" 2 refl (
    imported true "host" ids keys "o" "s" none file
    ∷ created true "host" "m" "n" "o" "s" (push "Hall")
    ∷ [])
