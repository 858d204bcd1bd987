-- ===== src/Streams/Profiles/Examples.antt =====
-- Two organizations with their profiles, and the theorems at them.
use sms_app.Base.{
  ◌≤◌, String, Bool, true, false, none, some, List, [], ◌∷◌, ◌≡◌, refl, if◌then◌else◌, ◌==◌, nat_eq,
}
use sms_app.Streams.Jobs.{fallback_profile}
use sms_app.Streams.Profiles.{
  CreateProfile, UpdateProfile, clear_default, new_row, Request, created, updated, deleted,
  handle_all,
}
use sms_app.Streams.Profiles.Counts.{profile_count, default_count}
use sms_app.Streams.Profiles.Default.{at_most_one_default, one_default}

abbrev profile : String → Bool → CreateProfile
profile name default = record { name = name; settings = fallback_profile; is_default = default }

abbrev set_default : Bool → UpdateProfile
set_default b = record {
  name = none;
  codec = none;
  preset = none;
  resolution = none;
  fps = none;
  video_bitrate = none;
  audio_codec = none;
  audio_bitrate = none;
  is_default = some b;
}

abbrev requests : List Request
requests =
    created "a" "o" (profile "Low" false)
    ∷ created "b" "o" (profile "High" true)
    ∷ created "c" "p" (profile "Low" false)
    ∷ updated "a" (set_default true)
    ∷ deleted "a" []
    ∷ deleted "b" []
    ∷ []

-- The default stays, and the other profile is deleted.
requests_test :
    handle_all requests []
    ≡ new_row "c" "p" (profile "Low" false) true ∷ new_row "a" "o" (profile "Low" false) true ∷ []
unfolding handle_all clear_default
requests_test = refl

at_most_one_default_example : default_count "o" (handle_all requests []) ≤ 1
at_most_one_default_example = at_most_one_default requests "o"

one_default_example :
    default_count "o" (handle_all requests [])
    ≡ (if profile_count "o" (handle_all requests []) == 0 then 0 else 1)
one_default_example = one_default requests "o" (refl, (refl, (refl, (refl, (refl, (refl, tt))))))
