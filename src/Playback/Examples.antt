-- ===== src/Playback/Examples.antt =====
-- A session of one camera, viewers that come and go, and the theorems at them.
use sms_app.Base.{
  ◌≤◌, String, true, false, ◌&&◌, Option, none, some, List, [], ◌∷◌, ◌≡◌, refl, arith,
  if◌then◌else◌, ◌==◌, lookup, string_eq,
}
use sms_app.Camera.{Camera, online}
use sms_app.Policies.{ResolvedPolicy, system}
use sms_app.Status.{get_viewer_count}
use sms_app.Playback.{Session, Bases, signed_session, viewer_base, create_session, verify_token}
use sms_app.Playback.Callbacks.{live, PlayBody}
use sms_app.Playback.Grants.{token_is_bound}
use sms_app.Playback.Limits.{Event, play, stop, run, viewers_within_limit}
use sms_app.Playback.Tokens.{written}

abbrev gate_id : String
gate_id = "gate"

abbrev org_id : String
org_id = "o"

abbrev gate : Camera
gate = record {
  id = "gate";
  org_id = "o";
  name = "Gate";
  status = online;
  maintenance_mode = false;
  ingest_mode = "pull";
  stream_url = "rtsp://gate.example";
  stream_key = none;
  needs_transcode = true;
  stream_profile = none;
  tags = [];
  is_recording = false;
}

abbrev policy : ResolvedPolicy
policy = record {
  ttl_seconds = record { value = 60; source = system };
  max_viewers = record { value = 2; source = system };
  domains = record { value = []; source = system };
  allow_no_referer = record { value = true; source = system };
}

abbrev bases : Bases
bases = record { edge = none; public_base = none; srs_host = some "srs" }

abbrev session : Session
session = signed_session written 5000 "s1" "gate" "o" (viewer_base bases) policy

abbrev find_session : String → String → String → Option Session
find_session id org camera = if id == "s1" && org == "o" then some session else none

token_is_bound_example :
    verify_token written 64000 find_session session.token "gate" "o"
    ≡ (if gate_id == gate_id && org_id == org_id then find_session "s1" "o" "gate" else none)
unfolding create_session signed_session get_viewer_count lookup
token_is_bound_example =
    token_is_bound written 5000 64000 bases (some gate) policy [] "s1" "gate" "o" session
      find_session "gate" "o" refl (omega arith)

abbrev body : PlayBody
body = record { stream = live (some ("o", "gate")); token = some session.token; page_url = none }

abbrev viewers : List Event
viewers = play 6000 body ∷ play 7000 body ∷ play 8000 body ∷ stop (live (some ("o", "gate"))) ∷ []

abbrev host_of : String → Option String
host_of url = some url

limited_lem :
    (sub org : String) (s : Session)
    → find_session sub org "gate" ≡ some s
    → (1 ≤ s.max_viewers) × (s.max_viewers ≤ 2)
unfolding signed_session
limited_lem sub org s h = ground arith

viewers_within_limit_example :
    get_viewer_count "gate" (run written find_session host_of viewers []) ≤ 2
viewers_within_limit_example =
    viewers_within_limit written find_session host_of "gate" 2 viewers limited_lem
