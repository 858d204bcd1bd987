-- ===== src/Playback/Callbacks.antt =====
-- The playback hooks of apps/api/src/srs/srs-callback.controller.ts: `onPlay`, `onStop` and `onForward`.
use sms_app.Base.{
  ℕ, String, not, ◌||◌, Option, none, some, List, [], ◌∷◌, if◌then◌else◌, ◌==◌, string_eq,
}
use sms_app.Camera.{Camera, truthy}
use sms_app.Status.{ViewerCounts, get_viewer_count, increment_viewers, decrement_viewers}
use sms_app.Streams.Jobs.{text_or_empty}
use Prim.Native.String
use sms_app.Playback.{Jwt, Session, is_full, verify_token, match_domain}

-- What a stream key stands for.
pub data Parsed : Type 0 where
  push : String → Parsed
  live : Option (String × String) → Parsed

-- The body of an `on_play` callback, its `param` as the token that it holds.
pub record PlayBody : Type 0 where
  pub stream : Parsed
  pub token : Option String
  pub page_url : Option String

-- What `onPlay` and `onStop` answer, the viewer count that they broadcast, and the new counts.
pub record Reply : Type 0 where
  pub code : ℕ
  pub broadcast : Option (String × String × ℕ)
  pub counts : ViewerCounts

abbrev pub reply : ℕ → ViewerCounts → Reply
reply code counts = record { code = code; broadcast = none; counts = counts }

abbrev pub counted : String → String → ℕ × ViewerCounts → Reply
counted org_id camera_id (count, counts) = record {
  code = 0;
  broadcast = some (org_id, camera_id, count);
  counts = counts;
}

-- From the verified session on.
unfoldable pub admit_viewer :
    (String → Option String) → Session → Option String → String → String → ViewerCounts → Reply
unfolding match_domain
admit_viewer host_of s page_url org_id camera_id counts =
    if not (match_domain host_of page_url s.domains s.allow_no_referer)
    then reply 403 counts
    else if is_full s.max_viewers (get_viewer_count camera_id counts)
    then reply 403 counts
    else counted org_id camera_id (increment_viewers camera_id counts)

unfoldable pub on_play :
    Jwt
    → ℕ
    → (String → String → String → Option Session)
    → (String → Option String)
    → PlayBody
    → ViewerCounts
    → Reply
unfolding admit_viewer verify_token
on_play jwt now find_first host_of body counts = elim body.stream [
  | push key ↦ reply 0 counts
  | live none ↦ reply 0 counts
  | live (some (org_id, camera_id)) ↦
      if org_id == "" || camera_id == ""
      then reply 0 counts
      else if not (truthy body.token)
      then reply 403 counts
      else (elim (verify_token jwt now find_first (text_or_empty body.token) camera_id org_id) [
        | none ↦ reply 403 counts
        | some s ↦ admit_viewer host_of s body.page_url org_id camera_id counts
      ])
]

unfoldable pub on_stop : Parsed → ViewerCounts → Reply
on_stop (push key) counts = reply 0 counts
on_stop (live none) counts = reply 0 counts
on_stop (live (some (org_id, camera_id))) counts =
    if org_id == "" || camera_id == ""
    then reply 0 counts
    else counted org_id camera_id (decrement_viewers camera_id counts)

-- The addresses that `onForward` answers; `target` is what `resolveForwardTarget` finds.
unfoldable pub on_forward : String → Option Camera → Option String → List String
on_forward app target srs_host = if not (app == "push") then [] else elim target [
  | none ↦ []
  | some c ↦
      if c.needs_transcode
      then []
      else String.◌++◌ "rtmp://" (
          String.◌++◌ (elim srs_host [ none ↦ "127.0.0.1" | some h ↦ h ])
            (String.◌++◌ ":1935/live/" (String.◌++◌ c.org_id (String.◌++◌ "/" c.id))))
        ∷ []
]
