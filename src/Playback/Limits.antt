-- ===== src/Playback/Limits.antt =====
-- The viewer limit over any sequence of plays and stops.
use sms_app.Base.{
  ℕ, ◌+◌, ◌-◌, ◌≤◌, ◌<◌, String, Option, none, some, List, [], ◌∷◌, ◌≡◌, refl, arith, inl, inr,
  eq_iff, string_eq, lookup, lookup-insert, Option-cases, subst,
}
use sms_app.Status.{
  ViewerCounts, count_or_zero, get_viewer_count, increment_viewers, decrement_viewers,
}
use sms_app.Streams.Jobs.{text_or_empty}
use sms_app.Playback.{Jwt, Session, verify_token}
use sms_app.Playback.Callbacks.{PlayBody, Parsed, push, live, admit_viewer, on_play, on_stop}

-- A callback of SRS, a play with its time.
pub data Event : Type 0 where
  play : ℕ → PlayBody → Event
  stop : Parsed → Event

module _ (jwt : Jwt) (find_first : String → String → String → Option Session)
    (host_of : String → Option String) where
  unfoldable pub apply : Event → ViewerCounts → ViewerCounts
  unfolding on_play on_stop
  apply (play now body) counts = (on_play jwt now find_first host_of body counts).counts
  apply (stop stream) counts = (on_stop stream counts).counts

  unfoldable pub run : List Event → ViewerCounts → ViewerCounts
  unfolding apply
  run [] counts = counts
  run (e ∷ es) counts = run es (apply e counts)

  module _ (camera : String) (limit : ℕ)
      (limited : (sub org : String) (s : Session)
        → find_first sub org camera ≡ some s
        → (0 < s.max_viewers) × (s.max_viewers ≤ limit)) where
    admit-bounded :
        (s : Session) (page : Option String) (org id : String) (counts : ViewerCounts)
        → (id ≡ camera → (0 < s.max_viewers) × (s.max_viewers ≤ limit))
        → get_viewer_count camera counts ≤ limit
        → get_viewer_count camera (admit_viewer host_of s page org id counts).counts ≤ limit
    unfolding admit_viewer
    admit-bounded s page org id counts h bound =
        unfold increment_viewers get_viewer_count in
        ground (
          arith,
          eq_iff camera id,
          eq_iff id camera,
          lookup-insert camera id (count_or_zero (lookup id counts) + 1) counts,
        )

    verified-limited :
        (now : ℕ) (token id org : String) (s : Session)
        → verify_token jwt now find_first token id org ≡ some s
        → id ≡ camera
        → (0 < s.max_viewers) × (s.max_viewers ≤ limit)
    unfolding verify_token
    verified-limited now token id org s h same = elim (Option-cases (jwt.verify now token)) [
      | inl e ↦ ground (arith, e)
      | inr (c, e) ↦
          limited c.sub org s
            (subst (λ i. find_first c.sub org i ≡ some s) same (ground (arith, e, h)))
    ]

    live-bounded :
        (now : ℕ) (token page : Option String) (org id : String) (counts : ViewerCounts)
        → get_viewer_count camera counts ≤ limit
        → let body : PlayBody = record {
          stream = live (some (org, id));
          token = token;
          page_url = page;
        } in
          get_viewer_count camera (on_play jwt now find_first host_of body counts).counts ≤ limit
    unfolding on_play
    live-bounded now token page org id counts bound =
        elim (Option-cases (verify_token jwt now find_first (text_or_empty token) id org)) [
          | inl e ↦ rw e (ground arith)
          | inr (s, e) ↦ rw e (
              ground (
                arith,
                admit-bounded s page org id counts
                    (verified-limited now (text_or_empty token) id org s e) bound,
              ))
        ]

    play-bounded :
        (now : ℕ) (body : PlayBody) (counts : ViewerCounts) (stream : Parsed)
        → body.stream ≡ stream
        → get_viewer_count camera counts ≤ limit
        → get_viewer_count camera (apply (play now body) counts) ≤ limit
    unfolding apply on_play
    play-bounded now body counts (push key) h bound = rw h bound
    play-bounded now body counts (live none) h bound = rw h bound
    play-bounded now body counts (live (some (org, id))) h bound =
        rw h (live-bounded now body.token body.page_url org id counts bound)

    stop-bounded :
        (stream : Parsed) (counts : ViewerCounts)
        → get_viewer_count camera counts ≤ limit
        → get_viewer_count camera (apply (stop stream) counts) ≤ limit
    unfolding apply decrement_viewers get_viewer_count
    stop-bounded (push key) counts bound = bound
    stop-bounded (live none) counts bound = bound
    stop-bounded (live (some (org, id))) counts bound = ground (
      arith,
      eq_iff camera id,
      lookup-insert camera id (count_or_zero (lookup id counts) - 1) counts,
    )

    run-bounded :
        (es : List Event) (counts : ViewerCounts)
        → get_viewer_count camera counts ≤ limit
        → get_viewer_count camera (run es counts) ≤ limit
    unfolding run
    run-bounded [] counts bound = bound
    run-bounded (play now body ∷ es) counts bound =
        run-bounded es (apply (play now body) counts)
          (play-bounded now body counts body.stream refl bound)
    run-bounded (stop stream ∷ es) counts bound =
        run-bounded es (apply (stop stream) counts) (stop-bounded stream counts bound)

-- Where every session row of a camera sets a viewer limit, and none sets a higher one than `limit`, any
-- sequence of plays and stops of any cameras, from no viewers on, with any tokens, pages and times,
-- keeps the camera's viewer count at `limit` or below.
pub viewers_within_limit :
    (jwt : Jwt) (find_first : String → String → String → Option Session)
    (host_of : String → Option String) (camera : String) (limit : ℕ) (es : List Event)
    → ((sub org : String) (s : Session)
        → find_first sub org camera ≡ some s
        → (0 < s.max_viewers) × (s.max_viewers ≤ limit))
    → get_viewer_count camera (run jwt find_first host_of es []) ≤ limit
viewers_within_limit jwt find_first host_of camera limit es limited =
    run-bounded jwt find_first host_of camera limit limited es []
      (unfold get_viewer_count in unfold lookup in omega arith)
