-- ===== src/Recordings/Manifest/Playlist.antt =====
-- Which segments the playlist of a recording names, in which order, and its target duration.
use sms_app.Base.{
  ℕ, ◌+◌, ◌*◌, ◌/◌, ◌≤◌, ◌<◌, String, Bool, true, false, Option, List, [], ◌∷◌, ◌++◌, ◌≡◌, refl,
  arith, if◌then◌else◌, string_eq, ltb, any, keep, drop_until, sort_by, Perm, sort_by-perm,
  IsSorted, sort_by-IsSorted, All, All-imp, Bool-cases, inl, inr,
}
use sms_app.Recordings.Service.{Segment}
use sms_app.Recordings.Manifest.{
  Entry, is_listed, by_seq_no, is_playable, playable_segments, target_duration, longest,
}

-- The segments that `drop_until` leaves out.
abbrev skipped_by : (Segment → Bool) → List Segment → List Segment
skipped_by p [] = []
skipped_by p (g ∷ gs) = let rest = skipped_by p gs in if p g then [] else g ∷ rest

skipped-drop_until :
    (p : Segment → Bool) (gs : List Segment) → skipped_by p gs ++ drop_until p gs ≡ gs
skipped-drop_until p [] = refl
skipped-drop_until p (g ∷ gs) = ground (arith, skipped-drop_until p gs)

skipped_by-All : (p : Segment → Bool) (gs : List Segment) → All (λ g. p g ≡ false) (skipped_by p gs)
skipped_by-All p [] = tt
skipped_by-All p (g ∷ gs) = elim (Bool-cases (p g)) [
  | inl e ↦ rw e tt
  | inr e ↦ rw e (e, skipped_by-All p gs)
]

abbrev pub starts_playable : List Segment → Bool
starts_playable [] = true
starts_playable (g ∷ gs) = is_playable g

drop_until-playable : (gs : List Segment) → starts_playable (drop_until is_playable gs) ≡ true
drop_until-playable [] = refl
drop_until-playable (g ∷ gs) = elim (Bool-cases (is_playable g)) [
  | inl e ↦ rw e e
  | inr e ↦ rw e (drop_until-playable gs)
]

-- The segments of the playlist, behind those that are skipped, are the recording's segments in the time
-- range, ordered by number; each skipped one is known to have no keyframe, and the first one that is
-- left, where there is one, is not.
pub playable_segments_lem :
    (recording org : String) (start stop : Option ℕ) (segments : List Segment)
    → (skipped : List Segment) × Perm
        (skipped ++ playable_segments recording org start stop segments)
        (keep (is_listed recording org start stop) segments)
      × IsSorted by_seq_no (skipped ++ playable_segments recording org start stop segments)
      × All (λ g. is_playable g ≡ false) skipped
      × (starts_playable (playable_segments recording org start stop segments) ≡ true)
unfolding playable_segments
playable_segments_lem recording org start stop segments =
    let listed = keep (is_listed recording org start stop) segments in
    let sorted = sort_by by_seq_no listed in
    let whole = skipped-drop_until is_playable sorted in
    (
      skipped_by is_playable sorted,
      rw whole (sort_by-perm by_seq_no listed),
      rw whole
          (sort_by-IsSorted by_seq_no (λ a b h. ground arith) (λ a b c h k. ground arith) listed),
      skipped_by-All is_playable sorted,
      drop_until-playable sorted,
    )

pub longest_max : (es : List Entry) → All (λ e. e.duration ≤ longest es) es
longest_max [] = tt
longest_max (e ∷ es) = (
  omega arith,
  All-imp (λ d. d.duration ≤ longest es) (λ d. d.duration ≤ longest (e ∷ es)) es
      (λ d h. omega arith) (longest_max es),
)

-- An entry of the longest duration.
longest_reached :
    (bound : ℕ) (e : Entry) (es : List Entry)
    → bound < longest (e ∷ es) + 1000000
    → any (λ d. ltb bound (d.duration + 1000000)) (e ∷ es) ≡ true
longest_reached bound e [] h = ground arith
longest_reached bound e (d ∷ ds) h = ground (arith, longest_reached bound d ds)

-- The target duration of a playlist with entries, in seconds, is at least the duration of each entry,
-- and less than one second more than that of some entry.
pub target_duration_bounds :
    (e : Entry) (es : List Entry)
    → All (λ d. d.duration ≤ target_duration (e ∷ es) * 1000000) (e ∷ es)
      × (any (λ d. ltb (target_duration (e ∷ es) * 1000000) (d.duration + 1000000)) (e ∷ es) ≡ true)
unfolding target_duration
target_duration_bounds e es = (
  All-imp (λ d. d.duration ≤ longest (e ∷ es))
      (λ d. d.duration ≤ (longest (e ∷ es) + 999999) / 1000000 * 1000000) (e ∷ es)
      (λ d h. omega arith) (longest_max (e ∷ es)),
  longest_reached ((longest (e ∷ es) + 999999) / 1000000 * 1000000) e es (omega arith),
)
