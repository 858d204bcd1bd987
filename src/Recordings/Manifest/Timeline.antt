-- ===== src/Recordings/Manifest/Timeline.antt =====
-- The hours of a day that have data.
use sms_app.Base.{
  ℕ, zero, suc, ◌+◌, ◌*◌, ◌<◌, String, Bool, false, ◌&&◌, ◌||◌, some, List, [], ◌∷◌, ◌≡◌, refl, ap,
  ◌∙◌, arith, ◌==◌, string_eq, nat_eq, leb, ltb, any, keep, get_elem?,
}
use sms_app.Recordings.Service.{Segment}
use sms_app.Recordings.Manifest.{
  in_window, hour_of, set_flag, flag_hours, no_data, get_segments_for_date,
}

-- A flag of the list, `none` past its end, after a flag was set.
get_elem?-set_flag :
    (h i : ℕ) (hours : List Bool) (b : Bool)
    → get_elem? hours h ≡ some b
    → get_elem? (set_flag i hours) h ≡ some (i == h || b)
get_elem?-set_flag h i [] b e = ground arith
get_elem?-set_flag zero zero (c ∷ cs) b e = refl
get_elem?-set_flag zero (suc i) (c ∷ cs) b e = ground arith
get_elem?-set_flag (suc h) zero (c ∷ cs) b e = ground arith
get_elem?-set_flag (suc h) (suc i) (c ∷ cs) b e = ground (arith, get_elem?-set_flag h i cs b e)

get_elem?-flag_hours :
    (h start : ℕ) (gs : List Segment) (hours : List Bool) (b : Bool)
    → get_elem? hours h ≡ some b
    → get_elem? (flag_hours start gs hours) h ≡ some (b || any (λ g. hour_of start g == h) gs)
get_elem?-flag_hours h start [] hours b e = ground arith
get_elem?-flag_hours h start (g ∷ gs) hours b e = ground (
  arith,
  get_elem?-flag_hours h start gs (set_flag (hour_of start g) hours) (hour_of start g == h || b),
  get_elem?-set_flag h (hour_of start g) hours b e,
)

get_elem?-no_data : (h n : ℕ) → h < n → get_elem? (no_data n) h ≡ some false
get_elem?-no_data h zero p = ground arith
get_elem?-no_data zero (suc n) p = refl
get_elem?-no_data (suc h) (suc n) p = get_elem?-no_data h n (omega arith)

-- Whether a segment starts in an hour of the window.
abbrev pub falls_in : ℕ → ℕ → Segment → Bool
falls_in start h g =
    leb (start + h * 3600000) g.timestamp && ltb g.timestamp (start + (h + 1) * 3600000)

any-keep :
    (camera org : String) (start stop h : ℕ) (gs : List Segment)
    → any (λ g. hour_of start g == h) (keep (in_window camera org start stop) gs)
      ≡ any (λ g. in_window camera org start stop g && falls_in start h g) gs
any-keep camera org start stop h [] = refl
any-keep camera org start stop h (g ∷ gs) = ground (arith, any-keep camera org start stop h gs)

-- Each of the 24 hours has data exactly if some segment of the camera and organization, in the window,
-- starts in that hour.
pub hour_has_data :
    (camera org : String) (start stop h : ℕ) (segments : List Segment)
    → h < 24
    → get_elem? (get_segments_for_date camera org start stop segments) h
      ≡ some (any (λ g. in_window camera org start stop g && falls_in start h g) segments)
unfolding get_segments_for_date
hour_has_data camera org start stop h segments p =
    get_elem?-flag_hours h start (keep (in_window camera org start stop) segments) (no_data 24)
      false (get_elem?-no_data h 24 p)
    ∙ ap some (any-keep camera org start stop h segments)
