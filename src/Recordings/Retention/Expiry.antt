-- ===== src/Recordings/Retention/Expiry.antt =====
-- Which segments a clean-up leaves.
use sms_app.Base.{
  String, Bool, true, false, not, ◌&&◌, List, [], ◌∷◌, map, ◌≡◌, refl, sym, ap, ◌∙◌, arith, ◌==◌,
  string_eq, nat_eq, eq_iff, eq_refl, ltb, keep, length, contains, Bool-cases, inl, inr,
}
use sms_app.Recordings.Service.{Store, Segment}
use sms_app.Recordings.Retention.{
  Retention, distinct, cutoff_of, is_expired, cleanup_camera, cleanup_cameras, cleanup_org,
}

contains-distinct : (x : String) (xs : List String) → contains (distinct xs) x ≡ contains xs x
contains-distinct x [] = refl
contains-distinct x (y ∷ ys) = ground (arith, contains-distinct x ys, eq_iff x y)

abbrev pub ids_of : List Segment → List String
ids_of gs = map (λ g. g.id) gs

-- Ids are primary keys.
abbrev pub unique_ids : List Segment → Bool
unique_ids [] = true
unique_ids (g ∷ gs) = not (contains (ids_of gs) g.id) && unique_ids gs

ids_of-keep :
    (p : Segment → Bool) (gs : List Segment) (x : String)
    → contains (ids_of gs) x ≡ false
    → contains (ids_of (keep p gs)) x ≡ false
ids_of-keep p [] x h = refl
ids_of-keep p (g ∷ gs) x h = ground (arith, ids_of-keep p gs x)

unique_ids-keep :
    (p : Segment → Bool) (gs : List Segment) → unique_ids gs ≡ true → unique_ids (keep p gs) ≡ true
unique_ids-keep p [] h = refl
unique_ids-keep p (g ∷ gs) h = ground (arith, unique_ids-keep p gs, ids_of-keep p gs g.id)

keep-cons_id :
    (k : String) (ids : List String) (gs : List Segment)
    → contains (ids_of gs) k ≡ false
    → keep (λ g. not (contains (k ∷ ids) g.id)) gs ≡ keep (λ g. not (contains ids g.id)) gs
keep-cons_id k ids [] h = refl
keep-cons_id k ids (g ∷ gs) h = ground (arith, keep-cons_id k ids gs, eq_iff g.id k, eq_iff k g.id)

-- The deletion by ids deletes the rows that the ids were taken from.
keep-ids :
    (p : Segment → Bool) (gs : List Segment)
    → unique_ids gs ≡ true
    → keep (λ g. not (contains (ids_of (keep p gs)) g.id)) gs ≡ keep (λ g. not (p g)) gs
keep-ids p [] h = refl
keep-ids p (g ∷ gs) h = ground (
  arith,
  keep-ids p gs,
  keep-cons_id g.id (ids_of (keep p gs)) gs,
  ids_of-keep p gs g.id,
  eq_refl g.id,
)

keep-none :
    (p : Segment → Bool) (gs : List Segment)
    → length (keep p gs) ≡ 0
    → keep (λ g. not (p g)) gs ≡ gs
keep-none p [] h = refl
keep-none p (g ∷ gs) h = ground (arith, keep-none p gs)

module _ (r : Retention) (org : String) where
  cleanup_camera-segments :
      (camera : String) (s : Store)
      → unique_ids s.segments ≡ true
      → r.removes camera ≡ true
      → (cleanup_camera r org camera s).segments
        ≡ keep (λ g. not (is_expired r org camera g)) s.segments
  unfolding cleanup_camera
  cleanup_camera-segments camera s u ok = ground (
    arith,
    keep-ids (is_expired r org camera) s.segments u,
    keep-none (is_expired r org camera) s.segments,
  )

  -- Older than the cut-off of its camera, for a camera of the list.
  abbrev is_stale : List String → Segment → Bool
  is_stale cameras g =
      g.org_id == org && (contains cameras g.camera_id && ltb g.timestamp (cutoff_of r g.camera_id))

  keep-is_stale :
      (c : String) (cs : List String) (gs : List Segment)
      → keep (λ g. not (is_stale cs g)) (keep (λ g. not (is_expired r org c g)) gs)
        ≡ keep (λ g. not (is_stale (c ∷ cs) g)) gs
  keep-is_stale c cs [] = refl
  keep-is_stale c cs (g ∷ gs) = ground (arith, keep-is_stale c cs gs, eq_iff g.camera_id c)

  keep-is_stale_none : (gs : List Segment) → keep (λ g. not (is_stale [] g)) gs ≡ gs
  keep-is_stale_none [] = refl
  keep-is_stale_none (g ∷ gs) = ground (arith, keep-is_stale_none gs)

  cleanup_cameras-segments :
      (cs : List String) (s : Store)
      → unique_ids s.segments ≡ true
      → ((camera : String) → r.removes camera ≡ true)
      → (cleanup_cameras r org cs s).segments ≡ keep (λ g. not (is_stale cs g)) s.segments
  unfolding cleanup_cameras
  cleanup_cameras-segments [] s u ok = sym (keep-is_stale_none s.segments)
  cleanup_cameras-segments (c ∷ cs) s u ok =
      let once = cleanup_camera-segments c s u (ok c) in
      cleanup_cameras-segments cs (cleanup_camera r org c s)
        (rw once (unique_ids-keep (λ g. not (is_expired r org c g)) s.segments u)) ok
      ∙ (ap (keep (λ g. not (is_stale cs g))) once ∙ keep-is_stale c cs s.segments)

  abbrev pub is_overdue : Segment → Bool
  is_overdue g = g.org_id == org && ltb g.timestamp (cutoff_of r g.camera_id)

  keep-overdue :
      (cs : List String) (gs : List Segment)
      → ((x : String)
          → contains (map (λ g. g.camera_id) (keep (λ g. g.org_id == org) gs)) x ≡ true
          → contains cs x ≡ true)
      → keep (λ g. not (is_stale cs g)) gs ≡ keep (λ g. not (is_overdue g)) gs
  keep-overdue cs [] h = refl
  keep-overdue cs (g ∷ gs) h = elim (Bool-cases (g.org_id == org)) [
    | inl e ↦
        ground (
          arith,
          h g.camera_id,
          eq_refl g.camera_id,
          keep-overdue cs gs (λ x k. h x (ground arith)),
        )
    | inr e ↦ ground (arith, keep-overdue cs gs (λ x k. h x (ground arith)))
  ]

  -- Where ids are unique and the object store removes what it is asked to, a clean-up of an organization
  -- deletes exactly its segments that are older than the cut-off of their camera's retention.
  pub cleanup_org-segments :
      (s : Store)
      → unique_ids s.segments ≡ true
      → ((camera : String) → r.removes camera ≡ true)
      → (cleanup_org r org s).segments ≡ keep (λ g. not (is_overdue g)) s.segments
  unfolding cleanup_org
  cleanup_org-segments s u ok =
      let cameras = map (λ g. g.camera_id) (keep (λ g. g.org_id == org) s.segments) in
      cleanup_cameras-segments (distinct cameras) s u ok
      ∙ keep-overdue (distinct cameras) s.segments (λ x k. contains-distinct x cameras ∙ k)
