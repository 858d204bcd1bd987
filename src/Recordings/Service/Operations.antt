-- ===== src/Recordings/Service/Operations.antt =====
-- Each operation keeps the flag of the cameras in step with their active recordings.
use sms_app.Base.{
  ℕ, ◌+◌, String, Bool, true, false, ◌&&◌, Option, none, some, List, [], ◌∷◌, ◌≡◌, refl, ap, arith,
  length, if◌then◌else◌, ◌==◌, string_eq, eq_iff, eq_refl, not_found, find, count_by, replace_first,
  remove_first, Result-cases, ok, err, Error, Option-cases, inl, inr, find-replace_first,
  find-replace_first_other, count_by-replace_first, count_by-replace_first_same,
  count_by-remove_first, find_holds,
}
use sms_app.Camera.{Camera}
use sms_app.Recordings.Service.{
  Store, Recording, Archive, is_camera, is_active_for, is_active_status, is_recording_of, with_flag,
  set_recording, start_recording, stop_recording, archive_segment, delete_recording, start_checks,
  new_recording, grow, completed_at,
}

-- The camera's active recordings, in its own organization and in any other.
abbrev pub active_count : String → String → Store → ℕ
active_count camera org s = count_by (is_active_for camera org) s.recordings

abbrev pub flag_count : Camera → String → ℕ
flag_count c org = if c.org_id == org && c.is_recording then 1 else 0

abbrev pub IsFlagged : Store → Type 0
IsFlagged s =
    (id : String) (c : Camera) (org : String)
    → find (is_camera id) s.cameras ≡ some c
    → active_count id org s ≡ flag_count c org

-- The row of a camera after the flag of a camera was set.
pub find-with_flag_same :
    (b : Bool) (id : String) (s : Store)
    → find (is_camera id) (with_flag b id s).cameras
      ≡ (elim (find (is_camera id) s.cameras) [ none ↦ none | some c ↦ some (set_recording b c) ])
find-with_flag_same b id s =
    find-replace_first (is_camera id) (set_recording b) s.cameras (λ c. refl)

pub find-with_flag_other :
    (b : Bool) (id other : String) (s : Store)
    → (other == id) ≡ false
    → find (is_camera other) (with_flag b id s).cameras ≡ find (is_camera other) s.cameras
find-with_flag_other b id other s h =
    find-replace_first_other (is_camera other) (is_camera id) (set_recording b) s.cameras
      (λ c. refl) (λ c e. ground (arith, eq_iff c.id id, eq_iff c.id other, eq_iff other id))

pub start_checks_ok :
    (limit_gb : Option ℕ) (camera org : String) (s : Store)
    → start_checks limit_gb camera org s ≡ ok tt
    → (c : Camera) × (find (is_camera camera) s.cameras ≡ some c)
      × (c.org_id ≡ org)
      × (c.is_recording ≡ false)
start_checks_ok limit_gb camera org s h = elim (Option-cases (find (is_camera camera) s.cameras)) [
  | inl e ↦ ground arith
  | inr (c, e) ↦ (c, e, ground (arith, eq_iff c.org_id org), ground arith)
]

pub start_refused :
    (limit_gb : Option ℕ) (bucket_ok : Bool) (id camera org : String) (s : Store) (e : Error)
    → start_checks limit_gb camera org s ≡ err e
    → start_recording limit_gb bucket_ok id camera org s ≡ (s, err e)
unfolding start_recording
start_refused limit_gb bucket_ok id camera org s e h = ground arith

pub start_done :
    (limit_gb : Option ℕ) (bucket_ok : Bool) (id camera org : String) (s : Store) (u : Unit {0})
    → start_checks limit_gb camera org s ≡ ok u
    → (start_recording limit_gb bucket_ok id camera org s).0
      ≡ with_flag true camera (record s { recordings = new_recording id camera org ∷ s.recordings })
unfolding start_recording
start_done limit_gb bucket_ok id camera org s u h = ground arith

pub start-IsFlagged :
    (limit_gb : Option ℕ) (bucket_ok : Bool) (id camera org : String) (s : Store)
    → IsFlagged s
    → IsFlagged (start_recording limit_gb bucket_ok id camera org s).0
start-IsFlagged limit_gb bucket_ok id camera org s f j c o =
    elim (Result-cases (start_checks limit_gb camera org s)) [
      | inl (e, h) ↦ rw (start_refused limit_gb bucket_ok id camera org s e h) (f j c o)
      | inr (u, h) ↦
          let (d, g, own, off) = start_checks_ok limit_gb camera org s h in
          rw (start_done limit_gb bucket_ok id camera org s u h) (λ k. ground (
            arith,
            f j c o,
            f camera d o g,
            find-with_flag_same true camera s,
            find-with_flag_other true camera j s,
            eq_iff j camera,
            eq_iff camera j,
            eq_iff d.org_id o,
            eq_iff org o,
          ))
    ]

pub stop_refused :
    (now : ℕ) (camera org : String) (s : Store)
    → find (is_active_for camera org) s.recordings ≡ none
    → stop_recording now camera org s ≡ (s, err (not_found "No active recording found for camera"))
unfolding stop_recording
stop_refused now camera org s h = ground arith

pub stop_done :
    (now : ℕ) (camera org : String) (s : Store) (r : Recording)
    → find (is_active_for camera org) s.recordings ≡ some r
    → (stop_recording now camera org s).0
      ≡ with_flag false camera (record s {
        recordings = replace_first (is_active_for camera org) (completed_at now) s.recordings;
      })
unfolding stop_recording
stop_done now camera org s r h = ground arith

-- What stopping an active recording does to the counts of its camera.
stop_counts :
    (now : ℕ) (camera org j o : String) (s : Store) (r : Recording)
    → find (is_active_for camera org) s.recordings ≡ some r
    → count_by
          (is_active_for j o)
          (replace_first (is_active_for camera org) (completed_at now) s.recordings)
        + (if camera == j && org == o then 1 else 0)
      ≡ active_count j o s
stop_counts now camera org j o s r h = ground (
  arith,
  count_by-replace_first (is_active_for j o) (is_active_for camera org) (completed_at now)
      s.recordings r h,
  find_holds (is_active_for camera org) s.recordings r h,
  eq_iff r.camera_id camera,
  eq_iff r.org_id org,
)

stop_row-IsFlagged :
    (now : ℕ) (camera org : String) (s : Store) (r : Recording)
    → IsFlagged s
    → find (is_active_for camera org) s.recordings ≡ some r
    → IsFlagged (
        with_flag false camera (record s {
          recordings = replace_first (is_active_for camera org) (completed_at now) s.recordings;
        }))
stop_row-IsFlagged now camera org s r f h j c o k =
    elim (Option-cases (find (is_camera camera) s.cameras)) [
      | inl g ↦ ground (
        arith,
        f j c o,
        stop_counts now camera org j o s r h,
        find-with_flag_same false camera s,
        find-with_flag_other false camera j s,
        eq_iff camera j,
        eq_iff j camera,
      )
      | inr (d, g) ↦ ground (
        arith,
        f j c o,
        f camera d o g,
        f camera d org g,
        stop_counts now camera org j o s r h,
        stop_counts now camera org camera org s r h,
        find-with_flag_same false camera s,
        find-with_flag_other false camera j s,
        eq_iff camera j,
        eq_iff j camera,
        eq_iff d.org_id org,
        eq_refl camera,
        eq_refl org,
      )
    ]

pub stop-IsFlagged :
    (now : ℕ) (camera org : String) (s : Store)
    → IsFlagged s
    → IsFlagged (stop_recording now camera org s).0
stop-IsFlagged now camera org s f =
    elim (Option-cases (find (is_active_for camera org) s.recordings)) [
      | inl h ↦ rw (stop_refused now camera org s h) f
      | inr (r, h) ↦ rw (stop_done now camera org s r h) (stop_row-IsFlagged now camera org s r f h)
    ]

archive_done :
    (mount : String) (has_dots : String → Bool) (id path : String) (now : ℕ) (a : Archive)
    (s t : Store)
    → archive_segment mount has_dots id path now a s ≡ ok t
    → (bytes : List ℕ) × (t.cameras ≡ s.cameras)
      × (t.recordings
          ≡ replace_first
              (is_recording_of a.recording_id)
              (grow (length bytes) a.duration)
              s.recordings)
unfolding archive_segment
archive_done mount has_dots id path now a s t h = elim (Option-cases a.file) [
  | inl e ↦ ([], ground arith, ground arith)
  | inr (bytes, e) ↦ (bytes, ground arith, ground arith)
]

pub archive-IsFlagged :
    (mount : String) (has_dots : String → Bool) (id path : String) (now : ℕ) (a : Archive)
    (s t : Store)
    → archive_segment mount has_dots id path now a s ≡ ok t
    → IsFlagged s
    → IsFlagged t
archive-IsFlagged mount has_dots id path now a s t h f j c o k =
    let (bytes, same, rows) = archive_done mount has_dots id path now a s t h in
    ground (
      arith,
      f j c o,
      ap (find (is_camera j)) same,
      ap (count_by (is_active_for j o)) rows,
      count_by-replace_first_same (is_active_for j o) (is_recording_of a.recording_id)
          (grow (length bytes) a.duration) s.recordings (λ r. refl),
    )

pub delete_done :
    (objects_ok init_ok : Bool) (id : String) (s t : Store)
    → delete_recording objects_ok init_ok id s ≡ ok t
    → (t.cameras ≡ s.cameras) × (t.recordings ≡ remove_first (is_recording_of id) s.recordings)
unfolding delete_recording
delete_done objects_ok init_ok id s t h = (ground arith, ground arith)

pub delete-IsFlagged :
    (objects_ok init_ok : Bool) (id : String) (r : Recording) (s t : Store)
    → find (is_recording_of id) s.recordings ≡ some r
    → is_active_status r.status ≡ false
    → delete_recording objects_ok init_ok id s ≡ ok t
    → IsFlagged s
    → IsFlagged t
delete-IsFlagged objects_ok init_ok id r s t e inactive h f j c o k =
    let (same, rows) = delete_done objects_ok init_ok id s t h in
    ground (
      arith,
      f j c o,
      ap (find (is_camera j)) same,
      ap (count_by (is_active_for j o)) rows,
      count_by-remove_first (is_active_for j o) (is_recording_of id) s.recordings r e,
    )
