-- ===== src/Recordings/Service/Flag.antt =====
-- The flag `isRecording` of a camera against its active recordings, over starts, stops, archived
-- segments and deletions.
use sms_app.Base.{
  ℕ, String, Bool, false, ◌&&◌, Option, some, List, [], ◌∷◌, ◌≡◌, arith, if◌then◌else◌, ◌==◌,
  string_eq, find, All, ok,
}
use sms_app.Camera.{Camera}
use sms_app.Recordings.Service.{
  Store, Recording, Archive, is_camera, is_active_status, is_recording_of, start_recording,
  stop_recording, archive_segment, delete_recording,
}
use sms_app.Recordings.Service.Operations.{
  active_count, IsFlagged, start-IsFlagged, stop-IsFlagged, archive-IsFlagged, delete-IsFlagged,
}

-- What changes the tables: an archived segment and the deletion of a recording that is not active are
-- steps where they succeed.
pub data Step : Store → Store → Type 0 where
  started :
      (limit_gb : Option ℕ) (bucket_ok : Bool) (id camera org : String) (s : Store)
      → Step s (start_recording limit_gb bucket_ok id camera org s).0
  stopped : (now : ℕ) (camera org : String) (s : Store) → Step s (stop_recording now camera org s).0
  archived :
      (mount : String) (has_dots : String → Bool) (id path : String) (now : ℕ) (a : Archive)
      (s t : Store)
      → archive_segment mount has_dots id path now a s ≡ ok t
      → Step s t
  deleted :
      (objects_ok init_ok : Bool) (id : String) (r : Recording) (s t : Store)
      → find (is_recording_of id) s.recordings ≡ some r
      → is_active_status r.status ≡ false
      → delete_recording objects_ok init_ok id s ≡ ok t
      → Step s t

pub data Reaches (s : Store) : Store → Type 0 where
  here : Reaches s s
  next : (t u : Store) → Reaches s t → Step t u → Reaches s u

Step-IsFlagged : (s t : Store) → Step s t → IsFlagged s → IsFlagged t
Step-IsFlagged _ _ (started limit_gb bucket_ok id camera org s) f =
    start-IsFlagged limit_gb bucket_ok id camera org s f
Step-IsFlagged _ _ (stopped now camera org s) f = stop-IsFlagged now camera org s f
Step-IsFlagged _ _ (archived mount has_dots id path now a s t h) f =
    archive-IsFlagged mount has_dots id path now a s t h f
Step-IsFlagged _ _ (deleted objects_ok init_ok id r s t e i h) f =
    delete-IsFlagged objects_ok init_ok id r s t e i h f

Reaches-IsFlagged : (s t : Store) → Reaches s t → IsFlagged s → IsFlagged t
Reaches-IsFlagged s _ here f = f
Reaches-IsFlagged s _ (next t u reached step) f =
    Step-IsFlagged t u step (Reaches-IsFlagged s t reached f)

abbrev pub before_recording : List Camera → Store
before_recording cameras = record { cameras = cameras; recordings = []; segments = [] }

All-find :
    (p : Camera → Bool) (cameras : List Camera) (c : Camera)
    → All (λ c. c.is_recording ≡ false) cameras
    → find p cameras ≡ some c
    → c.is_recording ≡ false
All-find p [] c a e = ground arith
All-find p (d ∷ ds) c (h, a) e = ground (arith, All-find p ds c a)

-- In every state reached from cameras that do not record and no recordings, by starts, stops, archived
-- segments and deletions of recordings that are not active, a camera's row says `isRecording` exactly if
-- the camera has one active recording in its organization; it has no other active recording.
pub flag_follows_recordings :
    (cameras : List Camera) (s : Store) (id : String) (c : Camera) (org : String)
    → All (λ c. c.is_recording ≡ false) cameras
    → Reaches (before_recording cameras) s
    → find (is_camera id) s.cameras ≡ some c
    → active_count id org s ≡ (if c.org_id == org && c.is_recording then 1 else 0)
flag_follows_recordings cameras s id c org off reached e =
    Reaches-IsFlagged (before_recording cameras) s reached
      (λ j d o k. ground (arith, All-find (is_camera j) cameras d off k)) id c org e
