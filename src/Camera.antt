-- ===== src/Camera.antt =====
-- The columns of a Camera row (apps/api/src/prisma/schema.prisma) that the services read, and the
-- texts of its `status` column.
use sms_app.Base.{
  ℕ, String, Bool, true, false, Option, ◌≡◌, ◌↔◌, arith, Eq, ◌==◌, eq_iff, string_eq, List, [], ◌∷◌,
  ap, none, some, not, ◌&&◌,
}

-- The five texts that the source compares with, and any other text of the column.
pub data Status : Type 0 where
  offline connecting online reconnecting degraded : Status
  other : String → Status

abbrev pub status_same : Status → Status → Bool
status_same offline offline = true
status_same connecting connecting = true
status_same online online = true
status_same reconnecting reconnecting = true
status_same degraded degraded = true
status_same (other a) (other b) = a == b
status_same _ _ = false

status_same_sound : (a b : Status) → status_same a b ≡ true → a ≡ b
status_same_sound (other a) (other b) h = ap other ((eq_iff a b).0 h)
status_same_sound a b h = ground arith

status_same_refl : (a b : Status) → a ≡ b → status_same a b ≡ true
status_same_refl (other a) (other b) h = ground (arith, eq_iff a b)
status_same_refl a b h = ground arith

pub status_same_iff : (a b : Status) → (status_same a b ≡ true) ↔ (a ≡ b)
status_same_iff a b = (status_same_sound a b, status_same_refl a b)

instance abbrev pub status_eq : Eq Status
status_eq = record { same = status_same; same_iff = status_same_iff }

-- The settings of a stream profile row; `null` and `undefined` are `none`.
pub record Profile : Type 0 where
  pub codec : String
  pub preset : Option String
  pub resolution : Option String
  pub fps : Option ℕ
  pub video_bitrate : Option String
  pub audio_codec : String
  pub audio_bitrate : Option String

pub record Camera : Type 0 where
  pub id : String
  pub org_id : String
  pub name : String
  pub status : Status
  pub maintenance_mode : Bool
  pub ingest_mode : String
  pub stream_url : String
  pub stream_key : Option String
  pub needs_transcode : Bool
  pub stream_profile : Option Profile
  pub tags : List String
  pub is_recording : Bool

-- A text counts as false where it is empty, and so does a missing one.
abbrev pub truthy : Option String → Bool
truthy none = false
truthy (some s) = not (s == "")

-- The four statuses of a camera that should be running (`camera-health.service.ts`,
-- `boot-recovery.service.ts`, `streams.service.ts`).
abbrev pub running_statuses : List Status
running_statuses = online ∷ connecting ∷ reconnecting ∷ degraded ∷ []

abbrev pub is_push_passthrough : Camera → Bool
is_push_passthrough c = c.ingest_mode == "push" && not c.needs_transcode
