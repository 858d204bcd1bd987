-- ===== src/Web/Import.antt =====
-- apps/web/src/app/admin/cameras/components/bulk-import-dialog.tsx: the rows of a camera import, from the
-- file on, and apps/web/src/lib/stream-url-validation.ts. The text functions of the host,
-- `new URL` and `Number` are parameters.
pub mod Request
pub mod Clean
use Prim.Native.String
use text.Mathlib.Text.{starts_with}
use sms_app.Base.{
  ℕ, zero, suc, ◌+◌, String, Bool, true, false, not, ◌&&◌, ◌||◌, Option, none, some, List, [], ◌∷◌,
  ◌++◌, map, ◌==◌, string_eq, nat_eq, if◌then◌else◌, contains, keep, length, take, ltb, count_by,
  Dict,
}

pub data Mode : Type 0 where
  pull push : Mode

pub data Reason : Type 0 where
  within_file against_db : Reason

pub data DuplicateField : Type 0 where
  in_name in_stream_url in_both in_file : DuplicateField

pub record CameraRow : Type 0 where
  pub name : String
  pub stream_url : String
  pub tags : String
  pub description : String
  pub latitude : String
  pub longitude : String
  pub errors : Dict String
  pub duplicate : Bool
  pub duplicate_reason : Option Reason
  pub duplicate_field : Option DuplicateField
  pub ingest_mode : Mode

-- `trim`, `toLowerCase`, the host name of an address (`none` where `new URL` throws), and whether a text
-- is a number.
pub record Host : Type 0 where
  pub trim : String → String
  pub lower : String → String
  pub host_of : String → Option String
  pub is_number : String → Bool

abbrev pub is_push : Mode → Bool
is_push push = true
is_push pull = false

abbrev pub allowed_prefixes : List String
allowed_prefixes = "rtsp://" ∷ "rtmps://" ∷ "rtmp://" ∷ "srt://" ∷ []

abbrev pub error_prefix : String
error_prefix = "URL must start with rtsp://, rtmps://, rtmp://, or srt://"

abbrev pub error_host : String
error_host = "Invalid URL — check host and path"

abbrev pub has_allowed_prefix : List String → String → Bool
has_allowed_prefix [] url = false
has_allowed_prefix (p ∷ ps) url = starts_with url p || has_allowed_prefix ps url

abbrev pub host_error : Option String → Option String
host_error none = some error_host
host_error (some host) = if host == "" then some error_host else none

abbrev pub when_error : Bool → String → String → Dict String
when_error b field message = if b then (field, message) ∷ [] else []

-- The dialog's shorter text for a wrong prefix.
abbrev pub row_error : Option String → Dict String
row_error none = []
row_error (some e) =
    if e == error_prefix
    then ("streamUrl", "Must be rtsp://, rtmps://, rtmp://, or srt://") ∷ []
    else ("streamUrl", e) ∷ []

module _ (host : Host) where
  unfoldable pub validate_stream_url : String → Option String
  validate_stream_url url =
      let trimmed = host.trim url in
      if trimmed == ""
      then none
      else if not (has_allowed_prefix allowed_prefixes trimmed)
      then some error_prefix
      else host_error (host.host_of trimmed)

  unfoldable pub url_errors : Mode → String → Dict String
  unfolding validate_stream_url
  url_errors push url =
      when_error (not (url == "")) "streamUrl"
        "Push rows must leave streamUrl empty — a URL will be generated."
  url_errors pull url =
      if url == ""
      then ("streamUrl", "Stream URL is required") ∷ []
      else row_error (validate_stream_url url)

  unfoldable pub validate_row : CameraRow → Dict String
  unfolding url_errors
  validate_row r =
      when_error (host.trim r.name == "") "name" "Name is required"
      ++ (url_errors r.ingest_mode (host.trim r.stream_url)
          ++ (when_error (not (r.latitude == "") && not (host.is_number r.latitude)) "latitude"
                "Must be a number"
              ++ when_error (not (r.longitude == "") && not (host.is_number r.longitude))
                  "longitude" "Must be a number"))

  abbrev pub unflagged : CameraRow → CameraRow
  unflagged r = record r { duplicate = false; duplicate_reason = none; duplicate_field = none }

  abbrev pub flagged : Reason → DuplicateField → CameraRow → CameraRow
  flagged reason field r = record r {
    duplicate = true;
    duplicate_reason = some reason;
    duplicate_field = some field;
  }

  abbrev pub url_in_db : List String → CameraRow → Bool
  url_in_db urls r = not (host.trim r.stream_url == "") && contains urls (host.trim r.stream_url)

  abbrev pub name_in_db : List String → CameraRow → Bool
  name_in_db names r =
      not (host.lower (host.trim r.name) == "") && contains names (host.lower (host.trim r.name))

  abbrev pub db_field : Bool → Bool → DuplicateField
  db_field true true = in_both
  db_field true false = in_stream_url
  db_field false b = in_name

  -- One row, with the addresses of the rows before it that were not flagged.
  unfoldable pub annotate_row : (urls names seen : List String) → CameraRow → CameraRow
  annotate_row urls names seen r =
      if is_push r.ingest_mode
      then unflagged r
      else if url_in_db urls r || name_in_db names r
      then flagged against_db (db_field (url_in_db urls r) (name_in_db names r)) r
      else if host.trim r.stream_url == ""
      then unflagged r
      else if contains seen (host.trim r.stream_url)
      then flagged within_file in_file r
      else unflagged r

  -- The addresses seen after a row.
  abbrev pub seen_after : (urls names seen : List String) → CameraRow → List String
  seen_after urls names seen r =
      if is_push r.ingest_mode
        || ((url_in_db urls r || name_in_db names r)
            || (host.trim r.stream_url == "" || contains seen (host.trim r.stream_url)))
      then seen
      else host.trim r.stream_url ∷ seen

  unfoldable pub annotate_from : (urls names seen : List String) → List CameraRow → List CameraRow
  unfolding annotate_row
  annotate_from urls names seen [] = []
  annotate_from urls names seen (r ∷ rows) =
      annotate_row urls names seen r ∷ annotate_from urls names (seen_after urls names seen r) rows

  unfoldable pub annotate_duplicates : (urls names : List String) → List CameraRow → List CameraRow
  unfolding annotate_from
  annotate_duplicates urls names rows = annotate_from urls names [] rows

  abbrev pub validated : CameraRow → CameraRow
  validated r = record r { errors = validate_row r }

-- The columns that a cell edits.
pub data Field : Type 0 where
  name stream_url tags description latitude longitude : Field

abbrev pub with_field : Field → String → CameraRow → CameraRow
with_field name v r = record r { name = v }
with_field stream_url v r = record r { stream_url = v }
with_field tags v r = record r { tags = v }
with_field description v r = record r { description = v }
with_field latitude v r = record r { latitude = v }
with_field longitude v r = record r { longitude = v }

abbrev pub edit_at : (CameraRow → CameraRow) → ℕ → List CameraRow → List CameraRow
edit_at f i [] = []
edit_at f zero (r ∷ rows) = f r ∷ rows
edit_at f (suc i) (r ∷ rows) = r ∷ edit_at f i rows

abbrev pub remove_at : ℕ → List CameraRow → List CameraRow
remove_at i [] = []
remove_at zero (r ∷ rows) = rows
remove_at (suc i) (r ∷ rows) = r ∷ remove_at i rows

-- The state of the dialog: the rows, and the addresses and names of the organization's cameras.
pub record Dialog : Type 0 where
  pub rows : List CameraRow
  pub existing_urls : List String
  pub existing_names : List String

-- What the user and the answers of the server do.
pub data DialogEvent : Type 0 where
  loaded : List CameraRow → DialogEvent
  cell_edited : ℕ → Field → String → DialogEvent
  row_removed : ℕ → DialogEvent
  existing_loaded : (urls names : List String) → DialogEvent

module _ (host : Host) where
  abbrev pub with_rows : Dialog → List CameraRow → Dialog
  with_rows d rows = record d {
    rows = annotate_duplicates host d.existing_urls d.existing_names rows;
  }

  -- `processRows`: a file without rows changes nothing, and one of more than 500 is cut.
  unfoldable pub process_rows : List CameraRow → Dialog → Dialog
  process_rows [] d = d
  process_rows (r ∷ rows) d = with_rows d (map (validated host) (take 500 (r ∷ rows)))

  unfoldable pub handle_cell_edit : ℕ → Field → String → Dialog → Dialog
  handle_cell_edit i field v d =
      with_rows d (edit_at (λ r. validated host (with_field field v r)) i d.rows)

  unfoldable pub handle_remove_row : ℕ → Dialog → Dialog
  handle_remove_row i d = with_rows d (remove_at i d.rows)

  -- The effect on new existing addresses and names.
  unfoldable pub handle_existing : (urls names : List String) → Dialog → Dialog
  handle_existing urls names d =
      with_rows (record d { existing_urls = urls; existing_names = names }) d.rows

  unfoldable pub handle : DialogEvent → Dialog → Dialog
  unfolding process_rows handle_cell_edit handle_remove_row handle_existing
  handle (loaded rows) d = process_rows rows d
  handle (cell_edited i field v) d = handle_cell_edit i field v d
  handle (row_removed i) d = handle_remove_row i d
  handle (existing_loaded urls names) d = handle_existing urls names d

  unfoldable pub handle_all : List DialogEvent → Dialog → Dialog
  unfolding handle
  handle_all [] d = d
  handle_all (e ∷ es) d = handle_all es (handle e d)
