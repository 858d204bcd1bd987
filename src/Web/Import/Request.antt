-- ===== src/Web/Import/Request.antt =====
-- `canImport` and `handleImport` of apps/web/src/app/admin/cameras/components/bulk-import-dialog.tsx: the
-- counts of the rows and the body of the request.
use sms_app.Base.{
  ℕ, ◌+◌, String, Bool, not, ◌&&◌, Option, none, some, List, [], ◌∷◌, map, ◌==◌, string_eq, nat_eq,
  if◌then◌else◌, keep, length, ltb, count_by,
}
use sms_app.Web.Import.{Host, CameraRow, Mode, is_push, Dialog}

abbrev pub has_no_errors : CameraRow → Bool
has_no_errors r = length r.errors == 0

abbrev pub is_payload : CameraRow → Bool
is_payload r = has_no_errors r && not r.duplicate

abbrev pub valid_count : List CameraRow → ℕ
valid_count rows = count_by is_payload rows

abbrev pub duplicate_count : List CameraRow → ℕ
duplicate_count rows = count_by (λ r. has_no_errors r && r.duplicate) rows

abbrev pub error_count : List CameraRow → ℕ
error_count rows = count_by (λ r. not (has_no_errors r)) rows

unfoldable pub can_import : (site : String) → List CameraRow → Bool
can_import site rows =
    ltb 0 (valid_count rows + duplicate_count rows) && (error_count rows == 0 && not (site == ""))

-- A camera of the request.
pub record ImportCamera : Type 0 where
  pub name : String
  pub stream_url : Option String
  pub ingest_mode : Mode
  pub tags : Option (List String)
  pub description : Option String
  pub location : Option (String × String)

abbrev pub some_text : String → Option String
some_text t = if t == "" then none else some t

abbrev pub some_tags : List String → Option (List String)
some_tags [] = none
some_tags (t ∷ ts) = some (t ∷ ts)

-- `split` is `split(/[,;]/)`.
abbrev pub tags_of : Host → (String → List String) → String → List String
tags_of host split joined =
    if joined == "" then [] else keep (λ t. not (t == "")) (map host.trim (split joined))

abbrev pub import_camera : Host → (String → List String) → CameraRow → ImportCamera
import_camera host split r = record {
  name = r.name;
  stream_url = if is_push r.ingest_mode then none else some r.stream_url;
  ingest_mode = r.ingest_mode;
  tags = some_tags (tags_of host split r.tags);
  description = some_text r.description;
  location =
      if not (r.latitude == "") && not (r.longitude == "")
      then some (r.latitude, r.longitude)
      else none;
}

-- The body of the request, `none` where the button is off.
unfoldable pub handle_import :
    Host → (String → List String) → (site : String) → Dialog → Option (List ImportCamera)
unfolding can_import
handle_import host split site d =
    if can_import site d.rows
    then some (map (import_camera host split) (keep is_payload d.rows))
    else none
