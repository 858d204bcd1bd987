-- ===== src/Cameras/Limits.antt =====
-- How many cameras each organization has after each request.
pub mod Plan
use sms_app.Base.{
  ℕ, suc, ◌+◌, ◌≤◌, String, Bool, true, false, not, ◌&&◌, ◌||◌, Option, none, some, List, [], ◌∷◌,
  ◌++◌, ◌≡◌, refl, sym, ap, ◌∙◌, arith, if◌then◌else◌, ◌==◌, string_eq, nat_eq, eq_iff, ltb, leb,
  any, find, count_by, length, replace_first, remove_first, one_if, count_by-replace_first_same,
  count_by-remove_first, Result, ok, err, Error, Result-cases, Option-cases, Bool-cases, inl, inr,
}
use sms_app.Camera.{Profile}
use sms_app.Cameras.Service.{
  Row, NewCamera, Call, Imported, in_org, has_id, new_row, insert_row, create_camera, bulk_import,
  insert_all, select_rows, enforce_max_cameras_limit, enforce_max_cameras_limit_bulk,
  profile_or_default, has_url,
}
use sms_app.Cameras.Changes.{
  UpdateCamera, update_camera, delete_camera, rotate_stream_key, enter_maintenance,
  exit_maintenance, patch_row, with_key, in_maintenance, stopped, out_of_maintenance,
}

abbrev pub camera_count : String → List Row → ℕ
camera_count org rows = count_by (in_org org) rows

abbrev pub count_for : String → String → ℕ → ℕ
count_for org o n = if org == o then n else 0

insert_row-count :
    (r : Row) (rows rows' : List Row) (o : String)
    → insert_row r rows ≡ ok rows'
    → camera_count o rows' ≡ count_for r.org_id o 1 + camera_count o rows
unfolding insert_row
insert_row-count r rows rows' o h = ground arith

-- The host, the ids and keys, the organization and the site of an import.
module _ (host : String) (ids keys : ℕ → String) (org site : String) (default : Option String) where
  insert_all-count :
      (i : ℕ) (cs : List NewCamera) (rows rows' : List Row) (o : String)
      → insert_all host ids keys org site default i cs rows ≡ ok rows'
      → camera_count o rows' ≡ count_for org o (length cs) + camera_count o rows
  unfolding insert_all
  insert_all-count i [] rows rows' o h = ground arith
  insert_all-count i (c ∷ cs) rows rows' o h =
      let r = new_row host (ids i) (keys i) org site (profile_or_default c.profile_id default) c in
      elim (Result-cases (insert_row r rows)) [
        | inl (e, f) ↦ ground arith
        | inr (more, f) ↦
            ground
              (arith, insert_row-count r rows more o f, insert_all-count (suc i) cs more rows' o)
      ]

  -- What an import that succeeds adds to the counts.
  pub bulk_import-count :
      (limit : Option ℕ) (site_found : Bool) (cameras : List NewCamera) (rows : List Row)
      (result : Imported) (o : String)
      → bulk_import limit site_found host ids keys org site default cameras rows ≡ ok result
      → camera_count o result.rows ≡ count_for org o result.imported + camera_count o rows
  unfolding bulk_import
  bulk_import-count limit site_found cameras rows result o h =
      let chosen = (select_rows (λ url. any (has_url org url) rows) [] cameras).0 in
      elim (Result-cases (insert_all host ids keys org site default 0 chosen rows)) [
        | inl (e, f) ↦ ground arith
        | inr (more, f) ↦ ground (arith, insert_all-count 0 chosen rows more o f)
      ]

  pub bulk_import-limit :
      (limit : Option ℕ) (site_found : Bool) (cameras : List NewCamera) (rows : List Row)
      (result : Imported) (max_cameras : ℕ)
      → limit ≡ some max_cameras
      → bulk_import limit site_found host ids keys org site default cameras rows ≡ ok result
      → camera_count org rows + result.imported ≤ max_cameras
  unfolding bulk_import enforce_max_cameras_limit_bulk
  bulk_import-limit limit site_found cameras rows result max_cameras l h =
      let chosen = (select_rows (λ url. any (has_url org url) rows) [] cameras).0 in
      elim (Result-cases (insert_all host ids keys org site default 0 chosen rows)) [
        | inl (e, f) ↦ ground arith
        | inr (more, f) ↦ ground arith
      ]

pub create_camera-count :
    (prefix : String → String) (limit : Option ℕ) (site_found : Bool)
    (host id key org site : String) (c : NewCamera) (rows : List Row)
    (result : List Row × List Call) (o : String)
    → create_camera prefix limit site_found host id key org site c rows ≡ ok result
    → camera_count o result.0 ≡ count_for org o 1 + camera_count o rows
unfolding create_camera
create_camera-count prefix limit site_found host id key org site c rows result o h =
    let r = new_row host id key org site c.profile_id c in
    elim (Result-cases (insert_row r rows)) [
      | inl (e, f) ↦ ground arith
      | inr (more, f) ↦ ground (arith, insert_row-count r rows more o f)
    ]

pub create_camera-limit :
    (prefix : String → String) (limit : Option ℕ) (site_found : Bool)
    (host id key org site : String) (c : NewCamera) (rows : List Row)
    (result : List Row × List Call) (max_cameras : ℕ)
    → limit ≡ some max_cameras
    → create_camera prefix limit site_found host id key org site c rows ≡ ok result
    → suc (camera_count org rows) ≤ max_cameras
unfolding create_camera enforce_max_cameras_limit
create_camera-limit prefix limit site_found host id key org site c rows result max_cameras l h =
    ground arith

-- The requests that change the table, in any organization.
pub data Request : Type 0 where
  created : (site_found : Bool) (host id key org site : String) (c : NewCamera) → Request
  imported :
      (site_found : Bool) (host : String) (ids keys : ℕ → String) (org site : String)
      (default : Option String) (cameras : List NewCamera)
      → Request
  updated : (id : String) (dto : UpdateCamera) → Request
  deleted : (client : Option String) (id : String) → Request
  rotated : (host : String) (client : Option String) (key id : String) → Request
  entered : (user id : String) → Request
  exited : (id : String) → Request

abbrev rows_or : List Row → Result (List Row × List Call) → List Row
rows_or rows (ok (new, calls)) = new
rows_or rows (err e) = rows

abbrev imported_or : List Row → Result Imported → List Row
imported_or rows (ok result) = result.rows
imported_or rows (err e) = rows

abbrev exited_or : List Row → Result (List Row) → List Row
exited_or rows (ok new) = new
exited_or rows (err e) = rows

-- The plans of the organizations, the profiles and the text functions stay as they are.
module _ (max_cameras : String → Option ℕ) (prefix lower sha256 : String → String)
    (profiles : Option String → Option Profile) where
  unfoldable pub handle : Request → List Row → List Row
  handle (created site_found host id key org site c) rows =
      rows_or rows (create_camera prefix (max_cameras org) site_found host id key org site c rows)
  handle (imported site_found host ids keys org site default cameras) rows =
      imported_or rows
        (bulk_import (max_cameras org) site_found host ids keys org site default cameras rows)
  handle (updated id dto) rows = rows_or rows (update_camera lower sha256 profiles id dto rows)
  handle (deleted client id) rows = rows_or rows (delete_camera client id rows)
  handle (rotated host client key id) rows =
      rows_or rows (rotate_stream_key prefix host client key id rows)
  handle (entered user id) rows = rows_or rows (enter_maintenance user id rows)
  handle (exited id) rows = exited_or rows (exit_maintenance id rows)

  unfoldable pub handle_all : List Request → List Row → List Row
  handle_all [] rows = rows
  handle_all (r ∷ rs) rows = handle_all rs (handle r rows)

  pub update-count :
      (id : String) (dto : UpdateCamera) (rows : List Row) (o : String)
      → camera_count o (handle (updated id dto) rows) ≡ camera_count o rows
  unfolding handle update_camera
  update-count id dto rows o = elim (Option-cases (find (has_id id) rows)) [
    | inl e ↦ rw e
    | inr (r, e) ↦ rw e (
        ground (
          arith,
          count_by-replace_first_same (in_org o) (has_id id) (patch_row dto) rows (λ c. refl),
        ))
  ]

  pub delete-count :
      (client : Option String) (id : String) (rows : List Row) (o : String)
      → camera_count o (handle (deleted client id) rows) ≤ camera_count o rows
  unfolding handle delete_camera
  delete-count client id rows o = elim (Option-cases (find (has_id id) rows)) [
    | inl e ↦ rw e (omega arith)
    | inr (r, e) ↦ rw e (ground (arith, count_by-remove_first (in_org o) (has_id id) rows r e))
  ]

  pub rotate-count :
      (host : String) (client : Option String) (key id : String) (rows : List Row) (o : String)
      → camera_count o (handle (rotated host client key id) rows) ≡ camera_count o rows
  unfolding handle rotate_stream_key
  rotate-count host client key id rows o = elim (Option-cases (find (has_id id) rows)) [
    | inl e ↦ rw e
    | inr (r, e) ↦ rw e (
        ground (
          arith,
          count_by-replace_first_same (in_org o) (has_id id) (with_key host key) rows (λ c. refl),
        ))
  ]

  pub enter-count :
      (user id : String) (rows : List Row) (o : String)
      → camera_count o (handle (entered user id) rows) ≡ camera_count o rows
  unfolding handle enter_maintenance
  enter-count user id rows o = elim (Option-cases (find (has_id id) rows)) [
    | inl e ↦ rw e
    | inr (r, e) ↦ rw e (
        ground (
          arith,
          count_by-replace_first_same (in_org o) (has_id id) (in_maintenance user) rows (λ c. refl),
          count_by-replace_first_same (in_org o) (has_id id) (λ c. stopped (in_maintenance user c))
              rows (λ c. refl),
        ))
  ]

  pub exit-count :
      (id : String) (rows : List Row) (o : String)
      → camera_count o (handle (exited id) rows) ≡ camera_count o rows
  unfolding handle exit_maintenance
  exit-count id rows o = elim (Option-cases (find (has_id id) rows)) [
    | inl e ↦ rw e
    | inr (r, e) ↦ rw e (
        ground (
          arith,
          count_by-replace_first_same (in_org o) (has_id id) out_of_maintenance rows (λ c. refl),
        ))
  ]
