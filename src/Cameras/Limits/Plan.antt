-- ===== src/Cameras/Limits/Plan.antt =====
-- The plan's number of cameras over any sequence of requests.
use sms_app.Base.{
  ℕ, Bool, ◌≤◌, String, Option, some, List, [], ◌∷◌, ◌≡◌, arith, string_eq, eq_iff, Result-cases,
  inl, inr,
}
use sms_app.Camera.{Profile}
use sms_app.Cameras.Service.{Row, NewCamera, create_camera, bulk_import}
use sms_app.Cameras.Limits.{
  Request, created, imported, updated, deleted, rotated, entered, exited, handle, handle_all,
  camera_count, create_camera-count, create_camera-limit, bulk_import-count, bulk_import-limit,
  update-count, delete-count, rotate-count, enter-count, exit-count,
}

module _ (max_cameras : String → Option ℕ) (prefix lower sha256 : String → String)
    (profiles : Option String → Option Profile) (o : String) (m : ℕ)
    (plan : max_cameras o ≡ some m) where
  created_within :
      (site_found : Bool) (host id key org site : String) (c : NewCamera) (rows : List Row)
      → camera_count o rows ≤ m
      → camera_count o (
          handle max_cameras prefix lower sha256 profiles
            (created site_found host id key org site c)
            rows)
        ≤ m
  unfolding handle
  created_within site_found host id key org site c rows h =
      elim (Result-cases
        (create_camera prefix (max_cameras org) site_found host id key org site c rows)) [
          | inl (e, f) ↦ rw f h
          | inr (result, f) ↦ rw f (
              ground (
                arith,
                create_camera-count prefix (max_cameras org) site_found host id key org site c rows
                    result o f,
                create_camera-limit prefix (max_cameras org) site_found host id key org site c rows
                    result m,
                eq_iff org o,
              ))
        ]

  imported_within :
      (site_found : Bool) (host : String) (ids keys : ℕ → String) (org site : String)
      (default : Option String) (cameras : List NewCamera) (rows : List Row)
      → camera_count o rows ≤ m
      → camera_count o (
          handle max_cameras prefix lower sha256 profiles
            (imported site_found host ids keys org site default cameras)
            rows)
        ≤ m
  unfolding handle
  imported_within site_found host ids keys org site default cameras rows h =
      elim (Result-cases
        (bulk_import (max_cameras org) site_found host ids keys org site default cameras rows)) [
          | inl (e, f) ↦ rw f h
          | inr (result, f) ↦ rw f (
              ground (
                arith,
                bulk_import-count host ids keys org site default (max_cameras org) site_found
                    cameras rows result o f,
                bulk_import-limit host ids keys org site default (max_cameras org) site_found
                    cameras rows result m,
                eq_iff org o,
              ))
        ]

  handle_within :
      (r : Request) (rows : List Row)
      → camera_count o rows ≤ m
      → camera_count o (handle max_cameras prefix lower sha256 profiles r rows) ≤ m
  handle_within (created site_found host id key org site c) rows h =
      created_within site_found host id key org site c rows h
  handle_within (imported site_found host ids keys org site default cameras) rows h =
      imported_within site_found host ids keys org site default cameras rows h
  handle_within (updated id dto) rows h =
      rw (update-count max_cameras prefix lower sha256 profiles id dto rows o) h
  handle_within (deleted client id) rows h =
      omega (arith, delete-count max_cameras prefix lower sha256 profiles client id rows o)
  handle_within (rotated host client key id) rows h =
      rw (rotate-count max_cameras prefix lower sha256 profiles host client key id rows o) h
  handle_within (entered user id) rows h =
      rw (enter-count max_cameras prefix lower sha256 profiles user id rows o) h
  handle_within (exited id) rows h =
      rw (exit-count max_cameras prefix lower sha256 profiles id rows o) h

  handle_all_within :
      (requests : List Request) (rows : List Row)
      → camera_count o rows ≤ m
      → camera_count o (handle_all max_cameras prefix lower sha256 profiles requests rows) ≤ m
  unfolding handle_all
  handle_all_within [] rows h = h
  handle_all_within (r ∷ rs) rows h =
      handle_all_within rs (handle max_cameras prefix lower sha256 profiles r rows)
        (handle_within r rows h)

  -- After any requests to create, import, update and delete cameras, rotate their keys and change their
  -- maintenance mode, in any organizations, one with a plan has at most as many cameras as its plan says.
  pub plan_limit_kept :
      (requests : List Request)
      → camera_count o (handle_all max_cameras prefix lower sha256 profiles requests []) ≤ m
  plan_limit_kept requests = handle_all_within requests [] (omega arith)
