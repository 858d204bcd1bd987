-- ===== src/Web/Import/Clean.antt =====
-- The rows that an import sends.
use sms_app.Base.{
  ℕ, zero, suc, String, Bool, true, false, not, ◌&&◌, ◌||◌, List, [], ◌∷◌, ◌++◌, map, ◌≡◌, refl,
  arith, ◌==◌, string_eq, nat_eq, if◌then◌else◌, contains, take, Bool-cases, inl, inr, ◌∙◌, sym,
}
use sms_app.Web.Import.{
  Host, CameraRow, Field, Dialog, DialogEvent, loaded, cell_edited, row_removed, existing_loaded,
  validate_row, validated, is_push, annotate_row, seen_after, annotate_from, annotate_duplicates,
  with_rows, with_field, edit_at, remove_at, process_rows, handle_cell_edit, handle_remove_row,
  handle_existing, handle, handle_all,
}
use sms_app.Web.Import.Request.{is_payload, has_no_errors}

-- Each text is neither in `seen` nor twice in the list.
abbrev pub all_fresh : List String → List String → Bool
all_fresh seen [] = true
all_fresh seen (u ∷ us) = not (contains seen u) && all_fresh (u ∷ seen) us

module _ (host : Host) where
  abbrev pub sent_url : CameraRow → List String
  sent_url r =
      if is_payload r && (not (is_push r.ingest_mode) && not (host.trim r.stream_url == ""))
      then host.trim r.stream_url ∷ []
      else []

  -- The addresses of the pull rows that are sent.
  abbrev pub sent_urls : List CameraRow → List String
  sent_urls [] = []
  sent_urls (r ∷ rows) = sent_url r ++ sent_urls rows

  -- The errors of each row are those of its validation.
  abbrev pub AreValidated : List CameraRow → Type 0
  AreValidated [] = Unit {0}
  AreValidated (r ∷ rows) = (r.errors ≡ validate_row host r) × AreValidated rows

  module _ (urls names : List String) where
    annotate_row-fields :
        (seen : List String) (r : CameraRow)
        → ((annotate_row host urls names seen r).ingest_mode ≡ r.ingest_mode)
          × ((annotate_row host urls names seen r).stream_url ≡ r.stream_url)
          × ((annotate_row host urls names seen r).errors ≡ r.errors)
    unfolding annotate_row
    annotate_row-fields seen r = ground arith

    abbrev goes_out : List String → CameraRow → Bool
    goes_out seen r =
        not (annotate_row host urls names seen r).duplicate
        && (not (is_push r.ingest_mode) && not (host.trim r.stream_url == ""))

    annotate_row-out :
        (seen : List String) (r : CameraRow)
        → goes_out seen r ≡ true
        → (seen_after host urls names seen r ≡ host.trim r.stream_url ∷ seen)
          × ((contains urls (host.trim r.stream_url) || contains seen (host.trim r.stream_url))
              ≡ false)
    unfolding annotate_row
    annotate_row-out seen r h = ground arith

    sent_url-annotate_row :
        (seen : List String) (r : CameraRow)
        → sent_url (annotate_row host urls names seen r)
          ≡ (if has_no_errors r && goes_out seen r then host.trim r.stream_url ∷ [] else [])
    sent_url-annotate_row seen r =
        let (mode, url, errors) = annotate_row-fields seen r in
        rw (mode, url, errors) (ground arith)

    seen_after-contains :
        (seen : List String) (r : CameraRow) (u : String)
        → (contains urls u || contains seen u) ≡ true
        → (contains urls u || contains (seen_after host urls names seen r) u) ≡ true
    seen_after-contains seen r u h = ground arith

    -- `known` holds no address but those of the organization and those seen.
    annotate_from-fresh :
        (seen known : List String) (rows : List CameraRow)
        → ((u : String) → contains known u ≡ true → (contains urls u || contains seen u) ≡ true)
        → all_fresh known (sent_urls (annotate_from host urls names seen rows)) ≡ true
    unfolding annotate_from
    annotate_from-fresh seen known [] h = refl
    annotate_from-fresh seen known (r ∷ rows) h =
        rw (sent_url-annotate_row seen r) (elim (Bool-cases (has_no_errors r && goes_out seen r)) [
          | inl out ↦
              let (after, fresh) = annotate_row-out seen r (ground arith) in
              rw (out, after)
                (ground (
                  arith,
                  h (host.trim r.stream_url),
                  annotate_from-fresh (host.trim r.stream_url ∷ seen)
                      (host.trim r.stream_url ∷ known) rows (λ u k. ground (arith, h u)),
                ))
          | inr stays ↦ rw stays (
              annotate_from-fresh (seen_after host urls names seen r) known rows
                (λ u k. seen_after-contains seen r u (h u k)))
        ])

    validate_row-annotate_row :
        (seen : List String) (r : CameraRow)
        → validate_row host (annotate_row host urls names seen r) ≡ validate_row host r
    unfolding annotate_row validate_row
    validate_row-annotate_row seen r = ground arith

    annotate_from-AreValidated :
        (seen : List String) (rows : List CameraRow)
        → AreValidated rows
        → AreValidated (annotate_from host urls names seen rows)
    unfolding annotate_from
    annotate_from-AreValidated seen [] v = tt
    annotate_from-AreValidated seen (r ∷ rows) v =
        let (mode, url, errors) = annotate_row-fields seen r in
        (
          errors ∙ v.0 ∙ sym (validate_row-annotate_row seen r),
          annotate_from-AreValidated (seen_after host urls names seen r) rows v.1,
        )

  validated-validate_row :
      (r : CameraRow) → (validated host r).errors ≡ validate_row host (validated host r)
  unfolding validate_row
  validated-validate_row r = refl

  map-validated : (rows : List CameraRow) → AreValidated (map (validated host) rows)
  map-validated [] = tt
  map-validated (r ∷ rows) = (validated-validate_row r, map-validated rows)

  edit_at-AreValidated :
      (field : Field) (v : String) (i : ℕ) (rows : List CameraRow)
      → AreValidated rows
      → AreValidated (edit_at (λ r. validated host (with_field field v r)) i rows)
  edit_at-AreValidated field v i [] h = h
  edit_at-AreValidated field v zero (r ∷ rows) h =
      (validated-validate_row (with_field field v r), h.1)
  edit_at-AreValidated field v (suc i) (r ∷ rows) h = (h.0, edit_at-AreValidated field v i rows h.1)

  remove_at-AreValidated :
      (i : ℕ) (rows : List CameraRow) → AreValidated rows → AreValidated (remove_at i rows)
  remove_at-AreValidated i [] h = h
  remove_at-AreValidated zero (r ∷ rows) h = h.1
  remove_at-AreValidated (suc i) (r ∷ rows) h = (h.0, remove_at-AreValidated i rows h.1)

  -- What holds of the dialog: the errors of the rows are up to date, and the addresses that would be sent
  -- are new to the organization and differ from each other.
  abbrev pub IsClean : Dialog → Type 0
  IsClean d = AreValidated d.rows × (all_fresh d.existing_urls (sent_urls d.rows) ≡ true)

  with_rows-IsClean :
      (d : Dialog) (rows : List CameraRow) → AreValidated rows → IsClean (with_rows host d rows)
  unfolding annotate_duplicates
  with_rows-IsClean d rows v = (
    annotate_from-AreValidated d.existing_urls d.existing_names [] rows v,
    annotate_from-fresh d.existing_urls d.existing_names [] d.existing_urls rows
        (λ u k. ground arith),
  )

  handle-IsClean : (e : DialogEvent) (d : Dialog) → IsClean d → IsClean (handle host e d)
  unfolding handle process_rows handle_cell_edit handle_remove_row handle_existing
  handle-IsClean (loaded []) d c = c
  handle-IsClean (loaded (r ∷ rows)) d c =
      with_rows-IsClean d (map (validated host) (take 500 (r ∷ rows)))
        (map-validated (take 500 (r ∷ rows)))
  handle-IsClean (cell_edited i field v) d c =
      with_rows-IsClean d (edit_at (λ r. validated host (with_field field v r)) i d.rows)
        (edit_at-AreValidated field v i d.rows c.0)
  handle-IsClean (row_removed i) d c =
      with_rows-IsClean d (remove_at i d.rows) (remove_at-AreValidated i d.rows c.0)
  handle-IsClean (existing_loaded urls names) d c =
      with_rows-IsClean (record d { existing_urls = urls; existing_names = names }) d.rows c.0

  -- Over every sequence of files, edits, removals and answers with the organization's cameras, from a
  -- dialog for which it holds, such as one without rows: the errors of each row are those of its
  -- validation, and the trimmed addresses of the pull rows that would be sent, which have no errors and
  -- are not flagged, are none of the organization's and differ from each other.
  pub handle_all-IsClean :
      (es : List DialogEvent) (d : Dialog) → IsClean d → IsClean (handle_all host es d)
  unfolding handle_all
  handle_all-IsClean [] d c = c
  handle_all-IsClean (e ∷ es) d c = handle_all-IsClean es (handle host e d) (handle-IsClean e d c)
