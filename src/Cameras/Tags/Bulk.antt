-- ===== src/Cameras/Tags/Bulk.antt =====
-- The bulk action: a tag added and removed again, and an update that throws.
use sms_app.Base.{
  String, false, not, none, some, List, [], ◌∷◌, ◌++◌, map, ◌≡◌, refl, ◌∙◌, arith, ◌==◌, string_eq,
  nat_eq, eq_iff, eq_refl, length-append, keep, keep-append, contains, ok, err, Error, Result-cases,
  inl, inr, append-nil,
}
use sms_app.Cameras.Tags.{
  Texts, Tagged, TagDiff, TagAction, add, remove, normalize_for_display, tags_after, tag_loop,
  bulk_tag_action,
}
use sms_app.Cameras.Tags.Normal.{normalize-collect, collect_add}

module _ (texts : Texts) where
  add_appends :
      (target : String) (before after : List String)
      → texts.trim target ≡ target
      → (target == "") ≡ false
      → normalize_for_display texts before ≡ ok before
      → tags_after texts add target before ≡ ok (some after)
      → (contains (map texts.lower before) (texts.lower target) ≡ false)
        × (after ≡ before ++ target ∷ [])
  unfolding tags_after
  add_appends target before after trimmed filled normal h =
      elim (Result-cases (normalize_for_display texts (before ++ target ∷ []))) [
        | inl (e, f) ↦ (ground arith, ground arith)
        | inr (more, f) ↦
            let absent : contains (map texts.lower before) (texts.lower target) ≡ false =
              ground arith in
            let same : after ≡ more = ground arith in
            let (c, bound) = normalize-collect texts (before ++ target ∷ []) more f in
            let (d, small) = normalize-collect texts before before normal in
            (absent, same ∙ collect_add texts target trimmed filled [] before more d refl absent c)
      ]

  keep_absent :
      (k : String) (tags : List String)
      → contains (map texts.lower tags) k ≡ false
      → keep (λ t. not (texts.lower t == k)) tags ≡ tags
  keep_absent k [] h = refl
  keep_absent k (t ∷ ts) h =
      ground (arith, keep_absent k ts, eq_iff k (texts.lower t), eq_iff (texts.lower t) k)

  remove_last :
      (target : String) (before : List String)
      → contains (map texts.lower before) (texts.lower target) ≡ false
      → tags_after texts remove target (before ++ target ∷ []) ≡ ok (some before)
  unfolding tags_after
  remove_last target before absent = ground (
    arith,
    keep-append (λ t. not (texts.lower t == texts.lower target)) before (target ∷ []),
    keep_absent (texts.lower target) before absent,
    append-nil before,
    length-append before (target ∷ []),
    eq_refl (texts.lower target),
  )

  -- For tags that are normal: where adding a tag changes them, removing the tag gives them back.
  pub add-remove :
      (target : String) (before after : List String)
      → texts.trim target ≡ target
      → (target == "") ≡ false
      → normalize_for_display texts before ≡ ok before
      → tags_after texts add target before ≡ ok (some after)
      → tags_after texts remove target after ≡ ok (some before)
  add-remove target before after trimmed filled normal h =
      let (absent, e) = add_appends target before after trimmed filled normal h in
      rw e (remove_last target before absent)

  -- What the loop does up to a camera whose update throws.
  tag_loop-append :
      (action : TagAction) (target : String) (cs ds : List Tagged) (c : Tagged) (rows : List Tagged)
      (diffs : List TagDiff) (e : Error)
      → tag_loop texts action target cs ≡ (rows, diffs, none)
      → tags_after texts action target c.tags ≡ err e
      → tag_loop texts action target (cs ++ c ∷ ds) ≡ (rows ++ c ∷ ds, diffs, some e)
  unfolding tag_loop
  tag_loop-append action target [] ds c rows diffs e h f = ground arith
  tag_loop-append action target (b ∷ cs) ds c rows diffs e h f =
      let (rows', diffs', failed) = tag_loop texts action target cs in
      ground (arith, tag_loop-append action target cs ds c rows' diffs' e)

  -- Where the update of a camera throws, the request answers the exception and the cameras before keep
  -- the tags that they got, also if there are such; the organization's tag cache is not invalidated.
  pub failed_update_keeps_earlier :
      (action : TagAction) (tag : String) (cs ds : List Tagged) (c : Tagged) (rows : List Tagged)
      (diffs : List TagDiff) (e : Error)
      → (texts.trim tag == "") ≡ false
      → tag_loop texts action (texts.trim tag) cs ≡ (rows, diffs, none)
      → tags_after texts action (texts.trim tag) c.tags ≡ err e
      → bulk_tag_action texts action tag (cs ++ c ∷ ds)
        ≡ record { rows = rows ++ c ∷ ds; diffs = diffs; invalidated = false; answer = err e }
  unfolding bulk_tag_action
  failed_update_keeps_earlier action tag cs ds c rows diffs e filled h f =
      rw filled (rw (tag_loop-append action (texts.trim tag) cs ds c rows diffs e h f))
