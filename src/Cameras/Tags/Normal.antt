-- ===== src/Cameras/Tags/Normal.antt =====
-- What the normalization of tags gives.
use sms_app.Base.{
  ◌≤◌, String, Bool, true, false, not, ◌&&◌, ◌||◌, List, [], ◌∷◌, ◌++◌, map, ◌≡◌, refl, subst, ◌∙◌,
  arith, ap, if◌then◌else◌, ◌==◌, string_eq, eq_iff, eq_refl, ltb, length, contains, Result, ok,
  err, Result-cases, inl, inr,
}
use sms_app.Cameras.Tags.{
  Texts, tag_max_length, tag_max_per_camera, collect, normalize_for_display, push_front, too_long,
}

abbrev pub every : (String → Bool) → List String → Bool
every p [] = true
every p (t ∷ ts) = p t && every p ts

module _ (texts : Texts) where
  -- A tag as it is stored: not empty and not too long.
  abbrev pub is_stored_tag : String → Bool
  is_stored_tag t = not (t == "") && not (ltb tag_max_length (texts.size t))

  -- No two tags are the same up to case, and none is among the given forms.
  abbrev pub no_repeat : List String → List String → Bool
  no_repeat seen [] = true
  no_repeat seen (t ∷ ts) =
      not (contains seen (texts.lower t)) && no_repeat (texts.lower t ∷ seen) ts

  -- A given tag is blank, or its form is among the seen ones or those of the result.
  abbrev pub is_kept : List String → List String → String → Bool
  is_kept seen out raw =
      texts.trim raw == ""
      || (contains seen (texts.lower (texts.trim raw))
          || contains (map texts.lower out) (texts.lower (texts.trim raw)))

  -- Where the fresh branch succeeds, its tag heads the result.
  push_front_ok :
      (t : String) (r : Result (List String)) (out : List String)
      → push_front t r ≡ ok out
      → (rest : List String) × (r ≡ ok rest) × (out ≡ t ∷ rest)
  push_front_ok t (ok rest) out h = (rest, refl, ground arith)
  push_front_ok t (err e) out h = ground arith

  collect-no_repeat :
      (seen raw out : List String) → collect texts seen raw ≡ ok out → no_repeat seen out ≡ true
  unfolding collect
  collect-no_repeat seen [] out h = ground arith
  collect-no_repeat seen (raw ∷ rest) out h =
      elim (Result-cases (collect texts (texts.lower (texts.trim raw) ∷ seen) rest)) [
        | inl (e, f) ↦ ground (arith, collect-no_repeat seen rest out)
        | inr (more, f) ↦ ground (
          arith,
          collect-no_repeat seen rest out,
          collect-no_repeat (texts.lower (texts.trim raw) ∷ seen) rest more f,
        )
      ]

  collect-stored :
      (seen raw out : List String)
      → collect texts seen raw ≡ ok out
      → every is_stored_tag out ≡ true
  unfolding collect
  collect-stored seen [] out h = ground arith
  collect-stored seen (raw ∷ rest) out h =
      elim (Result-cases (collect texts (texts.lower (texts.trim raw) ∷ seen) rest)) [
        | inl (e, f) ↦ ground (arith, collect-stored seen rest out)
        | inr (more, f) ↦ ground (
          arith,
          collect-stored seen rest out,
          collect-stored (texts.lower (texts.trim raw) ∷ seen) rest more f,
        )
      ]

  -- A form that is seen or in the result stays so when the tag moves from one to the other.
  kept_moved :
      (seen out : List String) (t : String) (raws : List String)
      → every (is_kept (texts.lower t ∷ seen) out) raws ≡ true
      → every (is_kept seen (t ∷ out)) raws ≡ true
  kept_moved seen out t [] h = refl
  kept_moved seen out t (raw ∷ raws) h = ground (arith, kept_moved seen out t raws)

  head_kept :
      (t : String) (more out : List String)
      → out ≡ t ∷ more
      → contains (map texts.lower out) (texts.lower t) ≡ true
  head_kept t more out h = rw h (ground (arith, eq_refl (texts.lower t)))

  collect-kept :
      (seen raw out : List String)
      → collect texts seen raw ≡ ok out
      → every (is_kept seen out) raw ≡ true
  unfolding collect
  collect-kept seen [] out h = refl
  collect-kept seen (raw ∷ rest) out h =
      elim (Result-cases (collect texts (texts.lower (texts.trim raw) ∷ seen) rest)) [
        | inl (e, f) ↦ ground (arith, collect-kept seen rest out)
        | inr (more, f) ↦ ground (
          arith,
          collect-kept seen rest out,
          collect-kept (texts.lower (texts.trim raw) ∷ seen) rest more f,
          kept_moved seen more (texts.trim raw) rest,
          head_kept (texts.trim raw) more out,
        )
      ]

  collect-length :
      (seen raw out : List String) → collect texts seen raw ≡ ok out → length out ≤ length raw
  unfolding collect
  collect-length seen [] out h = ground arith
  collect-length seen (raw ∷ rest) out h =
      elim (Result-cases (collect texts (texts.lower (texts.trim raw) ∷ seen) rest)) [
        | inl (e, f) ↦ ground (arith, collect-length seen rest out)
        | inr (more, f) ↦ ground (
          arith,
          collect-length seen rest out,
          collect-length (texts.lower (texts.trim raw) ∷ seen) rest more f,
        )
      ]

  pub normalize-collect :
      (raw out : List String)
      → normalize_for_display texts raw ≡ ok out
      → (collect texts [] raw ≡ ok out) × (length out ≤ tag_max_per_camera)
  unfolding normalize_for_display
  normalize-collect raw out h = elim (Result-cases (collect texts [] raw)) [
    | inl (e, f) ↦ ground arith
    | inr (more, f) ↦ (ground arith, ground arith)
  ]

  -- What a normalization answers: at most 20 tags, none empty or longer than 50, no two the same up to
  -- case, and every tag given that is not blank, up to case.
  pub normalize_for_display_lem :
      (raw out : List String)
      → normalize_for_display texts raw ≡ ok out
      → (length out ≤ 20)
        × (every is_stored_tag out ≡ true)
        × (no_repeat [] out ≡ true)
        × (every (is_kept [] out) raw ≡ true)
  normalize_for_display_lem raw out h =
      let (c, bound) = normalize-collect raw out h in
      (
        bound,
        collect-stored [] raw out c,
        collect-no_repeat [] raw out c,
        collect-kept [] raw out c,
      )

  -- Tags that are normal: the first one is as `trim` leaves it, and the others are normal behind it.
  normal_cons :
      (x : String) (seen xs : List String)
      → collect texts seen (x ∷ xs) ≡ ok (x ∷ xs)
      → (texts.trim x ≡ x)
        × (contains seen (texts.lower x) ≡ false)
        × (collect texts (texts.lower x ∷ seen) xs ≡ ok xs)
        × ((x == "") ≡ false)
        × (ltb tag_max_length (texts.size x) ≡ false)
  unfolding collect
  normal_cons x seen xs h =
      elim (Result-cases (collect texts (texts.lower (texts.trim x) ∷ seen) xs)) [
        | inl (e, f) ↦ ground (arith, collect-length seen xs (x ∷ xs))
        | inr (more, f) ↦
            let trimmed : texts.trim x ≡ x = ground (arith, collect-length seen xs (x ∷ xs)) in
            let same : more ≡ xs = ground (arith, collect-length seen xs (x ∷ xs)) in
            (
              trimmed,
              ground (arith, collect-length seen xs (x ∷ xs), ap texts.lower trimmed),
              subst (λ y. collect texts (texts.lower y ∷ seen) xs ≡ ok xs) trimmed (rw same at f),
              ground (arith, collect-length seen xs (x ∷ xs)),
              ground (arith, collect-length seen xs (x ∷ xs), ap texts.size trimmed),
            )
      ]

  collect_step :
      (x : String) (seen raw : List String)
      → texts.trim x ≡ x
      → (x == "") ≡ false
      → contains seen (texts.lower x) ≡ false
      → collect texts seen (x ∷ raw) ≡ (
          if ltb tag_max_length (texts.size x)
          then err too_long
          else push_front x (collect texts (texts.lower x ∷ seen) raw))
  unfolding collect
  collect_step x seen raw trimmed filled new = rw trimmed (rw filled (rw new))

  collect_fresh :
      (x : String) (seen raw after : List String)
      → texts.trim x ≡ x
      → (x == "") ≡ false
      → contains seen (texts.lower x) ≡ false
      → collect texts seen (x ∷ raw) ≡ ok after
      → (rest : List String) × (collect texts (texts.lower x ∷ seen) raw ≡ ok rest)
        × (after ≡ x ∷ rest)
  collect_fresh x seen raw after trimmed filled new h =
      push_front_ok x (collect texts (texts.lower x ∷ seen) raw) after
        (ground (arith, collect_step x seen raw trimmed filled new))

  -- Adding one more tag to tags that are normal: where it succeeds the tag comes last.
  pub collect_add :
      (t : String)
      → texts.trim t ≡ t
      → (t == "") ≡ false
      → (seen before after : List String) → collect texts seen before ≡ ok before
      → contains seen (texts.lower t) ≡ false
      → contains (map texts.lower before) (texts.lower t) ≡ false
      → collect texts seen (before ++ t ∷ []) ≡ ok after
      → after ≡ before ++ t ∷ []
  collect_add t trimmed filled seen [] after normal new_seen new h =
      let (rest, r, e) = collect_fresh t seen [] after trimmed filled new_seen h in
      unfold collect in ground arith
  collect_add t trimmed filled seen (x ∷ xs) after normal new_seen new h =
      let (x_trimmed, x_new, xs_normal, x_filled, x_short) = normal_cons x seen xs normal in
      let (rest, r, e) = collect_fresh x seen (xs ++ t ∷ []) after x_trimmed x_filled x_new h in
      e
      ∙ ap (◌∷◌ x) (
          collect_add t trimmed filled (texts.lower x ∷ seen) xs rest xs_normal
            (ground (arith, eq_iff (texts.lower t) (texts.lower x))) (ground arith) r)
