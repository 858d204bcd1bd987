-- ===== src/Policies/Resolve.antt =====
-- Which policy each field of the resolved policy comes from.
use sms_app.Base.{
  ◌<◌, Bool, true, false, Option, none, some, List, [], ◌∷◌, ◌≡◌, refl, ◌∙◌, arith, inl, inr,
  sort_by, insert_by, IsSorted, sort_by-IsSorted, if◌then◌else◌, All, Bool-cases,
}
use sms_app.Policies.{
  Level, camera, site, project, system, Policy, default_ttl_seconds, default_max_viewers,
  level_priority, goes_before, first_set, sourced, first_domains, merge_policies,
}

abbrev pub same_level : Level → Level → Bool
same_level camera camera = true
same_level site site = true
same_level project project = true
same_level system system = true
same_level _ _ = false

-- The value that the policies of one level give a field: that of the first that has one.
abbrev pub at_level {ℓ} : {A : Type ℓ} → (Policy → Option A) → Level → List Policy → Option A
at_level get l [] = none
at_level get l (p ∷ ps) =
    let rest = at_level get l ps in
    if same_level p.level l then elim (get p) [ none ↦ rest | some v ↦ some v ] else rest

abbrev pub or_from {ℓ} : {A : Type ℓ} → Option A → Level → Option (A × Level) → Option (A × Level)
or_from none l rest = rest
or_from (some v) l rest = some (v, l)

-- The camera's value, else its site's, else its project's, else the system's.
abbrev pub by_priority {ℓ} : {A : Type ℓ} → (Policy → Option A) → List Policy → Option (A × Level)
by_priority get ps = or_from (at_level get camera ps) camera (
    or_from (at_level get site ps) site
      (or_from (at_level get project ps) project (or_from (at_level get system ps) system none)))

module _ {ℓ} {A : Type ℓ} (get : Policy → Option A) where
  at_level-swap :
      (l : Level) (p q : Policy) (ps : List Policy)
      → goes_before q p ≡ true
      → at_level get l (q ∷ p ∷ ps) ≡ at_level get l (p ∷ q ∷ ps)
  at_level-swap l p q ps e = ground arith

  at_level-cons :
      (l : Level) (p : Policy) (ps qs : List Policy)
      → at_level get l ps ≡ at_level get l qs
      → at_level get l (p ∷ ps) ≡ at_level get l (p ∷ qs)
  at_level-cons l p ps qs h = ground arith

  at_level-insert :
      (l : Level) (p : Policy) (ps : List Policy)
      → at_level get l (insert_by goes_before p ps) ≡ at_level get l (p ∷ ps)
  unfolding insert_by
  at_level-insert l p [] = refl
  at_level-insert l p (q ∷ qs) = elim (Bool-cases (goes_before q p)) [
    | inl e ↦ rw e (
        at_level-cons l q (insert_by goes_before p qs) (p ∷ qs) (at_level-insert l p qs)
        ∙ at_level-swap l p q qs e)
    | inr e ↦ rw e refl
  ]

  at_level-sort :
      (l : Level) (ps : List Policy) → at_level get l (sort_by goes_before ps) ≡ at_level get l ps
  unfolding sort_by
  at_level-sort l [] = refl
  at_level-sort l (p ∷ ps) =
      at_level-insert l p (sort_by goes_before ps)
      ∙ at_level-cons l p (sort_by goes_before ps) ps (at_level-sort l ps)

  at_level-later :
      (l : Level) (p : Policy) (ps : List Policy)
      → All (λ q. goes_before q p ≡ false) ps
      → level_priority l < level_priority p.level
      → at_level get l ps ≡ none
  at_level-later l p [] a h = refl
  at_level-later l p (q ∷ qs) (e, a) h = ground (arith, at_level-later l p qs a h)

  first_set-sorted :
      (ps : List Policy) → IsSorted goes_before ps → first_set get ps ≡ by_priority get ps
  first_set-sorted [] s = refl
  first_set-sorted (p ∷ ps) (a, s) = ground (
    arith,
    first_set-sorted ps s,
    at_level-later camera p ps a,
    at_level-later site p ps a,
    at_level-later project p ps a,
    at_level-later system p ps a,
  )

  by_priority-sort :
      (ps : List Policy) → by_priority get (sort_by goes_before ps) ≡ by_priority get ps
  by_priority-sort ps = rw (at_level-sort camera ps) (
      rw (at_level-sort site ps)
        (rw (at_level-sort project ps) (rw (at_level-sort system ps) refl)))

  first_set-sort : (ps : List Policy) → first_set get (sort_by goes_before ps) ≡ by_priority get ps
  first_set-sort ps =
      first_set-sorted (sort_by goes_before ps)
        (sort_by-IsSorted goes_before (λ a b h. ground arith) (λ a b c h k. ground arith) ps)
      ∙ by_priority-sort ps

first_domains-first_set :
    (ps : List Policy) → first_domains ps ≡ sourced [] (first_set (λ p. some p.domains) ps)
first_domains-first_set [] = refl
first_domains-first_set (p ∷ ps) = refl

-- In the resolved policy, whatever the order of the rows, the TTL, the viewer limit and the missing
-- referer rule are each that of the CAMERA policies if one sets it, else of the SITE's, else of the
-- PROJECT's, else of the SYSTEM's (of several policies of one level the first row that sets it), with
-- that level as its source, and the built-in default where no policy sets it; the domains are those
-- of the first row of the highest level that has a policy, also where they are empty.
pub merge_policies-by_priority :
    (ps : List Policy)
    → merge_policies ps ≡ record {
      ttl_seconds = sourced default_ttl_seconds (by_priority (λ p. p.ttl_seconds) ps);
      max_viewers = sourced default_max_viewers (by_priority (λ p. p.max_viewers) ps);
      domains = sourced [] (by_priority (λ p. some p.domains) ps);
      allow_no_referer = sourced true (by_priority (λ p. p.allow_no_referer) ps);
    }
unfolding merge_policies
merge_policies-by_priority ps = rw (first_domains-first_set (sort_by goes_before ps)) (
    rw (first_set-sort (λ p. p.ttl_seconds) ps) (
      rw (first_set-sort (λ p. p.max_viewers) ps) (
        rw (first_set-sort (λ p. p.allow_no_referer) ps)
          (rw (first_set-sort (λ p. some p.domains) ps) refl))))
