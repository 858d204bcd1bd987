-- ===== src/Cameras/Service/Import.antt =====
-- What an import makes of the rows that it is given.
use sms_app.Base.{
  ℕ, ◌+◌, String, Bool, true, not, ◌&&◌, Option, List, [], ◌∷◌, ◌≡◌, refl, arith, if◌then◌else◌,
  string_eq, any, count_by, contains, length, ok, Result-cases, inl, inr,
}
use sms_app.Camera.{truthy}
use sms_app.Cameras.Service.{
  Row, NewCamera, Imported, is_push, has_url, text_of, select_rows, insert_all, bulk_import,
}

-- A pull row without an address.
abbrev pub is_blank : NewCamera → Bool
is_blank c = not (is_push c.ingest_mode) && not (truthy c.stream_url)

select_rows-length :
    (existing : String → Bool) (seen : List String) (cs : List NewCamera)
    → length (select_rows existing seen cs).0
        + (select_rows existing seen cs).1
        + count_by is_blank cs
      ≡ length cs
unfolding select_rows
select_rows-length existing seen [] = refl
select_rows-length existing seen (c ∷ cs) = ground (
  arith,
  select_rows-length existing seen cs,
  select_rows-length existing (text_of c.stream_url ∷ seen) cs,
)

-- The addresses that are chosen for pull cameras: each is new to the organization and to the rows before.
abbrev pub are_new : (String → Bool) → List String → List NewCamera → Bool
are_new existing seen [] = true
are_new existing seen (c ∷ cs) =
    let push = are_new existing seen cs in
    let pull = are_new existing (text_of c.stream_url ∷ seen) cs in
    if is_push c.ingest_mode
    then push
    else not (existing (text_of c.stream_url))
      && (not (contains seen (text_of c.stream_url)) && pull)

select_rows-are_new :
    (existing : String → Bool) (seen : List String) (cs : List NewCamera)
    → are_new existing seen (select_rows existing seen cs).0 ≡ true
unfolding select_rows
select_rows-are_new existing seen [] = refl
select_rows-are_new existing seen (c ∷ cs) = ground (
  arith,
  select_rows-are_new existing seen cs,
  select_rows-are_new existing (text_of c.stream_url ∷ seen) cs,
)

-- An import that succeeds accounts for every row: it is imported, skipped, or a pull row without an
-- address. The rows that it inserts are chosen such that no pull address is one of the organization's or
-- comes twice.
pub import_accounts :
    (limit : Option ℕ) (site_found : Bool) (host : String) (ids keys : ℕ → String)
    (org site : String) (default : Option String) (cameras : List NewCamera) (rows : List Row)
    (result : Imported)
    → bulk_import limit site_found host ids keys org site default cameras rows ≡ ok result
    → (chosen : List NewCamera) × (insert_all host ids keys org site default 0 chosen rows
        ≡ ok result.rows)
      × (result.imported ≡ length chosen)
      × (result.imported + result.skipped + count_by is_blank cameras ≡ length cameras)
      × (are_new (λ url. any (has_url org url) rows) [] chosen ≡ true)
unfolding bulk_import
import_accounts limit site_found host ids keys org site default cameras rows result h =
    let existing : String → Bool = λ url. any (has_url org url) rows in
    let chosen = (select_rows existing [] cameras).0 in
    elim (Result-cases (insert_all host ids keys org site default 0 chosen rows)) [
      | inl (e, f) ↦ absurd (ground arith)
      | inr (more, f) ↦ (
        chosen,
        ground arith,
        ground arith,
        ground (arith, select_rows-length existing [] cameras),
        select_rows-are_new existing [] cameras,
      )
    ]
