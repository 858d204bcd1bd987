-- ===== src/Streams/Profiles/Counts.antt =====
-- How many profiles and default profiles an organization has after each change of the table.
use sms_app.Base.{
  ℕ, ◌+◌, ◌≤◌, String, Bool, true, false, not, ◌&&◌, none, some, List, [], ◌∷◌, ◌≡◌, refl, arith,
  if◌then◌else◌, ◌==◌, string_eq, nat_eq, eq_iff, eq_refl, any, find, count_by, one_if,
  count_by-map, count_by-replace_first, count_by-remove_first, count_by_le, count_by_split,
  find-map,
}
use sms_app.Streams.Profiles.{
  ProfileRow, UpdateProfile, has_id, in_org, is_default_of, undefault, clear_default, clear_if,
  patch_row, makes_default, updated_rows,
}

abbrev pub profile_count : String → List ProfileRow → ℕ
profile_count org rows = count_by (in_org org) rows

abbrev pub default_count : String → List ProfileRow → ℕ
default_count org rows = count_by (is_default_of org) rows

count_by-clear_default :
    (q : ProfileRow → Bool) (org : String) (rows : List ProfileRow)
    → ((r : ProfileRow) → q (undefault org r) ≡ q r)
    → count_by q (clear_default org rows) ≡ count_by q rows
unfolding clear_default
count_by-clear_default q org rows h = count_by-map q (undefault org) rows h

default_count-clear_default :
    (o org : String) (rows : List ProfileRow)
    → default_count o (clear_default org rows) ≡ (if o == org then 0 else default_count o rows)
unfolding clear_default
default_count-clear_default o org [] = ground arith
default_count-clear_default o org (r ∷ rows) =
    unfold clear_default in
    ground (
      arith,
      default_count-clear_default o org rows,
      eq_iff o org,
      eq_iff r.org_id o,
      eq_iff r.org_id org,
    )

pub profile_count-clear_if :
    (b : Bool) (o org : String) (rows : List ProfileRow)
    → profile_count o (clear_if b org rows) ≡ profile_count o rows
profile_count-clear_if true o org rows =
    count_by-clear_default (in_org o) org rows (λ r. ground arith)
profile_count-clear_if false o org rows = refl

pub has_id-clear_if :
    (b : Bool) (id org : String) (rows : List ProfileRow)
    → count_by (has_id id) (clear_if b org rows) ≡ count_by (has_id id) rows
has_id-clear_if true id org rows = count_by-clear_default (has_id id) org rows (λ r. ground arith)
has_id-clear_if false id org rows = refl

pub default_count-clear_if :
    (b : Bool) (o org : String) (rows : List ProfileRow)
    → default_count o (clear_if b org rows) ≡ (if b && o == org then 0 else default_count o rows)
default_count-clear_if true o org rows = ground (arith, default_count-clear_default o org rows)
default_count-clear_if false o org rows = refl

pub any-none :
    (p : ProfileRow → Bool) (rows : List ProfileRow) → any p rows ≡ false → count_by p rows ≡ 0
any-none p [] h = refl
any-none p (r ∷ rows) h = ground (arith, any-none p rows)

pub default_count-le :
    (o : String) (rows : List ProfileRow) → default_count o rows ≤ profile_count o rows
default_count-le o rows = count_by_le (is_default_of o) (in_org o) rows (λ r h. ground arith)

-- The row that an update finds, as it stands after the default was cleared.
find-clear_if :
    (b : Bool) (id org : String) (rows : List ProfileRow) (pre : ProfileRow)
    → find (has_id id) rows ≡ some pre
    → find (has_id id) (clear_if b org rows) ≡ some (if b then undefault org pre else pre)
unfolding clear_default
find-clear_if true id org rows pre h =
    find-map (has_id id) (undefault org) rows pre (λ r. ground arith) h
find-clear_if false id org rows pre h = h

module _ (id : String) (dto : UpdateProfile) (pre : ProfileRow) (rows : List ProfileRow)
    (h : find (has_id id) rows ≡ some pre) where
  found_row : ProfileRow
  found_row = if makes_default dto then undefault pre.org_id pre else pre

  count_by-updated_rows :
      (q : ProfileRow → Bool)
      → count_by q (updated_rows id dto pre rows) + one_if q found_row
        ≡ count_by q (clear_if (makes_default dto) pre.org_id rows)
          + one_if q (patch_row dto found_row)
  unfolding updated_rows found_row
  count_by-updated_rows q =
      count_by-replace_first q (has_id id) (patch_row dto)
        (clear_if (makes_default dto) pre.org_id rows)
        (if makes_default dto then undefault pre.org_id pre else pre)
        (find-clear_if (makes_default dto) id pre.org_id rows pre h)

  pub profile_count-updated_rows :
      (o : String) → profile_count o (updated_rows id dto pre rows) ≡ profile_count o rows
  unfolding found_row
  profile_count-updated_rows o = ground (
    arith,
    count_by-updated_rows (in_org o),
    profile_count-clear_if (makes_default dto) o pre.org_id rows,
  )

  pub has_id-updated_rows :
      (i : String) → count_by (has_id i) (updated_rows id dto pre rows) ≡ count_by (has_id i) rows
  unfolding found_row
  has_id-updated_rows i = ground (
    arith,
    count_by-updated_rows (has_id i),
    has_id-clear_if (makes_default dto) i pre.org_id rows,
  )

  -- The defaults of an organization after an update that makes the row the default.
  pub default_count-promote :
      (o : String)
      → dto.is_default ≡ some true
      → default_count o (updated_rows id dto pre rows)
        ≡ (if o == pre.org_id then 1 else default_count o rows)
  unfolding found_row
  default_count-promote o e = ground (
    arith,
    count_by-updated_rows (is_default_of o),
    default_count-clear_if (makes_default dto) o pre.org_id rows,
    eq_iff o pre.org_id,
    eq_iff pre.org_id o,
    eq_refl pre.org_id,
  )

  pub default_count-keep :
      (o : String)
      → dto.is_default ≡ none
      → default_count o (updated_rows id dto pre rows) ≡ default_count o rows
  unfolding found_row
  default_count-keep o e = ground (
    arith,
    count_by-updated_rows (is_default_of o),
    default_count-clear_if (makes_default dto) o pre.org_id rows,
  )

  pub default_count-demote :
      (o : String)
      → dto.is_default ≡ some false
      → default_count o (updated_rows id dto pre rows) + one_if (is_default_of o) pre
        ≡ default_count o rows
  unfolding found_row
  default_count-demote o e = ground (
    arith,
    count_by-updated_rows (is_default_of o),
    default_count-clear_if (makes_default dto) o pre.org_id rows,
  )

-- A row that is there counts.
pub found_profile_count :
    (id : String) (rows : List ProfileRow) (pre : ProfileRow)
    → find (has_id id) rows ≡ some pre
    → 1 ≤ profile_count pre.org_id rows
found_profile_count id rows pre e =
    ground
      (arith, count_by-remove_first (in_org pre.org_id) (has_id id) rows pre e, eq_refl pre.org_id)

-- The guard of `delete`: where no other profile of the organization is left, there was one.
pub count_without_others :
    (org id : String) (rows : List ProfileRow)
    → count_by (has_id id) rows ≤ 1
    → count_by (λ r. in_org org r && not (has_id id r)) rows ≡ 0
    → profile_count org rows ≤ 1
count_without_others org id rows u z = ground (
  arith,
  count_by_split (in_org org) (has_id id) rows,
  count_by_le (λ r. in_org org r && has_id id r) (has_id id) rows (λ r h. ground arith),
)
