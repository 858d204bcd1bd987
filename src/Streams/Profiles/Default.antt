-- ===== src/Streams/Profiles/Default.antt =====
-- The default profile of each organization, over any sequence of requests.
use sms_app.Base.{
  ◌≤◌, String, Bool, true, false, ◌||◌, some, List, [], ◌∷◌, ◌≡◌, refl, arith, if◌then◌else◌, ◌==◌,
  string_eq, nat_eq, eq_iff, eq_refl, any, find, count_by, remove_first, All, count_by-remove_first,
  Bool-cases, Option-cases, inl, inr,
}
use sms_app.Streams.Profiles.{
  ProfileRow, CreateProfile, UpdateProfile, has_id, in_org, is_default_of, create, set_or, update,
  delete, Request, created, updated, deleted, handle, handle_all, rows_or,
}
use sms_app.Streams.Profiles.Counts.{
  profile_count, default_count, profile_count-clear_if, has_id-clear_if, default_count-clear_if,
  any-none, default_count-le, profile_count-updated_rows, has_id-updated_rows,
  default_count-promote, default_count-keep, default_count-demote, found_profile_count,
  count_without_others,
}

-- Ids are primary keys, and no organization has two default profiles.
pub record IsSound (rows : List ProfileRow) : Type 0 where
  pub unique : (id : String) → count_by (has_id id) rows ≤ 1
  pub at_most : (org : String) → default_count org rows ≤ 1

create-IsSound :
    (id org : String) (dto : CreateProfile) (rows : List ProfileRow)
    → IsSound rows
    → IsSound (rows_or rows (create id org dto rows))
unfolding create
create-IsSound id org dto rows s = elim (Bool-cases (any (has_id id) rows)) [
  | inl e ↦ rw e s
  | inr e ↦ rw e (record {
    unique = λ i. ground (
      arith,
      any-none (has_id id) rows,
      s.unique i,
      has_id-clear_if (count_by (in_org org) rows == 0 || dto.is_default) i org rows,
      eq_iff id i,
    );
    at_most = λ o. ground (
      arith,
      s.at_most o,
      default_count-clear_if (count_by (in_org org) rows == 0 || dto.is_default) o org rows,
      eq_iff o org,
      eq_iff org o,
    );
  })
]

update-IsSound :
    (id : String) (dto : UpdateProfile) (rows : List ProfileRow)
    → IsSound rows
    → IsSound (rows_or rows (update id dto rows))
unfolding update
update-IsSound id dto rows s = elim (Option-cases (find (has_id id) rows)) [
  | inl e ↦ rw e s
  | inr (pre, e) ↦ rw e (record {
    unique = λ i. ground (arith, has_id-updated_rows id dto pre rows e i, s.unique i);
    at_most = λ o. elim (Option-cases dto.is_default) [
      | inl f ↦ ground (arith, default_count-keep id dto pre rows e o f, s.at_most o)
      | inr (true, f) ↦ ground (arith, default_count-promote id dto pre rows e o f, s.at_most o)
      | inr (false, f) ↦ ground (arith, default_count-demote id dto pre rows e o f, s.at_most o)
    ];
  })
]

delete-IsSound :
    (id : String) (used_by : List String) (rows : List ProfileRow)
    → IsSound rows
    → IsSound (rows_or rows (delete id used_by rows))
unfolding delete
delete-IsSound id used_by rows s = elim (Option-cases (find (has_id id) rows)) [
  | inl e ↦ rw e s
  | inr (r, e) ↦ rw e (record {
    unique = λ i. ground (arith, count_by-remove_first (has_id i) (has_id id) rows r e, s.unique i);
    at_most = λ o.
        ground (arith, count_by-remove_first (is_default_of o) (has_id id) rows r e, s.at_most o);
  })
]

-- Every organization that has profiles has one default.
abbrev pub IsCovered : List ProfileRow → Type 0
IsCovered rows =
    (org : String) → default_count org rows ≡ (if profile_count org rows == 0 then 0 else 1)

-- No request sets `isDefault` to false.
abbrev pub no_demotion : Request → Bool
no_demotion (updated id dto) = set_or true dto.is_default
no_demotion _ = true

create-IsCovered :
    (id org : String) (dto : CreateProfile) (rows : List ProfileRow)
    → IsCovered rows
    → IsCovered (rows_or rows (create id org dto rows))
unfolding create
create-IsCovered id org dto rows c = elim (Bool-cases (any (has_id id) rows)) [
  | inl e ↦ rw e c
  | inr e ↦ rw e (λ o. ground (
    arith,
    c o,
    default_count-clear_if (count_by (in_org org) rows == 0 || dto.is_default) o org rows,
    profile_count-clear_if (count_by (in_org org) rows == 0 || dto.is_default) o org rows,
    eq_iff o org,
    eq_iff org o,
  ))
]

update-IsCovered :
    (id : String) (dto : UpdateProfile) (rows : List ProfileRow)
    → no_demotion (updated id dto) ≡ true
    → IsCovered rows
    → IsCovered (rows_or rows (update id dto rows))
unfolding update
update-IsCovered id dto rows k c = elim (Option-cases (find (has_id id) rows)) [
  | inl e ↦ rw e c
  | inr (pre, e) ↦ rw e (λ o. elim (Option-cases dto.is_default) [
    | inl f ↦ ground (
      arith,
      default_count-keep id dto pre rows e o f,
      profile_count-updated_rows id dto pre rows e o,
      c o,
    )
    | inr (true, f) ↦ ground (
      arith,
      default_count-promote id dto pre rows e o f,
      profile_count-updated_rows id dto pre rows e o,
      c o,
      found_profile_count id rows pre e,
      eq_iff o pre.org_id,
    )
    | inr (false, f) ↦ ground (arith)
  ])
]

delete-IsCovered :
    (id : String) (used_by : List String) (rows : List ProfileRow)
    → IsSound rows
    → IsCovered rows
    → IsCovered (rows_or rows (delete id used_by rows))
unfolding delete
delete-IsCovered id used_by rows s c = elim (Option-cases (find (has_id id) rows)) [
  | inl e ↦ rw e c
  | inr (r, e) ↦ rw e (λ o. ground (
    arith,
    count_by-remove_first (is_default_of o) (has_id id) rows r e,
    count_by-remove_first (in_org o) (has_id id) rows r e,
    count_without_others r.org_id r.id rows (s.unique r.id),
    found_profile_count id rows r e,
    default_count-le o (remove_first (has_id id) rows),
    eq_iff r.org_id o,
    c o,
    s.at_most o,
  ))
]

handle-IsSound : (r : Request) (rows : List ProfileRow) → IsSound rows → IsSound (handle r rows)
unfolding handle
handle-IsSound (created id org dto) rows s = create-IsSound id org dto rows s
handle-IsSound (updated id dto) rows s = update-IsSound id dto rows s
handle-IsSound (deleted id used_by) rows s = delete-IsSound id used_by rows s

handle-IsCovered :
    (r : Request) (rows : List ProfileRow)
    → no_demotion r ≡ true
    → IsSound rows
    → IsCovered rows
    → IsCovered (handle r rows)
unfolding handle
handle-IsCovered (created id org dto) rows k s c = create-IsCovered id org dto rows c
handle-IsCovered (updated id dto) rows k s c = update-IsCovered id dto rows k c
handle-IsCovered (deleted id used_by) rows k s c = delete-IsCovered id used_by rows s c

handle_all-IsSound :
    (requests : List Request) (rows : List ProfileRow)
    → IsSound rows
    → IsSound (handle_all requests rows)
unfolding handle_all
handle_all-IsSound [] rows s = s
handle_all-IsSound (r ∷ rs) rows s = handle_all-IsSound rs (handle r rows) (handle-IsSound r rows s)

handle_all-IsCovered :
    (requests : List Request) (rows : List ProfileRow)
    → All (λ r. no_demotion r ≡ true) requests
    → IsSound rows
    → IsCovered rows
    → IsCovered (handle_all requests rows)
unfolding handle_all
handle_all-IsCovered [] rows ks s c = c
handle_all-IsCovered (r ∷ rs) rows (k, ks) s c =
    handle_all-IsCovered rs (handle r rows) ks (handle-IsSound r rows s)
      (handle-IsCovered r rows k s c)

empty-IsSound : IsSound []
empty-IsSound = record { unique = λ id. omega arith; at_most = λ org. omega arith }

-- After any requests to create, update and delete profiles, no organization has two defaults.
pub at_most_one_default :
    (requests : List Request) (org : String) → default_count org (handle_all requests []) ≤ 1
at_most_one_default requests org = (handle_all-IsSound requests [] empty-IsSound).at_most org

-- After any requests of which none sets `isDefault` to false, an organization has exactly one default
-- profile if it has any profile.
pub one_default :
    (requests : List Request) (org : String)
    → All (λ r. no_demotion r ≡ true) requests
    → default_count org (handle_all requests [])
      ≡ (if profile_count org (handle_all requests []) == 0 then 0 else 1)
one_default requests org ks = handle_all-IsCovered requests [] ks empty-IsSound (λ o. refl) org

-- In any table that requests lead to, an update that sets `isDefault` to false on the default profile of
-- an organization keeps the organization's profiles and leaves it without a default.
pub demotion_leaves_none :
    (requests : List Request) (id : String) (dto : UpdateProfile) (pre : ProfileRow)
    → find (has_id id) (handle_all requests []) ≡ some pre
    → pre.is_default ≡ true
    → dto.is_default ≡ some false
    → (1 ≤ profile_count pre.org_id (handle (updated id dto) (handle_all requests [])))
      × (default_count pre.org_id (handle (updated id dto) (handle_all requests [])) ≡ 0)
unfolding handle update
demotion_leaves_none requests id dto pre e d f =
    let rows = handle_all requests [] in
    rw e (
      ground (
        arith,
        found_profile_count id rows pre e,
        profile_count-updated_rows id dto pre rows e pre.org_id,
      ),
      ground (
        arith,
        default_count-demote id dto pre rows e pre.org_id f,
        at_most_one_default requests pre.org_id,
        eq_refl pre.org_id,
      ),
    )
