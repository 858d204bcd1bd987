-- ===== src/Cameras/Keys.antt =====
-- The rotation of a stream key.
use sms_app.Base.{
  ◌≤◌, String, false, Option, none, some, List, ◌≡◌, ◌≢◌, arith, string_eq, eq_iff, eq_refl, any,
  find, count_by, replace_first, find-none, find-replace_first_new, count_by-replace_first, ok,
}
use sms_app.Cameras.Service.{Row, Call, has_id, has_key}
use sms_app.Cameras.Changes.{
  others, with_key, find_by_stream_key, resolve_forward_target, rotate_stream_key,
}

-- A rotation that succeeds, in a table where each stream key is one camera's: the old key is no camera's
-- any more, so that a publisher with it finds none, and the new key is this camera's.
pub rotation_revokes_key :
    (prefix : String → String) (host : String) (client : Option String) (old new id : String)
    (rows : List Row) (r : Row) (result : List Row × List Call)
    → ((key : String) → count_by (has_key key) rows ≤ 1)
    → find (has_id id) rows ≡ some r
    → r.stream_key ≡ some old
    → old ≢ new
    → rotate_stream_key prefix host client new id rows ≡ ok result
    → (find_by_stream_key old result.0 ≡ none)
      × (find_by_stream_key new result.0 ≡ some (with_key host new r))
      × (resolve_forward_target new result.0 ≡ some (r.org_id, r.id, r.needs_transcode))
unfolding rotate_stream_key find_by_stream_key resolve_forward_target
rotation_revokes_key prefix host client old new id rows r result unique e k different h =
    let counts = count_by-replace_first (has_key old) (has_id id) (with_key host new) rows r e in
    let found_new =
      find-replace_first_new (has_id id) (has_key new) (with_key host new) rows r e (eq_refl new) in
    let replaced : result.0 ≡ replace_first (has_id id) (with_key host new) rows = ground arith in
    let free : any (has_key new) (others id rows) ≡ false = ground arith in
    rw replaced (
      find-none (has_key old) (replace_first (has_id id) (with_key host new) rows)
          (ground (arith, counts, unique old, eq_refl old, eq_iff new old)),
      found_new free,
      ground (arith, found_new free),
    )
