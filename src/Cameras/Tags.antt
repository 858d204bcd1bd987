-- ===== src/Cameras/Tags.antt =====
-- apps/api/src/cameras/tag-normalize.ts and `bulkTagAction` of cameras.service.ts: the tags of the
-- cameras. `trim`, `toLowerCase` and the length of a text are the host's: parameters.
pub mod Normal
pub mod Bulk
mod Examples
use sms_app.Base.{
  ℕ, suc, ◌+◌, String, Bool, true, false, not, ◌&&◌, ◌||◌, Option, none, some, List, [], ◌∷◌, ◌++◌,
  map, if◌then◌else◌, ◌==◌, string_eq, nat_eq, ltb, keep, length, contains, Result, ok, err, Error,
  bad_request, failure, ◌>>=◌,
}

abbrev pub tag_max_length : ℕ
tag_max_length = 50

abbrev pub tag_max_per_camera : ℕ
tag_max_per_camera = 20

abbrev pub too_long : Error
too_long = failure "Tag validation failed: too_long"

abbrev pub too_many : Error
too_many = failure "Tag validation failed: too_many"

abbrev pub push_front : String → Result (List String) → Result (List String)
push_front t (ok ts) = ok (t ∷ ts)
push_front t (err e) = err e

-- The texts that the service gets from the host language.
pub record Texts : Type 0 where
  pub trim : String → String
  pub lower : String → String
  pub size : String → ℕ

pub data TagAction : Type 0 where
  add remove : TagAction

-- The columns of a camera that the action reads.
pub record Tagged : Type 0 where
  pub id : String
  pub org_id : String
  pub tags : List String

-- The tags before and after the update of a camera, as the audit entry has them.
pub record TagDiff : Type 0 where
  pub camera : String
  pub before : List String
  pub after : List String

-- What a request does: the rows, the updates with their audit entries, whether the tag cache of the
-- organization is invalidated, and the answer.
pub record TagOutcome : Type 0 where
  pub rows : List Tagged
  pub diffs : List TagDiff
  pub invalidated : Bool
  pub answer : Result ℕ

module _ (texts : Texts) where
  -- The loop, with the lower-case forms seen so far; the tags that it collects.
  unfoldable pub collect : List String → List String → Result (List String)
  collect seen [] = ok []
  collect seen (raw ∷ rest) =
      let blank = collect seen rest in
      let repeated = collect seen rest in
      let fresh =
        push_front (texts.trim raw) (collect (texts.lower (texts.trim raw) ∷ seen) rest) in
      if texts.trim raw == ""
      then blank
      else if ltb tag_max_length (texts.size (texts.trim raw))
      then err too_long
      else if contains seen (texts.lower (texts.trim raw))
      then repeated
      else fresh

  unfoldable pub normalize_for_display : List String → Result (List String)
  unfolding collect
  normalize_for_display raw =
      collect [] raw >>= λ out. if ltb tag_max_per_camera (length out) then err too_many else ok out

  unfoldable pub collect_lower : List String → List String → List String
  collect_lower seen [] = []
  collect_lower seen (raw ∷ rest) =
      let k = texts.lower (texts.trim raw) in
      let dropped = collect_lower seen rest in
      let fresh = k ∷ collect_lower (k ∷ seen) rest in
      if k == "" then dropped else if contains seen k then dropped else fresh

  unfoldable pub normalize_for_db : List String → List String
  unfolding collect_lower
  normalize_for_db raw = collect_lower [] raw

  -- The tags after the action on one camera: `none` where nothing changes, and what throws.
  unfoldable pub tags_after : TagAction → String → List String → Result (Option (List String))
  unfolding normalize_for_display
  tags_after add target before =
      if contains (map texts.lower before) (texts.lower target)
      then ok none
      else normalize_for_display (before ++ target ∷ []) >>= λ after. ok (some after)
  tags_after remove target before =
      let after = keep (λ t. not (texts.lower t == texts.lower target)) before in
      if length after == length before then ok none else ok (some after)

  abbrev with_tags : List String → Tagged → Tagged
  with_tags tags c = record c { tags = tags }

  -- The loop over the cameras that the query finds: their rows, the updates and the exception that
  -- ends it. The rows after that exception stay.
  unfoldable pub tag_loop :
      TagAction → String → List Tagged → List Tagged × List TagDiff × Option Error
  unfolding tags_after
  tag_loop action target [] = ([], [], none)
  tag_loop action target (c ∷ cs) = elim (tags_after action target c.tags) [
    | err e ↦ (c ∷ cs, [], some e)
    | ok none ↦ let (rows, diffs, failed) = tag_loop action target cs in (c ∷ rows, diffs, failed)
    | ok (some after) ↦
        let (rows, diffs, failed) = tag_loop action target cs in
        (
          with_tags after c ∷ rows,
          record { camera = c.id; before = c.tags; after = after } ∷ diffs,
          failed,
        )
  ]

  -- The end of the request: an exception of the loop skips the invalidation.
  abbrev finish : List Tagged × List TagDiff × Option Error → TagOutcome
  finish (rows, diffs, some e) = record {
    rows = rows;
    diffs = diffs;
    invalidated = false;
    answer = err e;
  }
  finish (rows, diffs, none) = record {
    rows = rows;
    diffs = diffs;
    invalidated = ltb 0 (length diffs);
    answer = ok (length diffs);
  }

  -- `cameras` are the rows of the organization among the request's ids.
  unfoldable pub bulk_tag_action : TagAction → String → List Tagged → TagOutcome
  unfolding tag_loop
  bulk_tag_action action tag cameras =
      if texts.trim tag == ""
      then record {
        rows = cameras;
        diffs = [];
        invalidated = false;
        answer = err (bad_request "Tag must not be empty");
      }
      else finish (tag_loop action (texts.trim tag) cameras)
