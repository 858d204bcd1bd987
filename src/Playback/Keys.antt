-- ===== src/Playback/Keys.antt =====
-- `parseStreamKey` of apps/api/src/srs/srs-callback.controller.ts: what the stream and the app of a
-- callback stand for.
pub mod Forms
use sms_app.Base.{
  ℕ, zero, suc, String, Bool, true, false, not, ◌&&◌, ◌||◌, Option, none, some, List, [], ◌∷◌, ◌≡◌,
  refl, sym, ◌∙◌, ap, arith, leb, if◌then◌else◌, ◌==◌, eq_iff, eq_refl, string_eq, find, subst,
  Bool-cases, inl, inr,
}
use sms_app.Playback.{ends_with, drop_char}
use sms_app.Playback.Callbacks.{Parsed, push, live}
use sms_app.Playback.Grants.{ends_with-append}
use text.Mathlib.Text.{starts_with}
use text.Mathlib.TextPositions.{starts_with-append}
use text.Mathlib.TextLemmas.{append_assoc, append_cancel_right}
use Prim.Native.Char.{Char, code}
use Prim.Native.String
use Prim.Native.String.append

abbrev pub is_char : Char → String → Bool
is_char c s = String.◌∷◌ c String.[] == s

abbrev pub is_digit : Char → Bool
is_digit c = leb 48 (code c) && leb (code c) 57

abbrev pub all_digits : String → Bool
all_digits String.[] = true
all_digits (String.◌∷◌ c s) = is_digit c && all_digits s

-- `s.replace(/-\d+$/, '')`
unfoldable pub strip_sequence : String → String
strip_sequence String.[] = ""
strip_sequence (String.◌∷◌ c s) =
    let rest = strip_sequence s in
    if is_char c "-" && not (s == "") && all_digits s then "" else String.◌∷◌ c rest

abbrev pub strip_suffix : String → String → String
strip_suffix suffix String.[] = ""
strip_suffix suffix (String.◌∷◌ c s) =
    let rest = strip_suffix suffix s in if String.◌∷◌ c s == suffix then "" else String.◌∷◌ c rest

abbrev pub extensions : List String
extensions = ".m3u8" ∷ ".ts" ∷ ".m4s" ∷ ".mp4" ∷ ".flv" ∷ []

abbrev pub without_extension : Option String → String → String
without_extension none id = id
without_extension (some extension) id = strip_sequence (strip_suffix extension id)

unfoldable pub canonical_camera_id : String → String
canonical_camera_id id = without_extension (find (ends_with id) extensions) id

abbrev pub onto_first : Char → List String → List String
onto_first c [] = []
onto_first c (s ∷ rest) = String.◌∷◌ c s ∷ rest

-- `path.split('/')`
unfoldable pub split_path : String → List String
split_path String.[] = "" ∷ []
split_path (String.◌∷◌ c s) =
    let rest = split_path s in if is_char c "/" then "" ∷ rest else onto_first c rest

abbrev pub after : String → String → String
after String.[] s = s
after (String.◌∷◌ c prefix) s = after prefix (drop_char s)

-- `path.replace(/^live\//, '')`
abbrev pub without_live : String → String
without_live path = if starts_with path "live/" then after "live/" path else path

abbrev pub parsed_parts : List String → Parsed
parsed_parts [] = live none
parsed_parts (org ∷ []) = live none
parsed_parts (org ∷ id ∷ rest) =
    if not (org == "") && not (id == "")
    then live (some (org, canonical_camera_id id))
    else live none

abbrev pub full_path : String → String → String
full_path stream app = if app == "" then stream else String.◌++◌ app (String.◌++◌ "/" stream)

unfoldable pub parse_stream_key : String → String → Parsed
unfolding split_path canonical_camera_id
parse_stream_key stream app =
    if app == "push"
    then push stream
    else parsed_parts (split_path (without_live (full_path stream app)))
