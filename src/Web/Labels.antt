-- ===== src/Web/Labels.antt =====
-- apps/web/src/lib/audit/derive-action-label.ts: the label of an entry of the audit log. A meaningful key of
-- the details is the name and whether it is there with a value.
pub mod Unreached
use Prim.Native.String
use sms_app.Base.{
  ℕ, zero, suc, ◌+◌, String, Bool, true, false, not, ◌&&◌, ◌||◌, Option, none, some, List, [], ◌∷◌,
  ◌++◌, map, ◌==◌, string_eq, nat_eq, if◌then◌else◌, leb, contains, keep, length, codes,
  is_digit_code, lower_code,
}
use sms_app.Playback.Keys.{split_path, is_char}

-- The details that the rules read.
pub record Details : Type 0 where
  pub keys : List String
  pub enabled : Option Bool
  pub name : Option String
  pub needs_transcode : Option Bool

pub record Entry : Type 0 where
  pub method : String
  pub path : String
  pub action : String
  pub details : Option Details

pub record Label : Type 0 where
  pub label : String
  pub is_fallback : Bool

abbrev pub meaningful_keys : List String
meaningful_keys =
    "name" ∷ "streamProfileId" ∷ "streamUrl" ∷ "siteId" ∷ "ingestMode" ∷ "needsTranscode" ∷ "tags"
    ∷ "description" ∷ "location" ∷ []

unfoldable pub meaningful_camera_keys : Option Details → List String
meaningful_camera_keys none = []
meaningful_camera_keys (some d) = keep (λ k. contains d.keys k) meaningful_keys

abbrev pub is_hex : ℕ → Bool
is_hex c = is_digit_code c || (leb 97 (lower_code c) && leb (lower_code c) 102)

-- `n` hexadecimal digits and then the rest.
abbrev pub hex_run : ℕ → (List ℕ → Bool) → List ℕ → Bool
hex_run zero rest cs = rest cs
hex_run (suc n) rest [] = false
hex_run (suc n) rest (c ∷ cs) = is_hex c && hex_run n rest cs

abbrev pub dash : (List ℕ → Bool) → List ℕ → Bool
dash rest [] = false
dash rest (c ∷ cs) = c == 45 && rest cs

abbrev pub at_end : List ℕ → Bool
at_end [] = true
at_end (c ∷ cs) = false

-- `UUID_RE`
unfoldable pub is_uuid : String → Bool
is_uuid s =
    hex_run 8 (dash (hex_run 4 (dash (hex_run 4 (dash (hex_run 4 (dash (hex_run 12 at_end))))))))
      (codes s)

-- `path.split("?")[0]`
unfoldable pub before_query : String → String
before_query String.[] = ""
before_query (String.◌∷◌ c s) =
    let rest = before_query s in if is_char c "?" then "" else String.◌∷◌ c rest

-- A trailing slash, of a path longer than it.
abbrev pub drop_last_slash : String → String
drop_last_slash String.[] = ""
drop_last_slash (String.◌∷◌ c s) =
    let rest = drop_last_slash s in if s == "/" then String.◌∷◌ c String.[] else String.◌∷◌ c rest

unfoldable pub trimmed : String → String
unfolding before_query
trimmed path = drop_last_slash (before_query path)

abbrev pub wild : String → String
wild segment = if is_uuid segment then ":id" else segment

abbrev pub join_path : List String → String
join_path [] = ""
join_path (s ∷ []) = s
join_path (s ∷ t ∷ rest) = String.◌++◌ s (String.◌++◌ "/" (join_path (t ∷ rest)))

unfoldable pub normalize_path : String → String
unfolding trimmed split_path is_uuid
normalize_path path = join_path (map wild (split_path (trimmed path)))

-- `upper` is `toUpperCase`.
unfoldable pub signature : (String → String) → Entry → String
unfolding normalize_path
signature upper e = String.◌++◌ (upper e.method) (String.◌++◌ " " (normalize_path e.path))

abbrev pub flag_of : (Details → Option Bool) → Option Details → Option Bool
flag_of get none = none
flag_of get (some d) = get d

abbrev pub is_flag : Bool → Option Bool → Bool
is_flag b none = false
is_flag true (some c) = c
is_flag false (some c) = not c

abbrev pub name_text : Option Details → String
name_text none = ""
name_text (some d) = elim d.name [ none ↦ "" | some n ↦ n ]

-- The label of an update with one meaningful key.
abbrev pub single_label : Option Details → String → Option String
single_label d key =
    if key == "name"
    then some (String.◌++◌ "Renamed → \"" (String.◌++◌ (name_text d) "\""))
    else if key == "streamProfileId"
    then some "Changed stream profile"
    else if key == "tags"
    then some "Updated tags"
    else if key == "description"
    then some "Updated description"
    else if key == "location"
    then some "Updated location"
    else if key == "siteId"
    then some "Moved to another site"
    else if key == "streamUrl"
    then some "Updated stream URL"
    else if key == "needsTranscode"
    then (if is_flag true (flag_of (λ x. x.needs_transcode) d)
        then some "Toggled auto-transcode ON"
        else some "Toggled auto-transcode OFF")
    else none

-- The rules for the update of a camera.
abbrev pub update_label : Option Details → List String → Option String
update_label d [] = none
update_label d (key ∷ []) = single_label d key
update_label d (key ∷ more ∷ rest) = some "Updated camera"

abbrev pub maintenance_label : Option Details → Option String
maintenance_label d =
    if is_flag true (flag_of (λ x. x.enabled) d)
    then some "Toggled maintenance ON"
    else if is_flag false (flag_of (λ x. x.enabled) d)
    then some "Toggled maintenance OFF"
    else none

-- The rules: the first that matches a signature.
unfoldable pub label_of : Option Details → String → Option String
unfolding meaningful_camera_keys
label_of d s =
    if s == "POST /api/cameras/:id/start-stream"
    then some "Started stream"
    else if s == "POST /api/cameras/:id/stop-stream"
    then some "Stopped stream"
    else if s == "POST /api/cameras/:id/start-recording"
    then some "Started recording"
    else if s == "POST /api/cameras/:id/stop-recording"
    then some "Stopped recording"
    else if s == "PATCH /api/cameras/:id/maintenance"
    then maintenance_label d
    else if s == "PATCH /api/cameras/:id"
    then update_label d (meaningful_camera_keys d)
    else if s == "POST /api/cameras"
    then some "Created camera"
    else if s == "DELETE /api/cameras/:id"
    then some "Deleted"
    else none

abbrev pub label_or_fallback : String → Option String → Label
label_or_fallback action none = record { label = action; is_fallback = true }
label_or_fallback action (some l) = record { label = l; is_fallback = false }

unfoldable pub derive_action_label : (String → String) → Entry → Label
unfolding signature label_of
derive_action_label upper e = label_or_fallback e.action (label_of e.details (signature upper e))
