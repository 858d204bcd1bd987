-- ===== src/Web/Texts.antt =====
-- Small functions of apps/web/src/lib: escape-html.ts, format-utils.ts, stream-profile-mode.ts and
-- api-error.ts.
pub mod Escape
use Prim.Native.String
use sms_app.Base.{
  ℕ, ◌+◌, ◌*◌, ◌/◌, ◌%◌, String, Bool, true, false, not, ◌&&◌, ◌||◌, Option, none, some, List, [],
  ◌∷◌, ◌++◌, map, ◌==◌, string_eq, nat_eq, if◌then◌else◌, ltb, leb, Dict, lookup, codes,
}

-- `HTML_ESCAPES`, on code points.
abbrev pub escape_code : ℕ → List ℕ
escape_code c =
    if c == 38
    then codes "&amp;"
    else if c == 60
    then codes "&lt;"
    else if c == 62
    then codes "&gt;"
    else if c == 34
    then codes "&quot;"
    else if c == 39
    then codes "&#39;"
    else c ∷ []

unfoldable pub escape_html : List ℕ → List ℕ
escape_html [] = []
escape_html (c ∷ cs) = escape_code c ++ escape_html cs

-- What the hour, the minute and the second show: the parts of the text.
pub data Duration : Type 0 where
  dash : Duration
  seconds minutes hours : ℕ → Duration
  minutes_seconds hours_minutes : ℕ → ℕ → Duration

abbrev pub parts : ℕ → ℕ → ℕ → Duration
parts h m s =
    if h == 0 && m == 0
    then seconds s
    else if h == 0
    then (if ltb 0 s then minutes_seconds m s else minutes m)
    else if m == 0
    then hours h
    else hours_minutes h m

-- `formatDuration`, for whole seconds
unfoldable pub format_duration : Option ℕ → Duration
format_duration none = dash
format_duration (some n) = if n == 0 then dash else parts (n / 3600) (n % 3600 / 60) (n % 60)

pub data Mode : Type 0 where
  passthrough transcode auto : Mode

unfoldable pub get_stream_profile_mode_name : String → Mode
get_stream_profile_mode_name codec =
    if codec == "copy" then passthrough else if codec == "libx264" then transcode else auto

-- The body of a failed response, as the reader tells it apart: a text; an object with a text, with the
-- errors of a form, or with another message; anything else.
pub data ErrorBody : Type 0 where
  plain : String → ErrorBody
  message : String → ErrorBody
  flattened : (fields : Dict (List String)) (form : List String) → ErrorBody
  other : ErrorBody

abbrev pub field_labels : Dict String
field_labels =
    ("name", "Name")
    ∷ ("streamUrl", "Stream URL")
    ∷ ("description", "Description")
    ∷ ("location", "Location")
    ∷ ("location.lat", "Latitude")
    ∷ ("location.lng", "Longitude")
    ∷ ("tags", "Tags")
    ∷ ("thumbnail", "Thumbnail")
    ∷ ("streamProfileId", "Stream Profile")
    ∷ ("ingestMode", "Ingest mode")
    ∷ ("siteId", "Site")
    ∷ ("projectId", "Project")
    ∷ []

abbrev pub or_field : Option String → String → String
or_field none field = field
or_field (some label) field = label

unfoldable pub label_for : String → String
unfolding lookup
label_for field = or_field (lookup field field_labels) field

abbrev pub field_parts : Dict (List String) → List String
field_parts [] = []
field_parts ((field, errors) ∷ rest) =
    map (λ e. String.◌++◌ (label_for field) (String.◌++◌ ": " e)) errors ++ field_parts rest

-- `parts.join('. ')`
abbrev pub join_dot : List String → String
join_dot [] = ""
join_dot (s ∷ []) = s
join_dot (s ∷ t ∷ rest) = String.◌++◌ s (String.◌++◌ ". " (join_dot (t ∷ rest)))

abbrev pub or_text : String → String → String
or_text t fallback = if t == "" then fallback else t

abbrev pub or_joined : List String → String → String
or_joined [] fallback = fallback
or_joined (p ∷ ps) fallback = join_dot (p ∷ ps)

-- `none` for an error that is no answer of the API.
unfoldable pub extract_api_error_message : Option (ℕ × ErrorBody) → String → String
unfolding label_for
extract_api_error_message none fallback = fallback
extract_api_error_message (some (status, plain t)) fallback = or_text t fallback
extract_api_error_message (some (status, message t)) fallback =
    if leb 400 status && ltb status 500 then or_text t fallback else fallback
extract_api_error_message (some (status, flattened fields form)) fallback =
    if status == 400 then or_joined (field_parts fields ++ form) fallback else fallback
extract_api_error_message (some (status, other)) fallback = fallback
