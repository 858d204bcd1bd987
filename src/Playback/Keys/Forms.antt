-- ===== src/Playback/Keys/Forms.antt =====
-- Which organization and camera the forms of a stream key give.
use sms_app.Base.{
  String, Bool, true, false, ◌||◌, none, some, [], ◌∷◌, ◌≡◌, refl, sym, ◌∙◌, ap, arith, ◌==◌,
  eq_iff, eq_refl, string_eq, find, subst, Bool-cases, inl, inr,
}
use sms_app.Playback.{ends_with, drop_char}
use sms_app.Playback.Callbacks.{live}
use sms_app.Playback.Grants.{ends_with-append}
use text.Mathlib.Text.{starts_with}
use text.Mathlib.TextPositions.{starts_with-append}
use text.Mathlib.TextLemmas.{append_assoc, append_cancel_right}
use Prim.Native.Char.{Char}
use Prim.Native.String
use Prim.Native.String.append
use sms_app.Playback.Keys.{
  is_char, all_digits, strip_sequence, strip_suffix, extensions, without_extension,
  canonical_camera_id, split_path, after, without_live, parsed_parts, parse_stream_key,
}

abbrev pub has_slash : String → Bool
has_slash String.[] = false
has_slash (String.◌∷◌ c s) = is_char c "/" || has_slash s

after-append : (prefix s : String) → after prefix (String.◌++◌ prefix s) ≡ s
after-append String.[] s = append.nil s
after-append (String.◌∷◌ c prefix) s =
    ap (λ t. after prefix (drop_char t)) (append.cons c prefix s) ∙ after-append prefix s

without_live-append : (s : String) → without_live (String.◌++◌ "live/" s) ≡ s
without_live-append s = ground (arith, starts_with-append "live/" s, after-append "live/" s)

split_whole : (s : String) → has_slash s ≡ false → split_path s ≡ s ∷ []
unfolding split_path
split_whole String.[] h = refl
split_whole (String.◌∷◌ c s) h = ground (arith, split_whole s)

split-append :
    (s t : String)
    → has_slash s ≡ false
    → split_path (String.◌++◌ s (String.◌++◌ "/" t)) ≡ s ∷ split_path t
unfolding split_path
split-append String.[] t h =
    ap split_path (append.nil (String.◌++◌ "/" t))
    ∙ ap split_path (append.cons "/" "" t)
    ∙ ap (λ u. split_path (String.◌∷◌ "/" u)) (append.nil t)
split-append (String.◌∷◌ c s) t h =
    ap split_path (append.cons c s (String.◌++◌ "/" t)) ∙ ground (arith, split-append s t)

-- The text of an address of the live application.
abbrev pub path_of : String → String → String
path_of org id = String.◌++◌ org (String.◌++◌ "/" id)

parts-live :
    (org id : String)
    → has_slash org ≡ false
    → has_slash id ≡ false
    → (org == "") ≡ false
    → (id == "") ≡ false
    → find (ends_with id) extensions ≡ none
    → parsed_parts (split_path (without_live (String.◌++◌ "live/" (path_of org id))))
      ≡ live (some (org, id))
unfolding canonical_camera_id
parts-live org id ho hi eo ei plain =
    rw (without_live-append (path_of org id))
      (rw (split-append org id ho) (rw (split_whole id hi) (ground arith)))

live_not_empty : (app : String) → starts_with app "live/" ≡ true → (app == "") ≡ false
live_not_empty app h = elim (Bool-cases (app == "")) [
  | inl e ↦ ground (arith, subst (λ v. starts_with v "live/" ≡ true) ((eq_iff app "").0 e) h)
  | inr e ↦ e
]

live_not_push : (app : String) → starts_with app "live/" ≡ true → (app == "push") ≡ false
live_not_push app h = elim (Bool-cases (app == "push")) [
  | inl e ↦ ground (arith, subst (λ v. starts_with v "live/" ≡ true) ((eq_iff app "push").0 e) h)
  | inr e ↦ e
]

-- The three forms in which SRS reports a stream of the live application, with the organization in the
-- stream, in the app, or both in the stream with no app, give the organization and the camera, where
-- these are not empty, hold no slash, and the camera has no media extension.
pub parse_stream_key-live :
    (org id : String)
    → has_slash org ≡ false
    → has_slash id ≡ false
    → (org == "") ≡ false
    → (id == "") ≡ false
    → find (ends_with id) extensions ≡ none
    → (parse_stream_key (path_of org id) "live" ≡ live (some (org, id)))
      × (parse_stream_key id (String.◌++◌ "live/" org) ≡ live (some (org, id)))
      × (parse_stream_key (String.◌++◌ "live/" (path_of org id)) "" ≡ live (some (org, id)))
unfolding parse_stream_key
parse_stream_key-live org id ho hi eo ei plain =
    let known = parts-live org id ho hi eo ei plain in
    let starts = starts_with-append "live/" org in
    (
      ap (λ t. parsed_parts (split_path (without_live t)))
            (sym (append_assoc "live" "/" (path_of org id)))
          ∙ known,
      rw (live_not_push (String.◌++◌ "live/" org) starts) (
          rw (live_not_empty (String.◌++◌ "live/" org) starts) (
            ap (λ t. parsed_parts (split_path (without_live t)))
              (append_assoc "live/" org (String.◌++◌ "/" id))
            ∙ known)),
      known,
    )

strip_suffix_self : (suffix : String) → strip_suffix suffix suffix ≡ ""
strip_suffix_self String.[] = refl
strip_suffix_self (String.◌∷◌ c s) = ground (arith, eq_refl (String.◌∷◌ c s))

abbrev is_empty : String → Bool
is_empty String.[] = true
is_empty (String.◌∷◌ c s) = false

longer_apart :
    (c : Char) (s suffix : String) → (String.◌∷◌ c (String.◌++◌ s suffix) == suffix) ≡ false
longer_apart c s suffix = elim (Bool-cases (String.◌∷◌ c (String.◌++◌ s suffix) == suffix)) [
  | inl e ↦ ground (
    arith,
    ap is_empty (
        append_cancel_right (String.◌∷◌ c s) "" suffix (
          append.cons c s suffix
          ∙ (eq_iff (String.◌∷◌ c (String.◌++◌ s suffix)) suffix).0 e
          ∙ sym (append.nil suffix))),
  )
  | inr e ↦ e
]

strip_suffix-append : (s suffix : String) → strip_suffix suffix (String.◌++◌ s suffix) ≡ s
strip_suffix-append String.[] suffix = rw (append.nil suffix) (strip_suffix_self suffix)
strip_suffix-append (String.◌∷◌ c s) suffix =
    rw (append.cons c s suffix)
      (rw (longer_apart c s suffix) (ap (String.◌∷◌ c) (strip_suffix-append s suffix)))

dash_not_digits : (s digits : String) → all_digits (String.◌++◌ s (String.◌++◌ "-" digits)) ≡ false
dash_not_digits String.[] digits =
    ap all_digits (append.nil (String.◌++◌ "-" digits)) ∙ ap all_digits (append.cons "-" "" digits)
dash_not_digits (String.◌∷◌ c s) digits =
    ap all_digits (append.cons c s (String.◌++◌ "-" digits))
    ∙ ground (arith, dash_not_digits s digits)

strip_sequence-append :
    (id digits : String)
    → all_digits digits ≡ true
    → (digits == "") ≡ false
    → strip_sequence (String.◌++◌ id (String.◌++◌ "-" digits)) ≡ id
unfolding strip_sequence
strip_sequence-append String.[] digits h k =
    ap strip_sequence (append.nil (String.◌++◌ "-" digits))
    ∙ ap strip_sequence (append.cons "-" "" digits)
    ∙ ap (λ u. strip_sequence (String.◌∷◌ "-" u)) (append.nil digits)
    ∙ ground arith
strip_sequence-append (String.◌∷◌ c id) digits h k =
    ap strip_sequence (append.cons c id (String.◌++◌ "-" digits))
    ∙ ground (arith, dash_not_digits id digits, strip_sequence-append id digits h k)

playlist_found :
    (name : String) → find (ends_with (String.◌++◌ name ".m3u8")) extensions ≡ some ".m3u8"
playlist_found name = ground (arith, ends_with-append name ".m3u8")

-- The name of a playlist `<id>-<digits>.m3u8` is read as that of the camera `<id>`: the digits are
-- taken for a segment's number also in a playlist, where they belong to the camera's id.
pub playlist_loses_digits :
    (id digits : String)
    → all_digits digits ≡ true
    → (digits == "") ≡ false
    → canonical_camera_id (String.◌++◌ (String.◌++◌ id (String.◌++◌ "-" digits)) ".m3u8") ≡ id
unfolding canonical_camera_id
playlist_loses_digits id digits h k =
    let name = String.◌++◌ id (String.◌++◌ "-" digits) in
    ap (λ o. without_extension o (String.◌++◌ name ".m3u8")) (playlist_found name)
    ∙ ap strip_sequence (strip_suffix-append name ".m3u8")
    ∙ strip_sequence-append id digits h k
