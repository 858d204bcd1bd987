-- ===== src/Streams/Probe/Messages.antt =====
-- `normalizeError` of apps/api/src/streams/processors/stream-probe.processor.ts: the phrase that the
-- user sees for the message of an error.
use sms_app.Base.{
  String, Bool, true, false, ◌||◌, List, [], ◌∷◌, ◌++◌, ◌≡◌, refl, arith, if◌then◌else◌, string_eq,
  eq_refl, mentions_some, test_pieces, word, digit, Error, not_found, bad_request, forbidden,
  unauthorized, conflict, failure, contains,
}

abbrev pub message_of : Error → String
message_of (not_found m) = m
message_of (bad_request m) = m
message_of (forbidden m) = m
message_of (unauthorized m) = m
message_of (conflict m) = m
message_of (failure m) = m

-- The words of a pattern and its phrase.
abbrev pub patterns : List (List String × String)
patterns =
    (
      "Connection refused" ∷ "ECONNREFUSED" ∷ [],
      "Camera refused the connection — check the port and that the camera is on",
    )
    ∷ (
      "Network is unreachable" ∷ "ENETUNREACH" ∷ "EHOSTUNREACH" ∷ "No route to host" ∷ [],
      "Can't reach the camera on the network — check the IP address and that the camera is online",
    )
    ∷ ("Host is down" ∷ "EHOSTDOWN" ∷ [], "Camera appears to be offline")
    ∷ (
      "unable to resolve host" ∷ "ENOTFOUND" ∷ "getaddrinfo" ∷ "Name or service not known" ∷ [],
      "Can't find the camera by that hostname — check the URL",
    )
    ∷ (
      "401 Unauthorized" ∷ "authorization required" ∷ "Authentication failed" ∷ "403 Forbidden"
          ∷ [],
      "Wrong username or password",
    )
    ∷ (
      "timed out" ∷ "ETIMEDOUT" ∷ "Timeout" ∷ "Operation timed out" ∷ [],
      "Camera didn't respond in time — try again or check the network",
    )
    ∷ (
      "404 Not Found" ∷ "Stream not found" ∷ "Server returned 404" ∷ [],
      "No stream at that URL path",
    )
    ∷ (
      "Invalid data found when processing input" ∷ "moov atom not found" ∷ [],
      "Stream format isn't recognized",
    )
    ∷ (
      "Unsupported codec" ∷ "No decoder for codec" ∷ [],
      "This camera uses a video codec we don't support",
    )
    ∷ (
      "SSL handshake" ∷ "TLS error" ∷ "certificate verify failed" ∷ "SSL_ERROR" ∷ [],
      "Secure connection (TLS) failed",
    )
    ∷ ("Protocol not found" ∷ "Unknown protocol" ∷ [], "URL protocol isn't supported")
    ∷ []

-- The pattern with digits, and the one behind it.
abbrev pub internal_error : String
internal_error = "Camera reported an internal error"

abbrev pub interrupted : String
interrupted = "Connection to the camera was interrupted"

abbrev pub fallback : String
fallback = "Couldn't reach the camera — check the URL and that the camera is online"

abbrev pub last_phrase : Bool → Bool → String
last_phrase true reset = internal_error
last_phrase false true = interrupted
last_phrase false false = fallback

abbrev pub last_patterns : String → String
last_patterns raw =
    last_phrase
      (test_pieces (word "Server returned 5" ++ (digit ∷ digit ∷ [])) raw
        || mentions_some ("Internal Server Error" ∷ []) raw)
      (mentions_some ("Connection reset by peer" ∷ "ECONNRESET" ∷ "Broken pipe" ∷ "EPIPE" ∷ []) raw)

abbrev pub first_phrase : List (List String × String) → String → String
first_phrase [] raw = last_patterns raw
first_phrase ((words, phrase) ∷ rest) raw =
    let more = first_phrase rest raw in if mentions_some words raw then phrase else more

unfoldable pub normalize_error : String → String
normalize_error raw = first_phrase patterns raw

abbrev phrases_of : List (List String × String) → List String
phrases_of [] = internal_error ∷ interrupted ∷ fallback ∷ []
phrases_of ((words, phrase) ∷ rest) = phrase ∷ phrases_of rest

-- The fourteen phrases.
abbrev pub phrases : List String
phrases = phrases_of patterns

last_phrase-phrases :
    (failed reset : Bool) → contains (phrases_of []) (last_phrase failed reset) ≡ true
last_phrase-phrases true reset = refl
last_phrase-phrases false true = refl
last_phrase-phrases false false = refl

first_phrase-phrases :
    (ps : List (List String × String)) (raw : String)
    → contains (phrases_of ps) (first_phrase ps raw) ≡ true
first_phrase-phrases [] raw =
    last_phrase-phrases
      (test_pieces (word "Server returned 5" ++ (digit ∷ digit ∷ [])) raw
        || mentions_some ("Internal Server Error" ∷ []) raw)
      (mentions_some ("Connection reset by peer" ∷ "ECONNRESET" ∷ "Broken pipe" ∷ "EPIPE" ∷ []) raw)
first_phrase-phrases ((words, phrase) ∷ rest) raw =
    ground (arith, first_phrase-phrases rest raw, eq_refl phrase)

pub normalize_error-phrases : (raw : String) → contains phrases (normalize_error raw) ≡ true
unfolding normalize_error
normalize_error-phrases raw = first_phrase-phrases patterns raw
