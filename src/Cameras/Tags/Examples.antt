-- ===== src/Cameras/Tags/Examples.antt =====
-- Tags of two cameras, with texts that are trimmed and in lower case already, and the theorems at them.
use sms_app.Base.{String, some, List, [], ◌∷◌, ◌≡◌, refl, ok}
use sms_app.Cameras.Tags.{Texts, Tagged, remove, normalize_for_display, tags_after}
use sms_app.Cameras.Tags.Bulk.{add-remove}

abbrev plain : Texts
plain = record { trim = λ t. t; lower = λ t. t; size = λ t. 5 }

abbrev many : List String
many =
    "a" ∷ "b" ∷ "c" ∷ "d" ∷ "e" ∷ "f" ∷ "g" ∷ "h" ∷ "i" ∷ "j" ∷ "k" ∷ "l" ∷ "m" ∷ "n" ∷ "o" ∷ "p"
    ∷ "q" ∷ "r" ∷ "s" ∷ "t" ∷ []

abbrev tagged : String → List String → Tagged
tagged id tags = record { id = id; org_id = "o"; tags = tags }

abbrev two_tags : List String
two_tags = "gate" ∷ "north" ∷ []

add-remove_example :
    tags_after plain remove "north" ("gate" ∷ "north" ∷ []) ≡ ok (some ("gate" ∷ []))
unfolding normalize_for_display tags_after
add-remove_example =
    add-remove plain "north" ("gate" ∷ []) ("gate" ∷ "north" ∷ []) refl refl refl refl
