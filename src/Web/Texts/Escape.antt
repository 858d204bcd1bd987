-- ===== src/Web/Texts/Escape.antt =====
-- What an escaped text holds.
use sms_app.Base.{
  ℕ, zero, suc, ◌+◌, length, ◌≤◌, ◌∙◌, Bool, true, not, ◌&&◌, ◌||◌, List, [], ◌∷◌, ◌++◌, ◌≡◌, refl,
  arith, ◌==◌, nat_eq, if◌then◌else◌, codes, is_prefix, ap,
}
use sms_app.Web.Texts.{escape_code, escape_html}

-- `<`, `>`, `"` and `'`.
abbrev pub is_dangerous : ℕ → Bool
is_dangerous c = c == 60 || (c == 62 || (c == 34 || c == 39))

abbrev pub is_safe : List ℕ → Bool
is_safe [] = true
is_safe (c ∷ cs) = not (is_dangerous c) && is_safe cs

-- The character that a text starts with, read as HTML: the five references stand for their characters.
abbrev pub drop : ℕ → List ℕ → List ℕ
drop zero cs = cs
drop (suc n) [] = []
drop (suc n) (c ∷ cs) = drop n cs

-- The text that an HTML text shows. Each round reads one character of it at least, so that its length is
-- enough fuel to read it to its end.
unfoldable pub shown : ℕ → List ℕ → List ℕ
shown zero cs = []
shown (suc n) [] = []
shown (suc n) (c ∷ cs) =
    let as_amp = 38 ∷ shown n (drop 4 cs) in
    let as_lt = 60 ∷ shown n (drop 3 cs) in
    let as_gt = 62 ∷ shown n (drop 3 cs) in
    let as_quot = 34 ∷ shown n (drop 5 cs) in
    let as_apos = 39 ∷ shown n (drop 4 cs) in
    let as_itself = c ∷ shown n cs in
    if is_prefix (codes "&amp;") (c ∷ cs)
    then as_amp
    else if is_prefix (codes "&lt;") (c ∷ cs)
    then as_lt
    else if is_prefix (codes "&gt;") (c ∷ cs)
    then as_gt
    else if is_prefix (codes "&quot;") (c ∷ cs)
    then as_quot
    else if is_prefix (codes "&#39;") (c ∷ cs)
    then as_apos
    else as_itself

is_safe-append : (xs ys : List ℕ) → is_safe (xs ++ ys) ≡ (is_safe xs && is_safe ys)
is_safe-append [] ys = refl
is_safe-append (x ∷ xs) ys = ground (arith, is_safe-append xs ys)

is_safe-escape_code : (c : ℕ) → is_safe (escape_code c) ≡ true
is_safe-escape_code c = ground arith

is_safe-escape_html : (cs : List ℕ) → is_safe (escape_html cs) ≡ true
unfolding escape_html
is_safe-escape_html [] = refl
is_safe-escape_html (c ∷ cs) =
    rw (
      is_safe-append (escape_code c) (escape_html cs),
      is_safe-escape_code c,
      is_safe-escape_html cs,
    )

shown-escape_code : (n c : ℕ) (cs : List ℕ) → shown (suc n) (escape_code c ++ cs) ≡ c ∷ shown n cs
unfolding shown
shown-escape_code n c cs = ground arith

shown-nil : (n : ℕ) → shown n [] ≡ []
unfolding shown
shown-nil zero = refl
shown-nil (suc n) = refl

length-escape_code : (c : ℕ) (cs : List ℕ) → length cs + 1 ≤ length (escape_code c ++ cs)
length-escape_code c cs = ground arith

shown-escape_html :
    (n : ℕ) (cs : List ℕ) → length (escape_html cs) ≤ n → shown n (escape_html cs) ≡ cs
unfolding escape_html
shown-escape_html n [] h = shown-nil n
shown-escape_html zero (c ∷ cs) h = absurd (omega (arith, length-escape_code c (escape_html cs)))
shown-escape_html (suc n) (c ∷ cs) h =
    shown-escape_code n c (escape_html cs)
    ∙ ap (◌∷◌ c) (shown-escape_html n cs (omega (arith, length-escape_code c (escape_html cs))))

-- An escaped text has none of the characters that open markup or a value, and read to its end, with
-- as much fuel as it has characters, it shows the text that was escaped and no more.
pub escape_html_lem :
    (cs : List ℕ)
    → (is_safe (escape_html cs) ≡ true) × (shown (length (escape_html cs)) (escape_html cs) ≡ cs)
escape_html_lem cs =
    (is_safe-escape_html cs, shown-escape_html (length (escape_html cs)) cs (omega arith))
