-- ===== src/Base/Strings.antt =====
-- Texts as their code points, for the tests that walk through one: `startsWith`, `includes` and the
-- regular expressions that are plain words.
use Prim.Native.Nat.{ℕ, ◌+◌}
use Prim.Native.Char.{code}
use Prim.Native.String.{String}
use mathlib.Core.Bool.{Bool, true, false, ◌&&◌, ◌||◌}
use mathlib.Core.List.{List, [], ◌∷◌, map}
use sms_app.Base.Tests.{if◌then◌else◌, leb, nat_same}

abbrev pub codes : String → List ℕ
codes String.[] = []
codes (String.◌∷◌ c s) = code c ∷ codes s

-- `text.startsWith(word)`
abbrev pub is_prefix : List ℕ → List ℕ → Bool
is_prefix [] text = true
is_prefix (c ∷ word) [] = false
is_prefix (c ∷ word) (d ∷ text) = nat_same c d && is_prefix word text

abbrev pub same_codes : List ℕ → List ℕ → Bool
same_codes [] [] = true
same_codes [] (d ∷ ds) = false
same_codes (c ∷ cs) [] = false
same_codes (c ∷ cs) (d ∷ ds) = nat_same c d && same_codes cs ds

-- `text.includes(word)`
abbrev pub occurs : List ℕ → List ℕ → Bool
occurs word [] = is_prefix word []
occurs word (d ∷ text) = is_prefix word (d ∷ text) || occurs word text

-- The letters of ASCII, which are all that the words have.
abbrev pub lower_code : ℕ → ℕ
lower_code c = if leb 65 c && leb c 90 then c + 32 else c

-- `/word/i.test(text)`
abbrev pub mentions : String → String → Bool
mentions word text = occurs (map lower_code (codes word)) (map lower_code (codes text))

-- `/word|…/i.test(text)`
abbrev pub mentions_some : List String → String → Bool
mentions_some [] text = false
mentions_some (word ∷ words) text = mentions word text || mentions_some words text

-- The pieces of a regular expression: a letter in either case, `\d` and `\d+`.
pub data Piece : Type 0 where
  letter : ℕ → Piece
  digit digits : Piece

abbrev pub is_digit_code : ℕ → Bool
is_digit_code c = leb 48 c && leb c 57

abbrev pub word : String → List Piece
word s = map (λ c. letter (lower_code c)) (codes s)

abbrev pub matches_at : List Piece → List ℕ → Bool
matches_at [] text = true
matches_at (p ∷ ps) [] = false
matches_at (letter c ∷ ps) (d ∷ text) = nat_same c (lower_code d) && matches_at ps text
matches_at (digit ∷ ps) (d ∷ text) = is_digit_code d && matches_at ps text
matches_at (digits ∷ ps) (d ∷ text) = elim (is_digit_code d) [
  | false ↦ false
  | true ↦ matches_at ps text || matches_at (digits ∷ ps) text
]

abbrev pub matches_from : List Piece → List ℕ → Bool
matches_from ps [] = matches_at ps []
matches_from ps (d ∷ text) = matches_at ps (d ∷ text) || matches_from ps text

-- `/pieces/i.test(text)`
abbrev pub test_pieces : List Piece → String → Bool
test_pieces ps text = matches_from ps (codes text)

-- `/^word$/i.test(text)`
abbrev pub is_word : String → String → Bool
is_word w text = same_codes (map lower_code (codes w)) (map lower_code (codes text))
