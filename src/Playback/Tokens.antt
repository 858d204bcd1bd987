-- ===== src/Playback/Tokens.antt =====
-- Tokens for the examples: claims written out in a text, and read again until their time is over.
use sms_app.Base.{
  ℕ, zero, suc, ◌+◌, ◌/◌, ◌<◌, String, Bool, Option, none, some, List, [], ◌∷◌, ◌≡◌, refl, arith,
  ltb, length, if◌then◌else◌, ap, ◌∙◌,
}
use sms_app.Playback.{Jwt, Claims}
use Prim.Native.Char.{Char}

-- A number as so many marks before the end mark; a text as its length and its characters.
abbrev put_nat : ℕ → String → String
put_nat zero rest = String.◌∷◌ "e" rest
put_nat (suc n) rest = String.◌∷◌ "m" (put_nat n rest)

abbrev is_end : Char → Bool
is_end c = ltb (Prim.Native.Char.code c) 105

abbrev counted : Option (ℕ × String) → Option (ℕ × String)
counted none = none
counted (some (n, rest)) = some (suc n, rest)

abbrev get_nat : String → Option (ℕ × String)
get_nat String.[] = none
get_nat (String.◌∷◌ c s) = let rest = get_nat s in if is_end c then some (zero, s) else counted rest

get_nat-put_nat : (n : ℕ) (rest : String) → get_nat (put_nat n rest) ≡ some (n, rest)
get_nat-put_nat zero rest = refl
get_nat-put_nat (suc n) rest = ap counted (get_nat-put_nat n rest)

abbrev size : String → ℕ
size String.[] = zero
size (String.◌∷◌ c s) = suc (size s)

abbrev put_chars : String → String → String
put_chars String.[] rest = rest
put_chars (String.◌∷◌ c s) rest = String.◌∷◌ c (put_chars s rest)

abbrev with_char : Char → Option (String × String) → Option (String × String)
with_char c none = none
with_char c (some (s, rest)) = some (String.◌∷◌ c s, rest)

abbrev get_chars : ℕ → String → Option (String × String)
get_chars zero s = some (String.[], s)
get_chars (suc n) String.[] = none
get_chars (suc n) (String.◌∷◌ c s) = with_char c (get_chars n s)

get_chars-put_chars : (s rest : String) → get_chars (size s) (put_chars s rest) ≡ some (s, rest)
get_chars-put_chars String.[] rest = refl
get_chars-put_chars (String.◌∷◌ c s) rest = ap (with_char c) (get_chars-put_chars s rest)

abbrev put_text : String → String → String
put_text s rest = put_nat (size s) (put_chars s rest)

abbrev sized_text : Option (ℕ × String) → Option (String × String)
sized_text none = none
sized_text (some (n, rest)) = get_chars n rest

abbrev get_text : String → Option (String × String)
get_text s = sized_text (get_nat s)

get_text-put_text : (s rest : String) → get_text (put_text s rest) ≡ some (s, rest)
get_text-put_text s rest =
    ap sized_text (get_nat-put_nat (size s) (put_chars s rest)) ∙ get_chars-put_chars s rest

abbrev put_all : List String → String → String
put_all [] rest = rest
put_all (s ∷ ss) rest = put_text s (put_all ss rest)

abbrev and_read {ℓ κ} : {A : Type ℓ} {B : Type κ} → Option A → (A → Option B) → Option B
and_read none f = none
and_read (some a) f = f a

abbrev get_all : ℕ → String → Option (List String × String)
get_all zero s = some ([], s)
get_all (suc n) s =
    and_read (get_text s)
      (λ (t, rest). and_read (get_all n rest) (λ (ts, last). some (t ∷ ts, last)))

get_all-put_all :
    (ss : List String) (rest : String) → get_all (length ss) (put_all ss rest) ≡ some (ss, rest)
get_all-put_all [] rest = refl
get_all-put_all (s ∷ ss) rest =
    rw (get_text-put_text s (put_all ss rest)) (rw (get_all-put_all ss rest) refl)

unfoldable pub write : ℕ → ℕ → Claims → String
write now ttl c = put_nat (now / 1000 + ttl) (
    put_text c.cam
      (put_text c.org (put_text c.sub (put_nat (length c.domains) (put_all c.domains String.[])))))

unfoldable pub read : ℕ → String → Option Claims
read later token = and_read (get_nat token) (λ (expires, s). and_read (get_text s) (λ (cam, s').
    and_read (get_text s') (λ (org, s''). and_read (get_text s'') (λ (sub, t).
      and_read (get_nat t) (λ (n, t'). and_read (get_all n t') (λ (domains, end).
        if ltb (later / 1000) expires
        then some (record { cam = cam; org = org; domains = domains; sub = sub })
        else none))))))

pub read-write :
    (now later ttl : ℕ) (c : Claims)
    → later / 1000 < now / 1000 + ttl
    → read later (write now ttl c) ≡ some c
unfolding read write
read-write now later ttl c alive =
    let domains = put_all c.domains String.[] in
    let rest = put_nat (length c.domains) domains in
    rw (get_nat-put_nat (now / 1000 + ttl) (put_text c.cam (put_text c.org (put_text c.sub rest))))
      (rw (get_text-put_text c.cam (put_text c.org (put_text c.sub rest))) (
        rw (get_text-put_text c.org (put_text c.sub rest)) (
          rw (get_text-put_text c.sub rest) (
            rw (get_nat-put_nat (length c.domains) domains)
              (rw (get_all-put_all c.domains String.[]) (ground arith))))))

abbrev pub written : Jwt
written = record { sign = write; verify = read; verify-sign = read-write }
