-- ===== src/Webhooks/Url/Ranges.antt =====
-- Which IPv4 addresses the validator takes for private.
use sms_app.Base.{
  ℕ, ◌+◌, ◌/◌, ◌%◌, ◌<◌, String, Bool, true, false, ◌&&◌, ◌||◌, List, [], ◌∷◌, ◌++◌, map, zero, suc,
  ◌≡◌, refl, arith, if◌then◌else◌, ◌==◌, nat_eq, nat_same, ltb, leb, codes, is_prefix, same_codes,
}
use sms_app.Webhooks.Url.{is_private_ip, private_prefixes, starts_with_some}

-- The decimal digits of a number below a thousand.
abbrev pub digits : ℕ → List ℕ
digits n =
    if ltb n 10
    then (48 + n) ∷ []
    else if ltb n 100
    then (48 + n / 10) ∷ (48 + n % 10) ∷ []
    else (48 + n / 100) ∷ (48 + n / 10 % 10) ∷ (48 + n % 10) ∷ []

-- `a.b.c.d`
abbrev pub dotted : ℕ → ℕ → ℕ → ℕ → List ℕ
dotted a b c d = digits a ++ (46 ∷ (digits b ++ (46 ∷ (digits c ++ (46 ∷ digits d)))))

is_prefix-digits :
    (x a : ℕ) (word text : List ℕ)
    → x < 256
    → a < 256
    → is_prefix (digits x ++ (46 ∷ word)) (digits a ++ (46 ∷ text))
      ≡ nat_same x a && is_prefix word text
is_prefix-digits x a word text hx ha = ground arith

same_codes-digits :
    (x a : ℕ) (word text : List ℕ)
    → x < 256
    → a < 256
    → same_codes (digits x ++ (46 ∷ word)) (digits a ++ (46 ∷ text))
      ≡ nat_same x a && same_codes word text
same_codes-digits x a word text hx ha = ground arith

same_codes-last : (x a : ℕ) → x < 256 → a < 256 → same_codes (digits x) (digits a) ≡ nat_same x a
same_codes-last x a hx ha = ground arith

abbrev two_octets : ℕ × ℕ → List ℕ
two_octets (x, y) = digits x ++ (46 ∷ (digits y ++ (46 ∷ [])))

abbrev AreOctets : List (ℕ × ℕ) → Type 0
AreOctets [] = Unit {0}
AreOctets ((x, y) ∷ ps) = (x < 256) × (y < 256) × AreOctets ps

abbrev some_pair : List (ℕ × ℕ) → ℕ → ℕ → Bool
some_pair [] a b = false
some_pair ((x, y) ∷ ps) a b = (nat_same x a && nat_same y b) || some_pair ps a b

-- Any list of such prefixes.
starts_with_some-pairs :
    (ps : List (ℕ × ℕ)) (a b : ℕ) (text : List ℕ)
    → a < 256
    → b < 256
    → AreOctets ps
    → starts_with_some (map two_octets ps) (digits a ++ (46 ∷ (digits b ++ (46 ∷ text))))
      ≡ some_pair ps a b
starts_with_some-pairs [] a b text ha hb h = refl
starts_with_some-pairs ((x, y) ∷ ps) a b text ha hb h =
    rw
      (
        is_prefix-digits x a (digits y ++ (46 ∷ [])) (digits b ++ (46 ∷ text)) h.0 ha,
        is_prefix-digits y b [] text h.1 hb,
        starts_with_some-pairs ps a b text ha hb h.2,
      )
      (ground arith)

-- `n` pairs from (x, y) on.
abbrev run : ℕ → ℕ → ℕ → List (ℕ × ℕ)
run x y zero = []
run x y (suc n) = (x, y) ∷ run x (y + 1) n

some_pair-run :
    (x y n : ℕ) (ps : List (ℕ × ℕ)) (a b : ℕ)
    → some_pair (run x y n ++ ps) a b
      ≡ ((nat_same x a && (leb y b && ltb b (y + n))) || some_pair ps a b)
some_pair-run x y zero ps a b = ground arith
some_pair-run x y (suc n) ps a b = ground (arith, some_pair-run x (y + 1) n ps a b)

abbrev private_pairs : List (ℕ × ℕ)
private_pairs = run 172 16 16 ++ ((192, 168) ∷ (169, 254) ∷ [])

prefixes_are_pairs :
    map codes private_prefixes ≡ (digits 10 ++ (46 ∷ [])) ∷ map two_octets private_pairs
prefixes_are_pairs = refl

abbrev one_address : ℕ → ℕ → ℕ → ℕ → ℕ → ℕ → ℕ → ℕ → Bool
one_address x y z w a b c d = nat_same x a && (nat_same y b && (nat_same z c && nat_same w d))

same_codes-dotted :
    (x y z w a b c d : ℕ)
    → x < 256
    → y < 256
    → z < 256
    → w < 256
    → a < 256
    → b < 256
    → c < 256
    → d < 256
    → same_codes (dotted x y z w) (dotted a b c d) ≡ one_address x y z w a b c d
same_codes-dotted x y z w a b c d hx hy hz hw ha hb hc hd = rw (
  same_codes-digits x a (digits y ++ (46 ∷ (digits z ++ (46 ∷ digits w))))
      (digits b ++ (46 ∷ (digits c ++ (46 ∷ digits d)))) hx ha,
  same_codes-digits y b (digits z ++ (46 ∷ digits w)) (digits c ++ (46 ∷ digits d)) hy hb,
  same_codes-digits z c (digits w) (digits d) hz hc,
  same_codes-last w d hw hd,
)

-- The ranges by their numbers: 10/8, 172.16/12, 192.168/16, 169.254/16 and the two single addresses.
abbrev pub in_ranges : ℕ → ℕ → ℕ → ℕ → Bool
in_ranges a b c d =
    a == 10
    || ((a == 172 && (leb 16 b && leb b 31))
        || ((a == 192 && b == 168)
            || ((a == 169 && b == 254)
                || ((a == 127 && (b == 0 && (c == 0 && d == 1)))
                    || (a == 0 && (b == 0 && (c == 0 && d == 0)))))))

pairs_are_ranges :
    (a b c d : ℕ)
    → (((nat_same 10 a && true) || some_pair private_pairs a b)
        || (one_address 127 0 0 1 a b c d || one_address 0 0 0 0 a b c d))
      ≡ in_ranges a b c d
pairs_are_ranges a b c d =
    rw (some_pair-run 172 16 16 ((192, 168) ∷ (169, 254) ∷ []) a b) (ground arith)

-- The validator takes a dotted address for private exactly if its numbers are in one of the ranges
-- 10/8, 172.16/12, 192.168/16 and 169.254/16, or it is 127.0.0.1 or 0.0.0.0.
pub is_private_ip-dotted :
    (ip : String) (a b c d : ℕ)
    → a < 256
    → b < 256
    → c < 256
    → d < 256
    → codes ip ≡ dotted a b c d
    → is_private_ip ip ≡ in_ranges a b c d
unfolding is_private_ip
is_private_ip-dotted ip a b c d ha hb hc hd e =
    let rest = digits c ++ (46 ∷ digits d) in
    rw
      (
        e,
        is_prefix-digits 10 a [] (digits b ++ (46 ∷ rest)) (omega arith) ha,
        starts_with_some-pairs private_pairs a b rest ha hb (omega arith),
        same_codes-dotted 127 0 0 1 a b c d (omega arith) (omega arith) (omega arith) (omega arith)
            ha hb hc hd,
        same_codes-dotted 0 0 0 0 a b c d (omega arith) (omega arith) (omega arith) (omega arith) ha
            hb hc hd,
      )
      (pairs_are_ranges a b c d)
