-- ===== src/Recordings/H264.antt =====
-- apps/api/src/recordings/h264-utils.ts: whether the bytes of a segment hold a NAL unit of a type. The
-- loop over an index is the recursion on the bytes from that index on.
use sms_app.Base.{
  ℕ, ◌%◌, ◌≤◌, Bool, true, false, ◌&&◌, ◌||◌, List, [], ◌∷◌, ◌++◌, ◌≡◌, ◌≢◌, refl, ◌↔◌, arith, ap,
  if◌then◌else◌, ◌==◌, nat_eq, leb, le→leb, length, Bool-cases, inl, inr,
}

abbrev pub nal_type : ℕ → ℕ
nal_type byte = byte % 32

-- A byte past the end reads as `undefined`, whose `& 0x1f` is 0.
abbrev next_nal_type : List ℕ → ℕ
next_nal_type [] = 0
next_nal_type (b ∷ bs) = nal_type b

-- The `while` loop: it goes on as long as four bytes are left.
unfoldable pub scan : ℕ → List ℕ → Bool
scan nal (a ∷ b ∷ c ∷ d ∷ rest) =
    let after_four = next_nal_type rest == nal || scan nal rest in
    let after_three = nal_type d == nal || scan nal (d ∷ rest) in
    let after_one = scan nal (b ∷ c ∷ d ∷ rest) in
    if a == 0 && (b == 0 && (c == 0 && d == 1))
    then after_four
    else if a == 0 && (b == 0 && c == 1)
    then after_three
    else after_one
scan nal _ = false

unfoldable pub contains_h264_nal_type : List ℕ → ℕ → Bool
unfolding scan
contains_h264_nal_type buffer nal = if leb 5 (length buffer) then scan nal buffer else false

abbrev h264_nal_idr : ℕ
h264_nal_idr = 5

unfoldable pub contains_h264_keyframe : List ℕ → Bool
unfolding contains_h264_nal_type
contains_h264_keyframe buffer = contains_h264_nal_type buffer h264_nal_idr

-- Whether the bytes start with a start code and a NAL unit of the type.
abbrev starts_unit : ℕ → List ℕ → Bool
starts_unit nal (a ∷ b ∷ c ∷ d ∷ rest) = a == 0 && (b == 0 && (c == 1 && nal_type d == nal))
starts_unit nal _ = false

abbrev has_unit : ℕ → List ℕ → Bool
has_unit nal [] = false
has_unit nal (a ∷ rest) = starts_unit nal (a ∷ rest) || has_unit nal rest

-- A start code begins with two zeros.
starts_unit_first :
    (nal a : ℕ) (rest : List ℕ) → (a == 0) ≡ false → starts_unit nal (a ∷ rest) ≡ false
starts_unit_first nal a [] h = refl
starts_unit_first nal a (b ∷ []) h = refl
starts_unit_first nal a (b ∷ c ∷ []) h = refl
starts_unit_first nal a (b ∷ c ∷ d ∷ rest) h = ground arith

starts_unit_second :
    (nal a b : ℕ) (rest : List ℕ) → (b == 0) ≡ false → starts_unit nal (a ∷ b ∷ rest) ≡ false
starts_unit_second nal a b [] h = refl
starts_unit_second nal a b (c ∷ []) h = refl
starts_unit_second nal a b (c ∷ d ∷ rest) h = ground arith

scan-has_unit :
    (nal : ℕ) (bytes : List ℕ) → (nal == 0) ≡ false → scan nal bytes ≡ has_unit nal bytes
unfolding scan
scan-has_unit nal [] h = refl
scan-has_unit nal (a ∷ []) h = refl
scan-has_unit nal (a ∷ b ∷ []) h = refl
scan-has_unit nal (a ∷ b ∷ c ∷ []) h = refl
scan-has_unit nal (a ∷ b ∷ c ∷ d ∷ []) h = ground arith
scan-has_unit nal (a ∷ b ∷ c ∷ d ∷ e ∷ rest) h = ground (
  arith,
  scan-has_unit nal (e ∷ rest) h,
  scan-has_unit nal (d ∷ e ∷ rest) h,
  scan-has_unit nal (b ∷ c ∷ d ∷ e ∷ rest) h,
  starts_unit_first nal d (e ∷ rest),
  starts_unit_first nal c (d ∷ e ∷ rest),
  starts_unit_second nal c d (e ∷ rest),
)

-- The bytes of a NAL unit of the type somewhere in the buffer, behind its start code.
abbrev pub HasNalUnit : List ℕ → ℕ → Type 0
HasNalUnit buffer nal =
    (before : List ℕ) × (byte : ℕ) × (after : List ℕ) × (buffer
      ≡ before ++ 0 ∷ 0 ∷ 1 ∷ byte ∷ after)
    × (nal_type byte ≡ nal)

has_unit-append :
    (nal : ℕ) (before rest : List ℕ)
    → has_unit nal rest ≡ true
    → has_unit nal (before ++ rest) ≡ true
has_unit-append nal [] rest h = h
has_unit-append nal (b ∷ bs) rest h = ground (arith, has_unit-append nal bs rest h)

has_unit_complete : (nal : ℕ) (buffer : List ℕ) → HasNalUnit buffer nal → has_unit nal buffer ≡ true
has_unit_complete nal buffer (before, byte, after, e, t) =
    rw e (has_unit-append nal before (0 ∷ 0 ∷ 1 ∷ byte ∷ after) (ground arith))

starts_unit_sound : (nal : ℕ) (bytes : List ℕ) → starts_unit nal bytes ≡ true → HasNalUnit bytes nal
starts_unit_sound nal (a ∷ b ∷ c ∷ d ∷ rest) h = ([], d, rest, ground arith, ground arith)
starts_unit_sound nal (a ∷ b ∷ c ∷ []) h = ground arith
starts_unit_sound nal (a ∷ b ∷ []) h = ground arith
starts_unit_sound nal (a ∷ []) h = ground arith
starts_unit_sound nal [] h = ground arith

has_unit_sound : (nal : ℕ) (bytes : List ℕ) → has_unit nal bytes ≡ true → HasNalUnit bytes nal
has_unit_sound nal [] h = ground arith
has_unit_sound nal (a ∷ rest) h = elim (Bool-cases (starts_unit nal (a ∷ rest))) [
  | inl e ↦ starts_unit_sound nal (a ∷ rest) e
  | inr e ↦
      let (before, byte, after, f, t) = has_unit_sound nal rest (ground arith) in
      (a ∷ before, byte, after, ap (◌∷◌ a) f, t)
]

-- In a buffer of at least five bytes, the scan answers true exactly if the start code 00 00 01 stands
-- somewhere in front of a byte of the type; the type is not 0.
pub contains_h264_nal_type_iff :
    (buffer : List ℕ) (nal : ℕ)
    → 5 ≤ length buffer
    → nal ≢ 0
    → (contains_h264_nal_type buffer nal ≡ true) ↔ HasNalUnit buffer nal
unfolding contains_h264_nal_type
contains_h264_nal_type_iff buffer nal long n =
    let same : scan nal buffer ≡ has_unit nal buffer = scan-has_unit nal buffer (ground arith) in
    rw (le→leb 5 (length buffer) long)
      (rw same (has_unit_sound nal buffer, has_unit_complete nal buffer))
