-- ===== src/Prelude/Utf8.antt =====
-- `String::from_utf8_lossy`: UTF-8 read byte by byte. A byte that cannot go on ends the sequence
-- before it, which becomes U+FFFD as a whole, and is read again as a first byte.
use Prim.Native.Nat.{ℕ, suc, ◌+◌, ◌-◌, ◌*◌, ◌/◌, ◌%◌, ◌≤◌, ◌<◌}
use mathlib.Core.Path.{◌≡◌, refl, ap, ◌∙◌}
use mathlib.Core.Logic.{◌⊎◌, inl, inr}
use mathlib.Core.Bool.{Bool, ◌&&◌}
use mathlib.Core.List.{List, [], ◌∷◌, ◌++◌}
use native.Mathlib.Omega.{arith}
use fast_downloader.Prelude.Lists.{All, All-append}
use fast_downloader.Prelude.Tests.{◌==◌, ltb, leb, if◌then◌else◌, Bool-cases}
use fast_downloader.Prelude.Text.{Text, utf8_char, as_bytes}

abbrev pub replacement : ℕ
replacement = 0xfffd

-- Between characters, or in one that has `value` so far, wants `left` more bytes behind the next,
-- and the next between `lo` and `hi`.
pub data Decoder : Type 0 where
  between : Decoder
  inside : ℕ → ℕ → ℕ → ℕ → Decoder

pub in_range : ℕ → ℕ → ℕ → Bool
in_range lo hi b = leb lo b && leb b hi

-- A first byte, with what it completes.
pub first_byte : ℕ → Text × Decoder
unfolding in_range
first_byte b =
    if ltb b 0x80
    then (b ∷ [], between)
    else if in_range 0xc2 0xdf b
    then ([], inside (b - 0xc0) 0 0x80 0xbf)
    else if b == 0xe0
    then ([], inside 0 1 0xa0 0xbf)
    else if b == 0xed
    then ([], inside 0xd 1 0x80 0x9f)
    else if in_range 0xe1 0xef b
    then ([], inside (b - 0xe0) 1 0x80 0xbf)
    else if b == 0xf0
    then ([], inside 0 2 0x90 0xbf)
    else if b == 0xf4
    then ([], inside 4 2 0x80 0x8f)
    else if in_range 0xf1 0xf3 b
    then ([], inside (b - 0xf0) 2 0x80 0xbf)
    else (replacement ∷ [], between)

pub next_byte : Decoder → ℕ → Text × Decoder
unfolding first_byte in_range
next_byte between b = first_byte b
next_byte (inside value left lo hi) b =
    if in_range lo hi b
    then if left == 0
      then ((value * 64 + (b - 0x80)) ∷ [], between)
      else ([], inside (value * 64 + (b - 0x80)) (left - 1) 0x80 0xbf)
    else (replacement ∷ (first_byte b).0, (first_byte b).1)

pub decode_bytes : Decoder → List ℕ → Text
unfolding next_byte
decode_bytes between [] = []
decode_bytes (inside value left lo hi) [] = replacement ∷ []
decode_bytes d (b ∷ bs) = (next_byte d b).0 ++ decode_bytes (next_byte d b).1 bs

pub from_utf8_lossy : List ℕ → Text
unfolding decode_bytes
from_utf8_lossy bs = decode_bytes between bs

-- A Unicode scalar value, as every `char` is.
abbrev pub IsChar : ℕ → Type 0
IsChar c = (c < 0xd800) ⊎ ((0xe000 ≤ c) × (c < 0x110000))

last_byte :
    (v lo hi b : ℕ) (bs : List ℕ)
    → lo ≤ b
    → b ≤ hi
    → decode_bytes (inside v 0 lo hi) (b ∷ bs) ≡ (v * 64 + (b - 0x80)) ∷ decode_bytes between bs
unfolding decode_bytes next_byte in_range
last_byte v lo hi b bs l h = ground arith

middle_byte :
    (v left lo hi b : ℕ) (bs : List ℕ)
    → lo ≤ b
    → b ≤ hi
    → decode_bytes (inside v (suc left) lo hi) (b ∷ bs)
      ≡ decode_bytes (inside (v * 64 + (b - 0x80)) left 0x80 0xbf) bs
unfolding decode_bytes next_byte in_range
middle_byte v left lo hi b bs l h = ground arith

-- The first byte of a character of two, three or four bytes.
opens_two :
    (b : ℕ) (bs : List ℕ)
    → 0xc2 ≤ b
    → b ≤ 0xdf
    → decode_bytes between (b ∷ bs) ≡ decode_bytes (inside (b - 0xc0) 0 0x80 0xbf) bs
unfolding decode_bytes next_byte first_byte in_range
opens_two b bs l h = ground arith

-- The bounds on the byte behind a first one.
abbrev low_after : ℕ → ℕ
low_after b = if b == 0xe0 then 0xa0 else if b == 0xf0 then 0x90 else 0x80

abbrev high_after : ℕ → ℕ
high_after b = if b == 0xed then 0x9f else if b == 0xf4 then 0x8f else 0xbf

opens_three :
    (b : ℕ) (bs : List ℕ)
    → 0xe0 ≤ b
    → b ≤ 0xef
    → decode_bytes between (b ∷ bs)
      ≡ decode_bytes (inside (b - 0xe0) 1 (low_after b) (high_after b)) bs
unfolding decode_bytes next_byte first_byte in_range
opens_three b bs l h = ground arith

opens_four :
    (b : ℕ) (bs : List ℕ)
    → 0xf0 ≤ b
    → b ≤ 0xf4
    → decode_bytes between (b ∷ bs)
      ≡ decode_bytes (inside (b - 0xf0) 2 (low_after b) (high_after b)) bs
unfolding decode_bytes next_byte first_byte in_range
opens_four b bs l h = ground arith

decode_one :
    (c : ℕ) (bs : List ℕ) → c < 0x80 → decode_bytes between (c ∷ bs) ≡ c ∷ decode_bytes between bs
unfolding decode_bytes next_byte first_byte
decode_one c bs h = ground arith

decode_two :
    (c : ℕ) (bs : List ℕ)
    → 0x80 ≤ c
    → c < 0x800
    → decode_bytes between ((0xc0 + c / 64) ∷ (0x80 + c % 64) ∷ bs) ≡ c ∷ decode_bytes between bs
decode_two c bs l h =
    opens_two (0xc0 + c / 64) ((0x80 + c % 64) ∷ bs) (omega arith) (omega arith)
    ∙ last_byte (0xc0 + c / 64 - 0xc0) 0x80 0xbf (0x80 + c % 64) bs (omega arith) (omega arith)
    ∙ ap (λ (k : ℕ). k ∷ decode_bytes between bs) (omega arith)

three_high : (c : ℕ) → c < 0x10000 → IsChar c → 0x80 + c / 64 % 64 ≤ high_after (0xe0 + c / 4096)
three_high c h (inl low) = ground arith
three_high c h (inr high) = ground arith

decode_three :
    (c : ℕ) (bs : List ℕ)
    → 0x800 ≤ c
    → c < 0x10000
    → IsChar c
    → decode_bytes between ((0xe0 + c / 4096) ∷ (0x80 + c / 64 % 64) ∷ (0x80 + c % 64) ∷ bs)
      ≡ c ∷ decode_bytes between bs
decode_three c bs l h char =
    opens_three (0xe0 + c / 4096) ((0x80 + c / 64 % 64) ∷ (0x80 + c % 64) ∷ bs) (omega arith)
      (omega arith)
    ∙ middle_byte (0xe0 + c / 4096 - 0xe0) 0 (low_after (0xe0 + c / 4096))
        (high_after (0xe0 + c / 4096)) (0x80 + c / 64 % 64) ((0x80 + c % 64) ∷ bs) (ground arith)
        (three_high c h char)
    ∙ last_byte _ 0x80 0xbf (0x80 + c % 64) bs (omega arith) (omega arith)
    ∙ ap (λ (k : ℕ). k ∷ decode_bytes between bs) (omega arith)

decode_four :
    (c : ℕ) (bs : List ℕ)
    → 0x10000 ≤ c
    → c < 0x110000
    → decode_bytes between
        ((0xf0 + c / 262144) ∷ (0x80 + c / 4096 % 64) ∷ (0x80 + c / 64 % 64) ∷ (0x80 + c % 64) ∷ bs)
      ≡ c ∷ decode_bytes between bs
decode_four c bs l h =
    opens_four (0xf0 + c / 262144) _ (omega arith) (omega arith)
    ∙ middle_byte (0xf0 + c / 262144 - 0xf0) 1 (low_after (0xf0 + c / 262144))
        (high_after (0xf0 + c / 262144)) (0x80 + c / 4096 % 64) _ (ground arith) (ground arith)
    ∙ middle_byte _ 0 0x80 0xbf (0x80 + c / 64 % 64) _ (omega arith) (omega arith)
    ∙ last_byte _ 0x80 0xbf (0x80 + c % 64) bs (omega arith) (omega arith)
    ∙ ap (λ (k : ℕ). k ∷ decode_bytes between bs) (omega arith)

char_below : (c : ℕ) → IsChar c → c < 0x110000
char_below c (inl low) = omega arith
char_below c (inr high) = omega arith

decode-char :
    (c : ℕ) (bs : List ℕ)
    → IsChar c
    → decode_bytes between (utf8_char c ++ bs) ≡ c ∷ decode_bytes between bs
unfolding utf8_char
decode-char c bs h = elim (Bool-cases (ltb c 0x80)) [
  | inl a ↦ rw a (decode_one c bs (ground arith))
  | inr a ↦ elim (Bool-cases (ltb c 0x800)) [
    | inl b ↦ rw (a, b) (decode_two c bs (ground arith) (ground arith))
    | inr b ↦ elim (Bool-cases (ltb c 0x10000)) [
      | inl d ↦ rw (a, b, d) (decode_three c bs (ground arith) (ground arith) h)
      | inr d ↦ rw (a, b, d) (decode_four c bs (ground arith) (char_below c h))
    ]
  ]
]

pub from_utf8_lossy-as_bytes : (s : Text) → All IsChar s → from_utf8_lossy (as_bytes s) ≡ s
unfolding as_bytes decode_bytes from_utf8_lossy
from_utf8_lossy-as_bytes [] h = refl
from_utf8_lossy-as_bytes (c ∷ s) h =
    decode-char c (as_bytes s) h.0 ∙ ap (λ (t : Text). c ∷ t) (from_utf8_lossy-as_bytes s h.1)

utf8_char-IsChar : (c : ℕ) → c < 0x110000 → All IsChar (utf8_char c)
unfolding utf8_char
utf8_char-IsChar c h = elim (Bool-cases (ltb c 0x80)) [
  | inl a ↦ rw a (inl (ground arith), tt)
  | inr a ↦ elim (Bool-cases (ltb c 0x800)) [
    | inl b ↦ rw (a, b) (inl (omega arith), (inl (omega arith), tt))
    | inr b ↦ elim (Bool-cases (ltb c 0x10000)) [
      | inl d ↦ rw (a, b, d) (inl (omega arith), (inl (omega arith), (inl (omega arith), tt)))
      | inr d ↦
          rw (a, b, d)
            (inl (omega arith), (inl (omega arith), (inl (omega arith), (inl (omega arith), tt))))
    ]
  ]
]

-- A byte of a text is a character, too.
pub as_bytes-IsChar : (s : Text) → All IsChar s → All IsChar (as_bytes s)
unfolding as_bytes
as_bytes-IsChar [] h = tt
as_bytes-IsChar (c ∷ s) h =
    All-append IsChar (utf8_char c) (as_bytes s) (utf8_char-IsChar c (char_below c h.0))
      (as_bytes-IsChar s h.1)
