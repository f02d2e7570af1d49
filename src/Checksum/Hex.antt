-- ===== src/Checksum/Hex.antt =====
-- The hexadecimal forms of src/checksum.rs: parsing inverts printing.
use Prim.Native.Nat.{bit_and}
use mathlib.Core.List.{reverse, reverse-reverse}
use fast_downloader.Prelude.{
  ℕ, zero, suc, ◌*◌, ◌/◌, ◌%◌, ◌<◌, ◌≡◌, refl, Bool, true, ◌&&◌, List, [], ◌∷◌, length, ◌==◌, All,
  All-reverse, arith, ==_iff,
}
use fast_downloader.Prelude.Text.{Text, as_bytes, trim, trim_matches, is_whitespace, drop_while}
use fast_downloader.Error.{Result, ok}
use fast_downloader.Checksum.{
  Checksum, md5, sha256, sha512, hex_val, join_nibbles, hex_pairs, from_hex, sha256_hex, sha512_hex,
  md5_hex, from_digit, hex_text, to_hex, bytes,
}

checked_to : (ℕ → Bool) → ℕ → Bool
checked_to p zero = true
checked_to p (suc n) = checked_to p n && p n

checked_at : (p : ℕ → Bool) (b n : ℕ) → b < n → checked_to p n ≡ true → p b ≡ true
unfolding checked_to
checked_at p b zero below h = absurd (omega arith)
checked_at p b (suc n) below h = ground (arith, checked_at p b n)

abbrev pub IsByte : ℕ → Type 0
IsByte b = b < 256

hex_val-from_digit : (d : ℕ) → d < 16 → hex_val (from_digit d) ≡ ok d
unfolding hex_val from_digit
hex_val-from_digit d h = ground arith

low_nibble_table : checked_to (λ b. bit_and b 0xf == b % 16) 256 ≡ true
unfolding checked_to
low_nibble_table = refl

pub low_nibble : (b : ℕ) → IsByte b → bit_and b 0xf ≡ b % 16
low_nibble b h = (==_iff _ _).0 (checked_at _ b 256 h low_nibble_table)

join_table : checked_to (λ b. join_nibbles (b / 16) (b % 16) == b) 256 ≡ true
unfolding checked_to join_nibbles
join_table = refl

pub join-split : (b : ℕ) → IsByte b → join_nibbles (b / 16) (b % 16) ≡ b
join-split b h = (==_iff _ _).0 (checked_at _ b 256 h join_table)

hex_pairs-hex_text : (a : List ℕ) → All IsByte a → hex_pairs (hex_text a) ≡ ok a
unfolding hex_pairs hex_text
hex_pairs-hex_text [] h = refl
hex_pairs-hex_text (b ∷ a) h = rw (
  low_nibble b h.0,
  hex_val-from_digit (b / 16) (omega arith),
  hex_val-from_digit (b % 16) (omega arith),
  hex_pairs-hex_text a h.1,
  join-split b h.0,
)

-- The characters that `to_hex` writes.
abbrev pub IsPlain : ℕ → Type 0
IsPlain c = (0x20 < c) × (c < 0x80)

from_digit-IsPlain : (d : ℕ) → d < 16 → IsPlain (from_digit d)
unfolding from_digit
from_digit-IsPlain d h = ground arith

hex_text-IsPlain : (a : List ℕ) → All IsByte a → All IsPlain (hex_text a)
unfolding hex_text
hex_text-IsPlain [] h = tt
hex_text-IsPlain (b ∷ a) h = (
  from_digit-IsPlain (b / 16) (omega arith),
  (rw (low_nibble b h.0) (from_digit-IsPlain (b % 16) (omega arith)), hex_text-IsPlain a h.1),
)

length-hex_text : (a : List ℕ) → length (hex_text a) ≡ 2 * length a
unfolding hex_text
length-hex_text [] = omega arith
length-hex_text (b ∷ a) = omega (arith, length-hex_text a)

as_bytes-IsPlain : (s : Text) → All IsPlain s → as_bytes s ≡ s
unfolding as_bytes
as_bytes-IsPlain [] h = refl
as_bytes-IsPlain (c ∷ s) h = ground (arith, as_bytes-IsPlain s h.1)

drop_while-IsPlain : (s : Text) → All IsPlain s → drop_while is_whitespace s ≡ s
unfolding drop_while is_whitespace
drop_while-IsPlain [] h = refl
drop_while-IsPlain (c ∷ s) h = ground arith

trim-IsPlain : (s : Text) → All IsPlain s → trim s ≡ s
unfolding trim trim_matches
trim-IsPlain s h = rw (
  drop_while-IsPlain s h,
  drop_while-IsPlain (reverse s) (All-reverse IsPlain s h),
  reverse-reverse s,
)

from_hex-hex_text :
    (n : ℕ) (a : List ℕ) → length a ≡ n → All IsByte a → from_hex n (hex_text a) ≡ ok a
unfolding from_hex
from_hex-hex_text n a e h =
    rw
      (
        trim-IsPlain (hex_text a) (hex_text-IsPlain a h),
        as_bytes-IsPlain (hex_text a) (hex_text-IsPlain a h),
      )
      (ground (arith, length-hex_text a, hex_pairs-hex_text a h))

-- A digest of as many bytes as its algorithm makes.
abbrev pub IsWellFormed : Checksum → Type 0
IsWellFormed (md5 a) = (length a ≡ 16) × All IsByte a
IsWellFormed (sha256 a) = (length a ≡ 32) × All IsByte a
IsWellFormed (sha512 a) = (length a ≡ 64) × All IsByte a

-- The parser of the algorithm of a checksum.
abbrev pub parser_of : Checksum → Text → Result Checksum
parser_of (md5 a) = md5_hex
parser_of (sha256 a) = sha256_hex
parser_of (sha512 a) = sha512_hex

-- For each algorithm, parsing the hexadecimal form of a digest gives the digest back.
pub parse-to_hex : (c : Checksum) → IsWellFormed c → parser_of c (to_hex c) ≡ ok c
unfolding to_hex bytes md5_hex sha256_hex sha512_hex
parse-to_hex (md5 a) h = rw (from_hex-hex_text 16 a h.0 h.1)
parse-to_hex (sha256 a) h = rw (from_hex-hex_text 32 a h.0 h.1)
parse-to_hex (sha512 a) h = rw (from_hex-hex_text 64 a h.0 h.1)
