-- ===== src/Checksum.antt =====
-- src/checksum.rs: expected digests, their hexadecimal and header forms, and the verification of a
-- finished file. An array `[u8; N]` is the list of its bytes. Base64 and the hash functions are
-- libraries: they are arguments.
pub mod Advertised
pub mod Hex
pub mod Accepted
pub mod Strongest
pub mod Verify
mod Tests
use Prim.Native.Nat.{bit_or, bit_and}
use fast_downloader.Prelude.{
  ℕ, zero, suc, ◌+◌, ◌-◌, ◌*◌, ◌/◌, ◌%◌, Bool, true, false, not, ◌&&◌, ◌||◌, Option, none, some,
  List, [], ◌∷◌, ◌++◌, length, ltb, leb, ◌==◌, if◌then◌else◌,
}
use fast_downloader.Prelude.Text.{
  Text, codes, text_eq, as_bytes, trim, trim_matches, to_ascii_lowercase, split, split_once,
}
use fast_downloader.Error.{
  Result, ok, err, ◌>>=◌, Error, invalid_checksum, hex_length, non_hex, checksum_mismatch, io,
}

pub data Checksum : Type 0 where
  md5 : List ℕ → Checksum
  sha256 : List ℕ → Checksum
  sha512 : List ℕ → Checksum

pub hex_val : ℕ → Result ℕ
hex_val b =
    if leb b'0' b && leb b b'9'
    then ok (b - b'0')
    else if leb b'a' b && leb b b'f'
    then ok (b - b'a' + 10)
    else if leb b'A' b && leb b b'F'
    then ok (b - b'A' + 10)
    else err (invalid_checksum non_hex)

-- `(hi << 4) | lo` on `u8`.
pub join_nibbles : ℕ → ℕ → ℕ
join_nibbles hi lo = bit_or (hi * 16 % 256) lo

-- The loop of `from_hex`: slot `i` takes the bytes `2 * i` and `2 * i + 1` of a text whose length
-- was checked to be even.
pub hex_pairs : List ℕ → Result (List ℕ)
unfolding hex_val join_nibbles
hex_pairs [] = ok []
hex_pairs (b ∷ []) = ok []
hex_pairs (b ∷ c ∷ rest) = do
  hi ← hex_val b
  lo ← hex_val c
  out ← hex_pairs rest
  ok (join_nibbles hi lo ∷ out)

pub from_hex : ℕ → Text → Result (List ℕ)
unfolding hex_pairs
from_hex n s =
    let bytes = as_bytes (trim s) in
    if not (length bytes == 2 * n)
    then err (invalid_checksum (hex_length (2 * n) (length bytes)))
    else hex_pairs bytes

pub sha256_hex : Text → Result Checksum
sha256_hex s = do a ← from_hex 32 s; ok (sha256 a)

pub sha512_hex : Text → Result Checksum
sha512_hex s = do a ← from_hex 64 s; ok (sha512 a)

pub md5_hex : Text → Result Checksum
md5_hex s = do a ← from_hex 16 s; ok (md5 a)

pub algorithm : Checksum → Text
algorithm (md5 a) = codes "md5"
algorithm (sha256 a) = codes "sha-256"
algorithm (sha512 a) = codes "sha-512"

pub bytes : Checksum → List ℕ
bytes (md5 a) = a
bytes (sha256 a) = a
bytes (sha512 a) = a

-- `char::from_digit(d, 16)` for `d < 16`.
pub from_digit : ℕ → ℕ
from_digit d = if ltb d 10 then b'0' + d else b'a' + (d - 10)

pub hex_text : List ℕ → Text
unfolding from_digit
hex_text [] = []
hex_text (b ∷ bs) = from_digit (b / 16) ∷ from_digit (bit_and b 0xf) ∷ hex_text bs

pub to_hex : Checksum → Text
unfolding hex_text bytes
to_hex c = hex_text (bytes c)

-- `Display`
pub to_string : Checksum → Text
unfolding algorithm to_hex
to_string c = algorithm c ++ codes ":" ++ to_hex c

-- The derived `==`.
unfoldable pub checksum_eq : Checksum → Checksum → Bool
checksum_eq (md5 a) (md5 b) = text_eq a b
checksum_eq (sha256 a) (sha256 b) = text_eq a b
checksum_eq (sha512 a) (sha512 b) = text_eq a b
checksum_eq (md5 a) (sha256 b) = false
checksum_eq (md5 a) (sha512 b) = false
checksum_eq (sha256 a) (md5 b) = false
checksum_eq (sha256 a) (sha512 b) = false
checksum_eq (sha512 a) (md5 b) = false
checksum_eq (sha512 a) (sha256 b) = false

-- `sha2::Digest` as the code uses it, of the crates `md5` and `sha2`.
pub record Digest : Type 1 where
  pub State : Type 0
  pub start : State
  pub update : State → List ℕ → State
  pub finalize : State → List ℕ

pub record Hashes : Type 1 where
  pub md5_digest : Digest
  pub sha256_digest : Digest
  pub sha512_digest : Digest

-- The loop of `hash_with` over what the calls of `read` return; after these a read returns no byte.
unfoldable pub hash_loop : (d : Digest) → d.State → List (Result (List ℕ)) → Result (List ℕ)
hash_loop d s [] = ok (d.finalize s)
hash_loop d s (err e ∷ reads) = err e
hash_loop d s (ok [] ∷ reads) = ok (d.finalize s)
hash_loop d s (ok (b ∷ buf) ∷ reads) = hash_loop d (d.update s (b ∷ buf)) reads

unfoldable pub hash_with : Digest → List (Result (List ℕ)) → Result (List ℕ)
unfolding hash_loop
hash_with d reads = hash_loop d d.start reads

-- `.try_into().expect(…)`; a panic on the blocking thread comes back as the error of its task.
unfoldable pub into_array : ℕ → List ℕ → Result (List ℕ)
into_array n a = if length a == n then ok a else err (io (codes "hash task"))

module _ (h : Hashes) (opened : Result (Unit {0})) (reads : List (Result (List ℕ))) where
  unfoldable pub compute_blocking : Checksum → Result Checksum
  unfolding into_array
  compute_blocking (md5 a) = do
    _ ← opened
    sum ← hash_with h.md5_digest reads
    array ← into_array 16 sum
    ok (md5 array)
  compute_blocking (sha256 a) = do
    _ ← opened
    sum ← hash_with h.sha256_digest reads
    array ← into_array 32 sum
    ok (sha256 array)
  compute_blocking (sha512 a) = do
    _ ← opened
    sum ← hash_with h.sha512_digest reads
    array ← into_array 64 sum
    ok (sha512 array)

  unfoldable pub verify_file : Checksum → Result (Unit {0})
  unfolding checksum_eq to_string
  verify_file expected = do
    actual ← compute_blocking expected
    if checksum_eq actual expected
        then ok tt
        else err (checksum_mismatch (to_string expected) (to_string actual))
