-- ===== src/Checksum/Tests.antt =====
-- Runs of src/checksum.rs, and the theorems at concrete inputs.
use mathlib.Core.List.{append_assoc, append-nil, flatten}
use fast_downloader.Prelude.{
  ℕ, ◌≡◌, ◌⊎◌, refl, Option, none, some, List, [], ◌∷◌, ◌++◌, replicate, take, length-take,
  length-append, length-replicate, arith,
}
use fast_downloader.Prelude.Text.{
  Text, codes, split, split_once, trim, to_ascii_lowercase, as_bytes, text_eq,
}
use fast_downloader.Error.{ok}
use fast_downloader.Checksum.{
  md5, sha256, from_hex, md5_hex, to_hex, bytes, Digest, Hashes, verify_file,
}
use fast_downloader.Checksum.Advertised.{digest_from_parts, consider}
use fast_downloader.Checksum.Hex.{parse-to_hex}
use fast_downloader.Checksum.Strongest.{
  strength, max_strength, candidates, Occurs, digest_from_parts-strongest,
}
use fast_downloader.Checksum.Verify.{IsDigest, AreDigests, hash_like, verify_file-content}

abbrev sample : List ℕ
sample = 0xd4 ∷ 0x1d ∷ replicate 14 0xab

parse-to_hex_example : md5_hex (to_hex (md5 sample)) ≡ ok (md5 sample)
parse-to_hex_example = parse-to_hex (md5 sample) (omega arith)

abbrev two_bytes : List ℕ
two_bytes = 0xd4 ∷ 0x1d ∷ []

hex_of_sample : from_hex 2 (codes " D41d ") ≡ ok (0xd4 ∷ 0x1d ∷ [])
unfolding from_hex trim as_bytes
hex_of_sample = refl

-- A decoder that reads any text as its own characters.
abbrev identity : Text → Option (List ℕ)
identity s = some s

abbrev thirty_two : Text
thirty_two = codes "abcdefghijklmnopqrstuvwxyz012345"

abbrev repr_header : Text
repr_header = codes "unixsum=1, sha-256=:abcdefghijklmnopqrstuvwxyz012345:"

prefers_strength :
    digest_from_parts identity (some repr_header) none (some (codes "abcdefghijklmnop"))
    ≡ some (sha256 thirty_two)
unfolding digest_from_parts consider split split_once trim to_ascii_lowercase text_eq
prefers_strength = refl

digest_from_parts-strongest_example :
    (strength (digest_from_parts identity (some repr_header) none none)
      ≡ max_strength (candidates identity (some repr_header) none none))
    × ((digest_from_parts identity (some repr_header) none none ≡ none)
        ⊎ Occurs
            (digest_from_parts identity (some repr_header) none none)
            (candidates identity (some repr_header) none none))
digest_from_parts-strongest_example =
    digest_from_parts-strongest identity (some repr_header) none none

-- A digest of `n` bytes: the start of the content, filled up with zeros.
abbrev toy : ℕ → Digest
toy n = record {
  State = List ℕ;
  start = [];
  update = λ s b. s ++ b;
  finalize = λ s. take n (s ++ replicate n 0);
}

toy-IsDigest : (n : ℕ) → IsDigest n (toy n)
toy-IsDigest n = record {
  update_append = λ s a b. append_assoc s a b;
  update_nil = λ s. append-nil s;
  length_finalize = λ s. omega (
    arith,
    length-take n (s ++ replicate n 0),
    length-append s (replicate n 0),
    length-replicate n (the_zero),
  );
}
  where
    the_zero : ℕ
    the_zero = 0

abbrev toys : Hashes
toys = record { md5_digest = toy 16; sha256_digest = toy 32; sha512_digest = toy 64 }

toys-AreDigests : AreDigests toys
toys-AreDigests = record {
  md5_ok = toy-IsDigest 16;
  sha256_ok = toy-IsDigest 32;
  sha512_ok = toy-IsDigest 64;
}

verify_file-content_example :
    verify_file toys (ok tt) (ok (1 ∷ 2 ∷ []) ∷ ok (3 ∷ []) ∷ []) (md5 (1 ∷ 2 ∷ 3 ∷ replicate 13 0))
    ≡ ok tt
unfolding hash_like flatten text_eq bytes
verify_file-content_example =
    verify_file-content toys ((1 ∷ 2 ∷ []) ∷ (3 ∷ []) ∷ []) (md5 (1 ∷ 2 ∷ 3 ∷ replicate 13 0))
      toys-AreDigests ((λ e. cc), ((λ e. cc), tt))
