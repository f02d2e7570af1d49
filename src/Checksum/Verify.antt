-- ===== src/Checksum/Verify.antt =====
-- `verify_file` of src/checksum.rs: the verdict depends on the content of the file alone.
use mathlib.Core.List.{flatten}
use fast_downloader.Prelude.{
  ℕ, ◌≡◌, ◌≢◌, refl, ap, ◌∙◌, List, [], ◌∷◌, ◌++◌, map, arith, length, All, if◌then◌else◌,
}
use fast_downloader.Prelude.Text.{text_eq}
use fast_downloader.Error.{ok, err, checksum_mismatch}
use fast_downloader.Checksum.{
  Checksum, md5, sha256, sha512, Digest, Hashes, hash_loop, hash_with, into_array, compute_blocking,
  checksum_eq, verify_file, bytes, to_string,
}

-- The documented behaviour of a digest: updating with pieces is updating with the whole, and the
-- result has the algorithm's length.
pub record IsDigest (n : ℕ) (d : Digest) : Type 0 where
  pub update_append : (s : d.State) (a b : List ℕ) → d.update (d.update s a) b ≡ d.update s (a ++ b)
  pub update_nil : (s : d.State) → d.update s [] ≡ s
  pub length_finalize : (s : d.State) → length (d.finalize s) ≡ n

pub record AreDigests (h : Hashes) : Type 0 where
  pub md5_ok : IsDigest 16 h.md5_digest
  pub sha256_ok : IsDigest 32 h.sha256_digest
  pub sha512_ok : IsDigest 64 h.sha512_digest

-- The hash of a content in one go.
pub hash_of : Digest → List ℕ → List ℕ
hash_of d content = d.finalize (d.update d.start content)

-- The hash, under the algorithm of `c`.
unfoldable pub hash_like : Hashes → Checksum → List ℕ → List ℕ
unfolding hash_of
hash_like h (md5 a) = hash_of h.md5_digest
hash_like h (sha256 a) = hash_of h.sha256_digest
hash_like h (sha512 a) = hash_of h.sha512_digest

hash_loop-flatten :
    (n : ℕ) (d : Digest)
    → IsDigest n d
    → (s : d.State) (pieces : List (List ℕ)) → All (λ p. p ≢ []) pieces
    → hash_loop d s (map ok pieces) ≡ ok (d.finalize (d.update s (flatten pieces)))
unfolding hash_loop flatten
hash_loop-flatten n d law s [] h = rw law.update_nil
hash_loop-flatten n d law s ([] ∷ ps) h = absurd (h.0 refl)
hash_loop-flatten n d law s ((b ∷ p) ∷ ps) h =
    hash_loop-flatten n d law (d.update s (b ∷ p)) ps h.1
    ∙ ap (λ x. ok (d.finalize x)) (law.update_append s (b ∷ p) (flatten ps))

-- The checksum of the same algorithm with other bytes.
abbrev pub with_bytes : Checksum → List ℕ → Checksum
with_bytes (md5 a) b = md5 b
with_bytes (sha256 a) b = sha256 b
with_bytes (sha512 a) b = sha512 b

into_array_exact : (n : ℕ) (a : List ℕ) → length a ≡ n → into_array n a ≡ ok a
unfolding into_array
into_array_exact n a h = ground arith

-- One algorithm's digest of the pieces, as an array.
digest_pieces :
    (n : ℕ) (d : Digest)
    → IsDigest n d
    → (pieces : List (List ℕ)) → All (λ p. p ≢ []) pieces
    → (hash_with d (map ok pieces) ≡ ok (hash_of d (flatten pieces)))
      × (into_array n (hash_of d (flatten pieces)) ≡ ok (hash_of d (flatten pieces)))
unfolding hash_with hash_of
digest_pieces n d law pieces h =
    (hash_loop-flatten n d law d.start pieces h, into_array_exact n _ (law.length_finalize _))

compute_blocking-hash_like :
    (h : Hashes)
    → AreDigests h
    → (pieces : List (List ℕ)) → All (λ p. p ≢ []) pieces
    → (expected : Checksum)
    → compute_blocking h (ok tt) (map ok pieces) expected
      ≡ ok (with_bytes expected (hash_like h expected (flatten pieces)))
unfolding compute_blocking hash_like
compute_blocking-hash_like h laws pieces ne (md5 a) =
    let p = digest_pieces 16 h.md5_digest laws.md5_ok pieces ne in rw (p.0, p.1)
compute_blocking-hash_like h laws pieces ne (sha256 a) =
    let p = digest_pieces 32 h.sha256_digest laws.sha256_ok pieces ne in rw (p.0, p.1)
compute_blocking-hash_like h laws pieces ne (sha512 a) =
    let p = digest_pieces 64 h.sha512_digest laws.sha512_ok pieces ne in rw (p.0, p.1)

checksum_eq-with_bytes :
    (c : Checksum) (b : List ℕ) → checksum_eq (with_bytes c b) c ≡ text_eq b (bytes c)
unfolding checksum_eq bytes
checksum_eq-with_bytes (md5 a) b = refl
checksum_eq-with_bytes (sha256 a) b = refl
checksum_eq-with_bytes (sha512 a) b = refl

-- For digests that hash piece by piece as they hash the whole, a file that is read without an
-- error, in whatever pieces, is accepted exactly when the hash of its content under the algorithm
-- of the expected checksum is the expected one; otherwise the error shows both checksums.
pub verify_file-content :
    (h : Hashes) (pieces : List (List ℕ)) (expected : Checksum)
    → AreDigests h
    → All (λ p. p ≢ []) pieces
    → verify_file h (ok tt) (map ok pieces) expected ≡ (
        if text_eq (hash_like h expected (flatten pieces)) (bytes expected)
        then ok tt
        else err (
            checksum_mismatch
              (to_string expected)
              (to_string (with_bytes expected (hash_like h expected (flatten pieces))))))
unfolding verify_file
verify_file-content h pieces expected laws ne = rw (
  compute_blocking-hash_like h laws pieces ne expected,
  checksum_eq-with_bytes expected (hash_like h expected (flatten pieces)),
)
