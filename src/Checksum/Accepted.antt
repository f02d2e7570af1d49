-- ===== src/Checksum/Accepted.antt =====
-- What `from_hex` of src/checksum.rs accepts: printing inverts parsing, up to letter case and
-- surrounding whitespace.
use fast_downloader.Prelude.{
  ℕ, zero, suc, ◌+◌, ◌*◌, ◌/◌, ◌%◌, ◌≤◌, ◌<◌, ◌≡◌, refl, ◌∙◌, ap, ◌⊎◌, inl, inr, List, [], ◌∷◌,
  ◌++◌, length, ltb, All, arith, Bool-cases,
}
use fast_downloader.Prelude.Text.{Text, as_bytes, utf8_char, trim, to_ascii_lowercase, lower_char}
use fast_downloader.Error.{Result, ok, err, ◌>>=◌}
use fast_downloader.Checksum.{hex_val, join_nibbles, hex_pairs, from_hex, from_digit, hex_text}
use fast_downloader.Checksum.Hex.{IsByte, IsPlain, low_nibble, join-split}

-- The other direction: what is parsed prints as the text in lower case.
hex_val_inverse :
    (b d : ℕ) → hex_val b ≡ ok d → (d < 16) × (from_digit d ≡ lower_char b) × IsPlain b
unfolding hex_val from_digit lower_char
hex_val_inverse b d h = ground arith

join_nibbles-eq : (d e : ℕ) → d < 16 → e < 16 → join_nibbles d e ≡ d * 16 + e
join_nibbles-eq d e p q =
    let hi : (d * 16 + e) / 16 ≡ d = omega arith in
    let lo : (d * 16 + e) % 16 ≡ e = omega arith in
    cc (join-split (d * 16 + e) (omega arith), hi, lo)

-- `r` is an error, or `n` bytes whose hexadecimal form is `bs` in lower case.
abbrev Prints : ℕ → List ℕ → Result (List ℕ) → Type 0
Prints n bs (ok a) =
    (length a ≡ n) × All IsByte a × (hex_text a ≡ to_ascii_lowercase bs) × All IsPlain bs
Prints n bs (err e) = Unit

Prints-pair :
    (n b c : ℕ) (bs : List ℕ) (hi lo : Result ℕ) (r : Result (List ℕ))
    → hex_val b ≡ hi
    → hex_val c ≡ lo
    → Prints n bs r
    → Prints (suc n) (b ∷ c ∷ bs) (do d ← hi; e ← lo; out ← r; ok (join_nibbles d e ∷ out))
unfolding hex_text to_ascii_lowercase
Prints-pair n b c bs (err x) lo r p q h = tt
Prints-pair n b c bs (ok d) (err x) r p q h = tt
Prints-pair n b c bs (ok d) (ok e) (err x) p q h = tt
Prints-pair n b c bs (ok d) (ok e) (ok out) p q h =
    let (d-lt, d-digit, b-plain) = hex_val_inverse b d p in
    let (e-lt, e-digit, c-plain) = hex_val_inverse c e q in
    let j = join_nibbles-eq d e d-lt e-lt in
    let low = low_nibble (d * 16 + e) (omega arith) in
    let hi_eq : (d * 16 + e) / 16 ≡ d = omega arith in
    let lo_eq : (d * 16 + e) % 16 ≡ e = omega arith in
    rw j (
      omega (arith, h.0),
      (omega arith, h.1),
      rw (hi_eq, low, lo_eq) (cc (d-digit, e-digit, h.2)),
      (b-plain, (c-plain, h.3)),
    )

hex_pairs-Prints : (bs : List ℕ) (n : ℕ) → length bs ≡ 2 * n → Prints n bs (hex_pairs bs)
unfolding hex_pairs hex_text to_ascii_lowercase
hex_pairs-Prints [] n l = (omega arith, tt, refl, tt)
hex_pairs-Prints (b ∷ []) n l = absurd (omega arith)
hex_pairs-Prints (b ∷ c ∷ bs) zero l = absurd (omega arith)
hex_pairs-Prints (b ∷ c ∷ bs) (suc n) l =
    Prints-pair n b c bs (hex_val b) (hex_val c) (hex_pairs bs) refl refl
      (hex_pairs-Prints bs n (omega arith))

utf8_char-cases :
    (c : ℕ) → (utf8_char c ≡ c ∷ []) ⊎ ((x : ℕ) × (r : List ℕ) × (utf8_char c ≡ x ∷ r) × (0x80 ≤ x))
unfolding utf8_char
utf8_char-cases c = elim (Bool-cases (ltb c 0x80)) [
  | inl small ↦ inl (rw small)
  | inr large ↦ inr (elim (Bool-cases (ltb c 0x800)) [
    | inl two ↦ (0xc0 + c / 64, (0x80 + c % 64) ∷ [], rw (large, two), omega arith)
    | inr more ↦ elim (Bool-cases (ltb c 0x10000)) [
      | inl three ↦ (
        0xe0 + c / 4096,
        (0x80 + c / 64 % 64) ∷ (0x80 + c % 64) ∷ [],
        rw (large, more, three),
        omega arith,
      )
      | inr four ↦ (
        0xf0 + c / 262144,
        (0x80 + c / 4096 % 64) ∷ (0x80 + c / 64 % 64) ∷ (0x80 + c % 64) ∷ [],
        rw (large, more, four),
        omega arith,
      )
    ]
  ])
]

IsPlain-char :
    (u r : List ℕ) (c : ℕ)
    → ((u ≡ c ∷ []) ⊎ ((x : ℕ) × (t : List ℕ) × (u ≡ x ∷ t) × (0x80 ≤ x)))
    → All IsPlain (u ++ r)
    → (u ≡ c ∷ []) × All IsPlain r
IsPlain-char u r c (inl e) h = (e, (rw e at h).1)
IsPlain-char u r c (inr (x, t, e, big)) h = absurd (omega (arith, (rw e at h).0))

-- A text whose bytes are printable ASCII is its bytes.
as_bytes_plain : (s : Text) → All IsPlain (as_bytes s) → as_bytes s ≡ s
unfolding as_bytes
as_bytes_plain [] h = refl
as_bytes_plain (c ∷ s) h =
    let p = IsPlain-char (utf8_char c) (as_bytes s) c (utf8_char-cases c) h in
    cc (p.0, as_bytes_plain s p.1)

-- What `from_hex` accepts, for any number of bytes: the digest has that many bytes, and its
-- hexadecimal form is the text without surrounding whitespace, in lower case.
pub hex_text-from_hex :
    (n : ℕ) (s : Text) (a : List ℕ)
    → from_hex n s ≡ ok a
    → (length a ≡ n) × All IsByte a × (hex_text a ≡ to_ascii_lowercase (trim s))
unfolding from_hex
hex_text-from_hex n s a h =
    let bs = as_bytes (trim s) in
    let len : length bs ≡ 2 * n = ground arith in
    let e : hex_pairs bs ≡ ok a = ground arith in
    let p : Prints n bs (ok a) = rw e at (hex_pairs-Prints bs n len) in
    (p.0, p.1, p.2 ∙ ap to_ascii_lowercase (as_bytes_plain (trim s) p.3))
