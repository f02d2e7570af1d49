-- ===== src/Filename/Length.antt =====
-- Lengths in bytes of what `sanitize` of src/filename.rs cuts off, and which characters stay.
use mathlib.Core.List.{reverse, reverse-cons}
use fast_downloader.Prelude.{
  ℕ, zero, suc, ◌+◌, ◌-◌, ◌≤◌, ◌<◌, ◌≡◌, ◌≢◌, inl, inr, refl, sym, ap, subst, ◌∙◌, Bool, true,
  false, ◌&&◌, [], ◌∷◌, ◌++◌, length, length-append, min, arith, leb, Bool-cases, All, All-reverse,
  leb→le,
}
use fast_downloader.Prelude.Text.{Text, utf8_char, as_bytes, drop_while}
use fast_downloader.Filename.{
  len, is_char_boundary, truncate, is_nil, is_trailing, strip_end, pop_loop, cut_loop,
}

pub width-bounds : (c : ℕ) → (0 < length (utf8_char c)) × (length (utf8_char c) ≤ 4)
unfolding utf8_char
width-bounds c = ground arith

pub len-cons : (c : ℕ) (s : Text) → len (c ∷ s) ≡ length (utf8_char c) + len s
unfolding len as_bytes
len-cons c s = length-append (utf8_char c) (as_bytes s)

pub len-append : (a b : Text) → len (a ++ b) ≡ len a + len b
unfolding len as_bytes
len-append [] b = omega arith
len-append (c ∷ a) b = omega (arith, len-cons c (a ++ b), len-cons c a, len-append a b)

pub len-truncate : (s : Text) (n : ℕ) → len (truncate s n) ≤ n
unfolding truncate len as_bytes
len-truncate [] n = omega arith
len-truncate (c ∷ s) n = elim (Bool-cases (leb (length (utf8_char c)) n)) [
  | inl fits ↦
      rw (truncate, fits)
        (omega (
          arith,
          len-cons c (truncate s (n - length (utf8_char c))),
          len-truncate s (n - length (utf8_char c)),
          leb→le (length (utf8_char c)) n fits,
        ))
  | inr over ↦ rw (truncate, over) (omega arith)
]

pub cut_loop-le : (s : Text) (cut : ℕ) → cut_loop s cut ≤ cut
unfolding cut_loop
cut_loop-le s zero = omega arith
cut_loop-le s (suc cut) = ground (arith, cut_loop-le s cut)

-- A character at the start that must not be there.
abbrev pub Starts : (ℕ → Type 0) → Text → Type 0
Starts P [] = ⊥
Starts P (c ∷ s) = P c

module _ (P : ℕ → Type 0) where
  pub All-truncate : (s : Text) (n : ℕ) → All P s → All P (truncate s n)
  unfolding truncate
  All-truncate [] n h = tt
  All-truncate (c ∷ s) n h = elim (Bool-cases (leb (length (utf8_char c)) n)) [
    | inl fits ↦ rw (truncate, fits) (h.0, All-truncate s (n - length (utf8_char c)) h.1)
    | inr over ↦ rw (truncate, over) tt
  ]

  pub All-append : (a b : Text) → All P a → All P b → All P (a ++ b)
  All-append [] b h k = k
  All-append (c ∷ a) b h k = (h.0, All-append a b h.1 k)

  pub All-strip_end : (s : Text) → All P s → All P (strip_end s)
  unfolding strip_end
  All-strip_end [] h = tt
  All-strip_end (c ∷ s) h = elim (Bool-cases (is_nil (strip_end s) && is_trailing c)) [
    | inl gone ↦ rw (strip_end, gone) tt
    | inr kept ↦ rw (strip_end, kept) (h.0, All-strip_end s h.1)
  ]

  pub All-drop_while : (p : ℕ → Bool) (s : Text) → All P s → All P (drop_while p s)
  unfolding drop_while
  All-drop_while p [] h = tt
  All-drop_while p (c ∷ s) h = elim (Bool-cases (p c)) [
    | inl gone ↦ rw (gone) (All-drop_while p s h.1)
    | inr kept ↦ rw (kept) h
  ]

  pub All-pop_loop : (budget : ℕ) (s : Text) → All P s → All P (pop_loop budget s)
  unfolding pop_loop
  All-pop_loop budget [] h = tt
  All-pop_loop budget (c ∷ s) h =
      let stem = reverse (c ∷ s) in
      elim (Bool-cases (is_char_boundary stem (min budget (len stem)))) [
        | inl here ↦ rw (pop_loop, here) (All-reverse P (c ∷ s) h)
        | inr inside ↦ rw (pop_loop, inside) (All-pop_loop budget s h.1)
      ]

  pub Starts-truncate : (s : Text) (n : ℕ) → 4 ≤ n → Starts P s → Starts P (truncate s n)
  unfolding truncate
  Starts-truncate [] n h p = p
  Starts-truncate (c ∷ s) n h p =
      let fits : leb (length (utf8_char c)) n ≡ true = ground (arith, width-bounds c) in
      rw (truncate, fits) p

  pub Starts-append : (a b : Text) → Starts P a → Starts P (a ++ b)
  Starts-append [] b p = absurd p
  Starts-append (c ∷ a) b p = p

  pub Starts-truncate-min :
      (s : Text) (budget : ℕ) → 4 ≤ budget → Starts P s → Starts P (truncate s (min budget (len s)))
  unfolding truncate
  Starts-truncate-min [] budget h p = absurd p
  Starts-truncate-min (c ∷ s) budget h p =
      let fits : leb (length (utf8_char c)) (min budget (len (c ∷ s))) ≡ true =
        ground (arith, width-bounds c, len-cons c s) in
      rw (truncate, fits) p

  Starts-init : (xs : Text) (c : ℕ) → xs ≢ [] → Starts P (xs ++ c ∷ []) → Starts P xs
  Starts-init [] c h p = absurd (h refl)
  Starts-init (x ∷ xs) c h p = p

  pub Starts-strip_end :
      (s : Text) → Starts P s → is_nil (strip_end s) ≡ false → Starts P (strip_end s)
  unfolding strip_end is_nil
  Starts-strip_end [] p h = absurd p
  Starts-strip_end (c ∷ s) p h = elim (Bool-cases (is_nil (strip_end s) && is_trailing c)) [
    | inl gone ↦ absurd (ground (arith, gone))
    | inr kept ↦ rw (strip_end, kept) p
  ]

boundary_after :
    (c : ℕ) (s : Text) (i : ℕ)
    → i ≡ length (utf8_char c) + len s
    → is_char_boundary s (len s) ≡ true
    → is_char_boundary (c ∷ s) i ≡ true
unfolding is_char_boundary
boundary_after c s zero e h = refl
boundary_after c s (suc i) e h =
    let fits : leb (length (utf8_char c)) (suc i) ≡ true = ground arith in
    let rest : suc i - length (utf8_char c) ≡ len s = omega (arith, e) in rw (fits, rest) h

boundary_at_len : (s : Text) → is_char_boundary s (len s) ≡ true
unfolding is_char_boundary len as_bytes
boundary_at_len [] = refl
boundary_at_len (c ∷ s) = boundary_after c s (len (c ∷ s)) (len-cons c s) (boundary_at_len s)

reverse-ne-nil : (c : ℕ) (s : Text) → reverse (c ∷ s) ≢ []
reverse-ne-nil c s e =
    omega (arith, ap length (sym (reverse-cons c s) ∙ e), length-append (reverse s) (c ∷ []))

len-nil : len [] ≡ 0
unfolding len as_bytes
len-nil = refl

more_than_one :
    (budget c : ℕ) (s : Text)
    → 4 ≤ budget
    → is_char_boundary (reverse (c ∷ s)) (min budget (len (reverse (c ∷ s)))) ≡ false
    → reverse s ≢ []
more_than_one budget c [] h inside e =
    let fits : min budget (len (c ∷ [])) ≡ len (c ∷ []) =
      omega (arith, width-bounds c, len-cons c [], len-nil) in
    absurd
      (cc (boundary_at_len (c ∷ []), subst (λ n. is_char_boundary (c ∷ []) n ≡ false) fits inside))
more_than_one budget c (d ∷ s) h inside e = reverse-ne-nil d s e

module _ (P : ℕ → Type 0) where
  -- Popping does not reach the first character, which fits.
  pub Starts-pop_loop :
      (budget : ℕ) (s : Text) → 4 ≤ budget → Starts P (reverse s) → Starts P (pop_loop budget s)
  unfolding pop_loop
  Starts-pop_loop budget [] h p = p
  Starts-pop_loop budget (c ∷ s) h p =
      let stem = reverse (c ∷ s) in
      elim (Bool-cases (is_char_boundary stem (min budget (len stem)))) [
        | inl here ↦ rw (pop_loop, here) p
        | inr inside ↦
            rw (pop_loop, inside)
              (Starts-pop_loop budget s h (
                Starts-init P (reverse s) c (more_than_one budget c s h inside)
                  (subst (Starts P) (reverse-cons c s) p)))
      ]

boundary_first :
    (c : ℕ) (s : Text) (i : ℕ) → i ≡ length (utf8_char c) → is_char_boundary (c ∷ s) i ≡ true
unfolding is_char_boundary
boundary_first c s zero e = refl
boundary_first c s (suc i) e =
    let fits : leb (length (utf8_char c)) (suc i) ≡ true = ground arith in
    let rest : suc i - length (utf8_char c) ≡ 0 = omega (arith, e) in rw (fits, rest) refl

-- The cut is behind the first character.
cut_loop-ge :
    (c : ℕ) (s : Text) (cut : ℕ)
    → length (utf8_char c) ≤ cut
    → length (utf8_char c) ≤ cut_loop (c ∷ s) cut
unfolding cut_loop
cut_loop-ge c s zero h = omega (arith, h, width-bounds c)
cut_loop-ge c s (suc cut) h = elim (Bool-cases (is_char_boundary (c ∷ s) (suc cut))) [
  | inl here ↦ rw (cut_loop, here) h
  | inr inside ↦
      rw (cut_loop, inside)
        (cut_loop-ge c s cut (ground (arith, h, inside, boundary_first c s (suc cut))))
]

pub Starts-truncate-cut_loop :
    (P : ℕ → Type 0) (s : Text) (cut : ℕ)
    → 4 ≤ cut
    → Starts P s
    → Starts P (truncate s (cut_loop s cut))
unfolding truncate
Starts-truncate-cut_loop P [] cut h p = absurd p
Starts-truncate-cut_loop P (c ∷ s) cut h p =
    let fits : leb (length (utf8_char c)) (cut_loop (c ∷ s) cut) ≡ true =
      ground (arith, cut_loop-ge c s cut (omega (arith, width-bounds c, h))) in
    rw (fits) p
