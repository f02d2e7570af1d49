-- ===== src/Filename/Safe.antt =====
-- What `sanitize` of src/filename.rs promises: a name that is safe as the last component of a path.
use mathlib.Core.List.{reverse, reverse-reverse}
use fast_downloader.Prelude.{
  ℕ, ◌-◌, ◌≤◌, ◌<◌, ◌≡◌, ◌≢◌, ◌⊎◌, inl, inr, refl, sym, ap, subst, ◌∙◌, false, ◌&&◌, ◌||◌, some, [],
  ◌∷◌, ◌++◌, map, min, arith, leb, ltb, ◌==◌, Bool-cases, Option-cases, All, All-map, All-reverse,
  some-injective,
}
use fast_downloader.Prelude.Text.{Text, codes, text_eq, as_bytes, utf8_char, drop_while}
use fast_downloader.Filename.{
  max_filename_len, fallback_filename, len, truncate, is_replaced, replace_char, is_leading, is_nil,
  strip_end, rfind_dot, pop_loop, cut_loop, shorten_stem, cut_off, shorten, strip, sanitize,
}
use fast_downloader.Filename.Length.{
  len-append, len-truncate, cut_loop-le, Starts, All-truncate, All-append, All-strip_end,
  All-drop_while, All-pop_loop, Starts-append, Starts-truncate-min, Starts-strip_end,
  Starts-pop_loop, Starts-truncate-cut_loop,
}

-- No separator, no NUL nor another character below U+0020, none of those that Windows reserves.
abbrev pub IsHarmless : ℕ → Type 0
IsHarmless c = (0x20 ≤ c) × All (λ bad. c ≢ bad) (codes "/\\<>:\"|?*")

-- What the code does not replace.
abbrev IsPlain : ℕ → Type 0
IsPlain c = is_replaced c ≡ false

-- Not a dot, nor a space or `_`.
abbrev IsFirst : ℕ → Type 0
IsFirst c = is_leading c ≡ false

-- A file name that names a file in the directory it is joined to, and nothing else.
pub record IsSafeName (s : Text) : Type 0 where
  pub harmless : All IsHarmless s
  pub not_empty : s ≢ []
  pub not_dot : s ≢ codes "."
  pub not_dot_dot : s ≢ codes ".."
  pub short : len s ≤ max_filename_len

not_replaced-IsHarmless : (c : ℕ) → IsPlain c → IsHarmless c
unfolding is_replaced
not_replaced-IsHarmless c h = (
  ground (arith, h),
  (
    (λ e. ground (arith, h, e)),
    (
      (λ e. ground (arith, h, e)),
      (
        (λ e. ground (arith, h, e)),
        (
          (λ e. ground (arith, h, e)),
          (
            (λ e. ground (arith, h, e)),
            (
              (λ e. ground (arith, h, e)),
              (
                (λ e. ground (arith, h, e)),
                ((λ e. ground (arith, h, e)), ((λ e. ground (arith, h, e)), tt)),
              ),
            ),
          ),
        ),
      ),
    ),
  ),
)

replaced-IsPlain : (c : ℕ) → IsPlain (replace_char c)
unfolding replace_char is_replaced
replaced-IsPlain c = elim (Bool-cases (is_replaced c)) [
  | inl bad ↦ rw (replace_char, bad) refl
  | inr good ↦ rw (replace_char, good) good
]

map-IsPlain : (name : Text) → All IsPlain (map replace_char name)
map-IsPlain [] = tt
map-IsPlain (c ∷ name) = (replaced-IsPlain c, map-IsPlain name)

drop_while-IsFirst :
    (s : Text) → (drop_while is_leading s ≡ []) ⊎ Starts IsFirst (drop_while is_leading s)
unfolding drop_while
drop_while-IsFirst [] = inl refl
drop_while-IsFirst (c ∷ s) = elim (Bool-cases (is_leading c)) [
  | inl leading ↦ rw (leading) (drop_while-IsFirst s)
  | inr first ↦ rw (first) (inr first)
]

strip-IsPlain : (name : Text) → All IsPlain (strip name)
unfolding strip
strip-IsPlain name =
    All-strip_end IsPlain _
      (All-drop_while IsPlain is_leading (map replace_char name) (map-IsPlain name))

strip-Starts : (name : Text) → is_nil (strip name) ≡ false → Starts IsFirst (strip name)
unfolding strip is_nil strip_end
strip-Starts name h = elim (drop_while-IsFirst (map replace_char name)) [
  | inl nothing ↦ absurd (cc (rw (nothing, strip) at h))
  | inr first ↦ Starts-strip_end IsFirst (drop_while is_leading (map replace_char name)) first h
]

rfind_dot-splits : (s a b : Text) → rfind_dot s ≡ some (a, b) → a ++ b ≡ s
unfolding rfind_dot
rfind_dot-splits [] a b h = absurd (cc)
rfind_dot-splits (c ∷ s) a b h = elim (Option-cases (rfind_dot s)) [
  | inr ((a', b'), e) ↦
      let same : (c ∷ a', b') ≡ (a, b) = some-injective (rw (rfind_dot, e) at h) in
      sym (ap (λ (p : Text × Text). p.0 ++ p.1) same) ∙ ap (λ z. c ∷ z) (rfind_dot-splits s a' b' e)
  | inl e ↦ elim (Bool-cases (c == b'.')) [
    | inl dot ↦
        let same : ([], c ∷ s) ≡ (a, b) = some-injective (rw (rfind_dot, e, dot) at h) in
        sym (ap (λ (p : Text × Text). p.0 ++ p.1) same)
    | inr other ↦ absurd (cc (rw (rfind_dot, e, other) at h))
  ]
]

All-halves : (a b : Text) → All IsPlain (a ++ b) → All IsPlain a × All IsPlain b
All-halves [] b h = (tt, h)
All-halves (c ∷ a) b h = let (x, y) = All-halves a b h.1 in ((h.0, x), y)

Starts-front : (a b : Text) → 0 < len a → Starts IsFirst (a ++ b) → Starts IsFirst a
unfolding len as_bytes
Starts-front [] b h p = absurd (omega arith)
Starts-front (c ∷ a) b h p = p

-- Shortening keeps what is good about a name, and makes it short.
abbrev IsGoodName : Text → Type 0
IsGoodName s = All IsPlain s × Starts IsFirst s × (len s ≤ max_filename_len)

cut_off-IsGoodName :
    (s : Text)
    → All IsPlain s
    → Starts IsFirst s
    → max_filename_len < len s
    → IsGoodName (cut_off s)
unfolding cut_off
cut_off-IsGoodName s plain first long = (
  All-truncate IsPlain s (cut_loop s max_filename_len) plain,
  Starts-truncate-cut_loop IsFirst s max_filename_len (omega arith) first,
  omega (arith, len-truncate s (cut_loop s max_filename_len), cut_loop-le s max_filename_len),
)

shorten_stem-IsGoodName :
    (stem ext : Text)
    → All IsPlain stem
    → All IsPlain ext
    → Starts IsFirst stem
    → len ext ≤ 16
    → IsGoodName (shorten_stem stem ext)
unfolding shorten_stem
shorten_stem-IsGoodName stem ext p q first e =
    let budget = max_filename_len - len ext in
    let popped = pop_loop budget (reverse stem) in
    let n = min budget (len popped) in
    let starts : Starts IsFirst popped =
      Starts-pop_loop IsFirst budget (reverse stem) (omega (arith, e))
        (subst (Starts IsFirst) (sym (reverse-reverse stem)) first) in
    (
      All-append IsPlain (truncate popped n) ext
          (All-truncate IsPlain popped n
            (All-pop_loop IsPlain budget (reverse stem) (All-reverse IsPlain stem p)))
          q,
      Starts-append IsFirst (truncate popped n) ext
          (Starts-truncate-min IsFirst popped budget (omega (arith, e)) starts),
      omega (arith, e, len-append (truncate popped n) ext, len-truncate popped n),
    )

shorten-IsGoodName :
    (s : Text)
    → All IsPlain s
    → Starts IsFirst s
    → max_filename_len < len s
    → IsGoodName (shorten s)
unfolding shorten
shorten-IsGoodName s plain first long = elim (Option-cases (rfind_dot s)) [
  | inl no_dot ↦ rw (shorten, no_dot) (cut_off-IsGoodName s plain first long)
  | inr ((stem, ext), d) ↦ elim (Bool-cases (leb (len ext) 16 && ltb 0 (len stem))) [
    | inr no_ext ↦ rw (shorten, d, no_ext) (cut_off-IsGoodName s plain first long)
    | inl has_ext ↦
        let whole = rfind_dot-splits s stem ext d in
        let (p, q) = All-halves stem ext (subst (All IsPlain) (sym whole) plain) in
        rw (shorten, d, has_ext)
          (shorten_stem-IsGoodName stem ext p q
            (Starts-front stem ext (ground arith) (subst (Starts IsFirst) (sym whole) first))
            (ground arith))
  ]
]

get_first : Text → ℕ
get_first [] = 0
get_first (c ∷ s) = c

first_ne_dot : (c : ℕ) (s t : Text) → is_leading c ≡ false → c ∷ s ≡ b'.' ∷ t → ⊥
unfolding is_leading get_first
first_ne_dot c s t first e = let dot : c ≡ b'.' = ap get_first e in ground (arith, first, dot)

IsGoodName-IsSafeName : (s : Text) → IsGoodName s → IsSafeName s
unfolding is_leading
IsGoodName-IsSafeName [] (plain, first, short) = absurd first
IsGoodName-IsSafeName (c ∷ s) (plain, first, short) = record {
  harmless = All-map (c ∷ s) not_replaced-IsHarmless plain;
  not_empty = λ e. cc;
  not_dot = λ e. absurd (first_ne_dot c s [] first e);
  not_dot_dot = λ e. absurd (first_ne_dot c s (codes ".") first e);
  short = short;
}

fallback-IsPlain : All IsPlain fallback_filename
unfolding is_replaced
fallback-IsPlain = (
  refl,
  (refl, (refl, (refl, (refl, (refl, (refl, (refl, (refl, (refl, (refl, (refl, tt))))))))))),
)

fallback-IsSafeName : IsSafeName fallback_filename
unfolding is_replaced len as_bytes utf8_char
fallback-IsSafeName = record {
  harmless = All-map fallback_filename not_replaced-IsHarmless fallback-IsPlain;
  not_empty = λ e. cc;
  not_dot = λ e. cc;
  not_dot_dot = λ e. cc;
  short = omega arith;
}

-- Whatever name a server sends, the sanitized name is safe as one component of a path: it is not
-- empty, nor `.` or `..`, has no separator, no character below U+0020 and none of `<>:"|?*`, which
-- Windows reserves, and has at most 200 bytes.
pub sanitize-IsSafeName : (name : Text) → IsSafeName (sanitize name)
unfolding sanitize
sanitize-IsSafeName name =
    let s = strip name in
    elim (Bool-cases (is_nil s || text_eq s (codes ".") || text_eq s (codes ".."))) [
      | inl useless ↦ rw (sanitize, useless) fallback-IsSafeName
      | inr useful ↦
          let first = strip-Starts name (ground arith) in
          elim (Bool-cases (ltb max_filename_len (len s))) [
            | inl long ↦
                rw (sanitize, useful, long)
                  (IsGoodName-IsSafeName (shorten s)
                    (shorten-IsGoodName s (strip-IsPlain name) first (ground arith)))
            | inr fits ↦
                rw (sanitize, useful, fits)
                  (IsGoodName-IsSafeName s (strip-IsPlain name, first, ground arith))
          ]
    ]
