-- ===== src/Single/Prefix.antt =====
-- The loop over the stream of `single_thread_attempt` of src/downloader.rs: from a beginning of the
-- resource it makes a longer one, however it ends.
use mathlib.Core.List.{append-nil, append_assoc}
use fast_downloader.Prelude.{
  ℕ, zero, suc, ◌+◌, ◌-◌, ◌≤◌, ◌≡◌, ◌⊎◌, inl, inr, refl, sym, subst, ap, ◌∙◌, true, Option, none,
  some, List, [], ◌∷◌, ◌++◌, length, take, drop, length-append, min, arith, leb, ◌==◌,
  if◌then◌else◌, Bool-cases, Option-cases,
}
use fast_downloader.Error.{ok, Result-cases}
use fast_downloader.Config.{DownloaderConfig}
use fast_downloader.Single.{
  Piece, write_bytes, bounded_len, Rest, flush_due, append_chunk, on_piece, stream_loop,
}

module _ {ℓ} {A : Type ℓ} where
  take-length : (xs : List A) → take (length xs) xs ≡ xs
  take-length [] = refl
  take-length (x ∷ xs) = ap (λ ys. x ∷ ys) (take-length xs)

  take-past : (n : ℕ) (xs : List A) → length xs ≤ n → take n xs ≡ xs
  take-past zero [] h = refl
  take-past (suc n) [] h = refl
  take-past zero (x ∷ xs) h = absurd (omega arith)
  take-past (suc n) (x ∷ xs) h = ap (λ ys. x ∷ ys) (take-past n xs (omega arith))

  drop-past : (n : ℕ) (xs : List A) → length xs ≤ n → drop n xs ≡ []
  drop-past zero [] h = refl
  drop-past (suc n) [] h = refl
  drop-past zero (x ∷ xs) h = absurd (omega arith)
  drop-past (suc n) (x ∷ xs) h = drop-past n xs (omega arith)

  take-drop : (n : ℕ) (xs : List A) → take n xs ++ drop n xs ≡ xs
  take-drop zero xs = refl
  take-drop (suc n) [] = refl
  take-drop (suc n) (x ∷ xs) = ap (λ ys. x ∷ ys) (take-drop n xs)

-- At the end of the file a write appends.
write_bytes-end : (file bs : List ℕ) → write_bytes file (length file) bs ≡ file ++ bs
unfolding write_bytes
write_bytes-end file bs =
    let none_between : length file - length file ≡ 0 = omega arith in
    rw
      (
        take-length file,
        none_between,
        drop-past (length file + length bs) file (omega arith),
        append-nil bs,
      )
      refl

-- The file is a beginning of the resource.
abbrev pub IsPrefix : List ℕ → List ℕ → Type 0
IsPrefix resource file = (rest : List ℕ) × (file ++ rest ≡ resource)

-- The chunks are, one after the other, what follows in the resource; the stream may stop anywhere.
abbrev pub Delivers : List ℕ → List Piece → Type 0
Delivers rest [] = Unit
Delivers rest (a ∷ pieces) =
    (chunk : List ℕ)
    → a.chunk_result ≡ ok chunk
    → (more : List ℕ) × (chunk ++ more ≡ rest) × Delivers more pieces

-- No total, or the right one.
abbrev pub IsTotal : List ℕ → Option ℕ → Type 0
IsTotal resource total = (total ≡ none) ⊎ (total ≡ some (length resource))

bounded_len-whole :
    (total : Option ℕ) (resource file chunk more : List ℕ)
    → IsTotal resource total
    → file ++ (chunk ++ more) ≡ resource
    → (bounded_len total (length file) (length chunk) ≡ none)
      ⊎ (bounded_len total (length file) (length chunk) ≡ some (length chunk))
unfolding bounded_len
bounded_len-whole total resource file chunk more (inl e) h = inr (rw e refl)
bounded_len-whole total resource file chunk more (inr e) h =
    let n : length file + (length chunk + length more) ≡ length resource =
      omega (arith, length-append file (chunk ++ more), length-append chunk more, ap length h) in
    elim (Bool-cases (leb (length resource) (length file))) [
      | inl full ↦ inl (rw (e, full) refl)
      | inr room ↦
          let fits : min (length resource - length file) (length chunk) ≡ length chunk =
            omega (arith, n) in
          inr (rw (e, room, fits) refl)
    ]

empty_chunk : (chunk : List ℕ) → (length chunk == 0) ≡ true → chunk ≡ []
empty_chunk [] h = refl
empty_chunk (x ∷ xs) h = absurd (ground arith)

module _ (cfg : DownloaderConfig) (total : Option ℕ) (resource : List ℕ) where
  flush_due-keeps :
      (a : Piece) (file : List ℕ) (pos b : ℕ) (rest : Rest)
      → IsPrefix resource file
      → ((b' : ℕ) → IsPrefix resource (rest file pos b').0)
      → IsPrefix resource (flush_due cfg total a file pos b rest).0
  unfolding flush_due
  flush_due-keeps a file pos b rest p k = elim (Bool-cases (leb cfg.flush_interval_bytes b)) [
    | inr early ↦ rw (flush_due, early) (k b)
    | inl due ↦ elim (Result-cases a.flush_result) [
      | inr (e, f) ↦ rw (flush_due, due, f) p
      | inl (u, f) ↦ elim (Result-cases (if cfg.durable_resume then a.sync_result else ok tt)) [
        | inr (e, y) ↦ rw (flush_due, due, f, y) p
        | inl (v, y) ↦ rw (flush_due, due, f, y) (k 0)
      ]
    ]
  ]

  append_chunk-keeps :
      (a : Piece) (chunk file more : List ℕ) (b : ℕ) (rest : Rest)
      → IsTotal resource total
      → file ++ (chunk ++ more) ≡ resource
      → ((b' : ℕ) → IsPrefix resource (rest (file ++ chunk) (length (file ++ chunk)) b').0)
      → IsPrefix resource (append_chunk cfg total a chunk file (length file) b rest).0
  unfolding append_chunk
  append_chunk-keeps a chunk file more b rest t h k =
      elim (bounded_len-whole total resource file chunk more t h) [
        | inl stop ↦ rw (append_chunk, stop) (chunk ++ more, h)
        | inr all ↦ elim (Option-cases a.write_failure) [
          | inr ((n, e), w) ↦
              rw (append_chunk, all, w, take-length chunk, write_bytes-end file (take n chunk))
                (
                  drop n chunk ++ more,
                  append_assoc file (take n chunk) (drop n chunk ++ more)
                      ∙ ap (λ z. file ++ z)
                          (sym (append_assoc (take n chunk) (drop n chunk) more)
                            ∙ ap (λ z. z ++ more) (take-drop n chunk))
                      ∙ h,
                )
          | inl w ↦
              rw (append_chunk, all, w, take-length chunk, write_bytes-end file chunk)
                (flush_due-keeps a (file ++ chunk) (length file + length chunk) (b + length chunk)
                  rest (more, append_assoc file chunk more ∙ h)
                  (λ b'.
                    subst (λ n. IsPrefix resource (rest (file ++ chunk) n b').0)
                      (length-append file chunk) (k b')))
        ]
      ]

  -- The file stays a beginning of the resource, whatever else the loop meets.
  pub stream_loop-IsPrefix :
      (pieces : List Piece) (file more : List ℕ) (b : ℕ)
      → IsTotal resource total
      → Delivers more pieces
      → file ++ more ≡ resource
      → IsPrefix resource (stream_loop cfg total pieces file (length file) b).0
  unfolding stream_loop on_piece
  stream_loop-IsPrefix [] file more b t d h = (more, h)
  stream_loop-IsPrefix (a ∷ pieces) file more b t d h = elim (Bool-cases a.is_cancelled) [
    | inl stop ↦ rw (on_piece, stop) (more, h)
    | inr go_on ↦ elim (Result-cases a.chunk_result) [
      | inr (e, c) ↦ rw (on_piece, go_on, c) (more, h)
      | inl (chunk, c) ↦
          let (left, same, later) = d chunk c in
          let whole : file ++ (chunk ++ left) ≡ resource = ap (λ z. file ++ z) same ∙ h in
          elim (Bool-cases (length chunk == 0)) [
            | inl empty ↦
                rw (on_piece, go_on, c, empty)
                  (stream_loop-IsPrefix pieces file left b t later
                    (ap (λ z. file ++ (z ++ left)) (sym (empty_chunk chunk empty)) ∙ whole))
            | inr some_bytes ↦
                rw (on_piece, go_on, c, some_bytes)
                  (append_chunk-keeps a chunk file left b
                    (λ f p n. stream_loop cfg total pieces f p n) t whole
                    (λ n.
                      stream_loop-IsPrefix pieces (file ++ chunk) left n t later
                        (append_assoc file chunk left ∙ whole)))
          ]
    ]
  ]
