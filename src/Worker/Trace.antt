-- ===== src/Worker/Trace.antt =====
-- What a worker of src/downloader.rs does to the shared data, against a resource whose bytes are
-- known: each chunk is written where it belongs, then named by `current`, then counted.
use fast_downloader.Prelude.{
  ℕ, zero, suc, ◌+◌, ◌≤◌, ◌<◌, ◌^◌, ◌≡◌, ◌⊎◌, inl, inr, refl, sym, subst, true, false, List, [],
  ◌∷◌, length, take, leb, ◌==◌, arith, Bool-cases, Option-cases, length-take, none,
}
use fast_downloader.Prelude.Words.{add_u64}
use fast_downloader.Error.{Result, ok, err, Result-cases}
use fast_downloader.Config.{DownloaderConfig}
use fast_downloader.Worker.{
  Effect, write_at, store_current, fetch_add, Arrival, Outcome, Rest, write_len, continue_at,
  after_write, carried_out, write_chunk, on_arrival, segment_loop,
}

-- The bytes are those of the resource from position `p` on.
abbrev pub Matches : (ℕ → ℕ) → ℕ → List ℕ → Type 0
Matches content p [] = Unit
Matches content p (b ∷ bs) = (b ≡ content p) × Matches content (suc p) bs

-- A `Vec` or slice has fewer than 2^63 bytes, in Rust.
abbrev pub max_slice : ℕ
max_slice = 2 ^ 63

-- The stream carries the resource from position `p` on, until it ends or fails; no write of its
-- bytes fails in the background.
abbrev pub Serves : (ℕ → ℕ) → ℕ → List Arrival → Type 0
Serves content p [] = Unit
Serves content p (a ∷ rest) =
    (a.background_failure ≡ none)
    × ((chunk : List ℕ)
        → a.chunk_result ≡ ok chunk
        → Matches content p chunk
          × (length chunk < max_slice)
          × Serves content (p + length chunk) rest)

-- The effects of a worker whose progress is `p`: chunks up to `end`, and writes that failed
-- halfway.
pub data Trace (content : ℕ → ℕ) (end : ℕ) : ℕ → List Effect → Type 0 where
  done : {p : ℕ} → Trace content end p []
  torn :
      {p : ℕ} {b : List ℕ} {es : List Effect}
      → Matches content p b
      → p + length b ≤ end
      → Trace content end p es
      → Trace content end p (write_at p b ∷ es)
  landed :
      {p q n : ℕ} {b : List ℕ} {es : List Effect}
      → Matches content p b
      → length b ≡ n
      → q ≡ p + n
      → q ≤ end
      → Trace content end q es
      → Trace content end p (write_at p b ∷ store_current q ∷ fetch_add n ∷ es)

Matches-take :
    (content : ℕ → ℕ) (p n : ℕ) (b : List ℕ) → Matches content p b → Matches content p (take n b)
Matches-take content p zero b m = tt
Matches-take content p (suc n) [] m = tt
Matches-take content p (suc n) (x ∷ b) m = (m.0, Matches-take content (suc p) n b m.1)

-- The cap at the worker's end, with no wrap of the sum.
write_len-bounds :
    (pos end len : ℕ)
    → pos ≤ end
    → end ≤ max_slice
    → len < max_slice
    → (write_len pos end len ≤ len)
      × (pos + write_len pos end len ≤ end)
      × ((write_len pos end len ≡ len) ⊎ (pos + write_len pos end len ≡ end))
unfolding write_len add_u64
write_len-bounds pos end len h e l = ground arith

-- Either the worker's range is finished at `q`, or the rest of the loop has a trace from there.
abbrev Resumes : (ℕ → ℕ) → ℕ → Rest → ℕ → Type 0
Resumes content end rest q = (q ≡ end) ⊎ ((b : ℕ) → Trace content end q (rest q b).0)

module _ (content : ℕ → ℕ) (cfg : DownloaderConfig) (end : ℕ) (last : Result (Unit {0})) where
  continue_at-Trace :
      (q b : ℕ) (rest : Rest)
      → Resumes content end rest q
      → Trace content end q (continue_at cfg end last q b rest).0
  unfolding continue_at
  continue_at-Trace q b rest h = elim (Bool-cases (leb end q)) [
    | inl stop ↦ rw (stop, continue_at) done
    | inr more ↦ rw (more, continue_at) (elim h [ inl e ↦ absurd (ground arith) | inr t ↦ t b ])
  ]

  after_write-Trace :
      (flush : Result (Unit {0})) (q b : ℕ) (rest : Rest)
      → Resumes content end rest q
      → Trace content end q (after_write cfg end last flush q b rest).0
  unfolding after_write
  after_write-Trace (err e) q b rest h = elim (Bool-cases (leb cfg.flush_interval_bytes b)) [
    | inl due ↦ rw (due, after_write) done
    | inr not_due ↦ rw (not_due, after_write) (continue_at-Trace q b rest h)
  ]
  after_write-Trace (ok _) q b rest h = elim (Bool-cases (leb cfg.flush_interval_bytes b)) [
    | inl due ↦ rw (due, after_write) (continue_at-Trace q 0 rest h)
    | inr not_due ↦ rw (not_due, after_write) (continue_at-Trace q b rest h)
  ]

  write_chunk-Trace :
      (a : Arrival) (chunk : List ℕ) (p b : ℕ) (rest : Rest)
      → a.background_failure ≡ none
      → p ≤ end
      → end ≤ max_slice
      → length chunk < max_slice
      → Matches content p chunk
      → (p + length chunk ≤ end → Resumes content end rest (p + length chunk))
      → Trace content end p (write_chunk cfg end last a chunk p b rest).0
  unfolding write_chunk carried_out
  write_chunk-Trace a chunk p b rest carried h e l m r =
      let n = write_len p end (length chunk) in
      let (le, fits, which) = write_len-bounds p end (length chunk) h e l in
      let len : length (take n chunk) ≡ n = omega (arith, length-take n chunk) in
      elim (Bool-cases (n == 0)) [
        | inl stop ↦ rw (stop, write_chunk) done
        | inr more ↦ elim (Option-cases a.write_failure) [
          | inl none_fails ↦
              rw (more, none_fails, carried, write_chunk)
                (landed (Matches-take content p n chunk m) len refl fits (
                  after_write-Trace a.flush_result (p + n) (b + n) rest (elim which [
                    | inl whole ↦
                        subst (λ k. Resumes content end rest (p + k)) (sym whole) (r (omega arith))
                    | inr full ↦ inl full
                  ])))
          | inr ((k, x), fails) ↦
              rw (more, fails, write_chunk)
                (torn (Matches-take content p k (take n chunk) (Matches-take content p n chunk m))
                  (omega (arith, length-take k (take n chunk))) done)
        ]
      ]

  on_chunk-Trace :
      (a : Arrival) (stream : List Arrival) (chunk : List ℕ) (p b : ℕ) (rest : Rest)
      → a.background_failure ≡ none
      → p ≤ end
      → end ≤ max_slice
      → (Matches content p chunk
          × (length chunk < max_slice)
          × Serves content (p + length chunk) stream)
      → ((q c : ℕ) → q ≤ end → Serves content q stream → Trace content end q (rest q c).0)
      → Trace content end p
          (elim (length chunk == 0) as (λ _. Outcome) [
            | true ↦ rest p b
            | false ↦ write_chunk cfg end last a chunk p b rest
          ]).0
  on_chunk-Trace a stream [] p b rest carried h e s k =
      k p b h (subst (λ q. Serves content q stream) (omega arith) s.2)
  on_chunk-Trace a stream (x ∷ chunk) p b rest carried h e s k =
      elim (Bool-cases (length (x ∷ chunk) == 0)) [
        | inl empty ↦ absurd (ground arith)
        | inr more ↦ rw more (
            write_chunk-Trace a (x ∷ chunk) p b rest carried h e s.1 s.0
              (λ fits. inr (λ c. k (p + length (x ∷ chunk)) c fits s.2)))
      ]

  on_arrival-Trace :
      (a : Arrival) (stream : List Arrival) (p b : ℕ) (rest : Rest)
      → p ≤ end
      → end ≤ max_slice
      → Serves content p (a ∷ stream)
      → ((q c : ℕ) → q ≤ end → Serves content q stream → Trace content end q (rest q c).0)
      → Trace content end p (on_arrival cfg end last a p b rest).0
  unfolding on_arrival
  on_arrival-Trace a stream p b rest h e s k = elim (Bool-cases a.is_cancelled) [
    | inl stop ↦ rw (stop, on_arrival) done
    | inr go ↦ elim (Result-cases a.chunk_result) [
      | inl (chunk, got) ↦
          rw (go, got, on_arrival)
            (on_chunk-Trace a stream chunk p b rest s.0 h e (s.1 chunk got) k)
      | inr (x, fails) ↦ rw (go, fails, on_arrival) done
    ]
  ]

  -- The loop over an honest stream writes the resource's bytes at their places, up to `end`.
  pub segment_loop-Trace :
      (stream : List Arrival) (p b : ℕ)
      → p ≤ end
      → end ≤ max_slice
      → Serves content p stream
      → Trace content end p (segment_loop cfg end last stream p b).0
  unfolding segment_loop
  segment_loop-Trace [] p b h e s = done
  segment_loop-Trace (a ∷ stream) p b h e s =
      on_arrival-Trace a stream p b (λ q c. segment_loop cfg end last stream q c) h e s
        (λ q c fits serves. segment_loop-Trace stream q c fits e serves)
