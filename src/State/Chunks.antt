-- ===== src/State/Chunks.antt =====
-- How large the ranges of `split_workers` (src/state.rs) are, against its `min_chunk`.
use native.Mathlib.Nat.{
  mul-div-le, mul-le-mul_left, mul-le-mul_right, le-div_iff_mul-le, div-lt_iff_lt-mul,
  lt-mul-div-succ,
}
use native.Mathlib.Decide.{dec_lt}
use fast_downloader.Prelude.{
  ℕ, zero, suc, ◌+◌, ◌-◌, ◌*◌, ◌/◌, ◌%◌, ◌≤◌, ◌<◌, ◌≡◌, some, List, ◌∷◌, length, arith, All,
  All-map,
}
use fast_downloader.Prelude.Words.{u64_mod, add_u64, add_u64_exact}
use fast_downloader.State.{WorkerRange, div_ceil, effective_threads, split_loop, split_workers}
use fast_downloader.State.Split.{effective_threads_pos, length-split_loop}

-- The length of a range.
pub size : WorkerRange → ℕ
size w = w.end - w.start

-- The remainder of the division goes to the last range.
split_loop-sizes :
    (rounds i effective chunk file_size pos : ℕ)
    → i + rounds ≡ effective
    → pos + rounds * chunk ≤ file_size
    → file_size < pos + rounds * chunk + effective
    → file_size < u64_mod
    → All
        (λ w. (chunk ≤ size w) × (size w < chunk + effective))
        (split_loop rounds i effective chunk file_size pos)
unfolding split_loop add_u64 size
split_loop-sizes zero i effective chunk file_size pos e lo hi bound = tt
split_loop-sizes (suc zero) i effective chunk file_size pos e lo hi bound = ground arith
split_loop-sizes (suc (suc rounds)) i effective chunk file_size pos e lo hi bound = ground (
  arith,
  split_loop-sizes (suc rounds) (i + 1) effective chunk file_size (pos + chunk),
  add_u64_exact pos chunk,
)

pub length-split_workers :
    (fs tc mc : ℕ) {ws : List WorkerRange}
    → split_workers fs tc mc ≡ some ws
    → length ws ≡ effective_threads fs tc mc
unfolding split_workers
length-split_workers fs tc mc {ws} h =
    let n = effective_threads fs tc mc in
    let e : split_loop n 0 n (fs / n) fs 0 ≡ ws = ground arith in
    rw (← e) (length-split_loop n 0 n (fs / n) fs 0)

-- All ranges of a split of less than 2^64 bytes have the same length up to less than the number of
-- ranges: each is at least the file's size divided by that number.
pub split_workers-even :
    (file_size thread_count min_chunk : ℕ) {ws : List WorkerRange}
    → split_workers file_size thread_count min_chunk ≡ some ws
    → file_size < u64_mod
    → All (λ w. (file_size / length ws ≤ size w) × (size w < file_size / length ws + length ws)) ws
unfolding split_workers
split_workers-even file_size thread_count min_chunk {ws} h bound =
    let n = effective_threads file_size thread_count min_chunk in
    let e : split_loop n 0 n (file_size / n) file_size 0 ≡ ws = ground arith in
    rw (length-split_workers file_size thread_count min_chunk h) (
      rw (← e) (
        split_loop-sizes n 0 n (file_size / n) file_size 0 (omega arith) (grind (arith))
          (grind (arith, effective_threads_pos)) bound))

-- `fs < (fs / n + 1) * n`, the other bound of a division.
lt-suc_div : (fs n : ℕ) → 0 < n → fs < (fs / n + 1) * n
lt-suc_div fs n h = grind arith

one_chunk : (fs mc : ℕ) → 0 < mc → mc ≤ fs → 1 ≤ fs / mc
one_chunk fs mc m h = (le-div_iff_mul-le m).1 (omega arith)

-- With `q` whole chunks in the file and at most `q + 1` ranges, a range has at least half a chunk.
half_chunk : (fs mc n : ℕ) → 0 < mc → mc ≤ fs → 0 < n → n ≤ fs / mc + 1 → mc < 2 * (fs / n + 1)
half_chunk fs mc n m h pos n-le = elim (dec_lt mc (2 * (fs / n + 1))) [
  | yes p ↦ p
  | no p ↦ absurd (
      omega (
        arith,
        lt-suc_div fs n pos,
        mul-div-le fs mc,
        mul-le-mul_left (fs / n + 1) n-le,
        mul-le-mul_right {m = 2 * (fs / n + 1)} {n = mc} (fs / mc + 1) (omega arith),
        mul-le-mul_right {m = 1} {n = fs / mc} mc (one_chunk fs mc m h),
      ))
]

effective_threads-le-chunks : (fs tc mc : ℕ) → 0 < mc → effective_threads fs tc mc ≤ fs / mc + 1
unfolding effective_threads div_ceil
effective_threads-le-chunks fs tc mc m = ground arith

-- With `ceil(fs / mc)` ranges and a size that `mc` does not divide, a range has less than a chunk.
short_chunk : (fs mc : ℕ) → 0 < mc → fs / (fs / mc + 1) < mc
short_chunk fs mc m = (div-lt_iff_lt-mul (omega arith)).1 (lt-mul-div-succ fs m)

-- A file of at least `min_chunk` bytes, which is not 0, and of less than 2^64, is split into ranges
-- of more than half of `min_chunk`, less a byte.
pub split_workers-half_min_chunk :
    (file_size thread_count min_chunk : ℕ) {ws : List WorkerRange}
    → split_workers file_size thread_count min_chunk ≡ some ws
    → 0 < min_chunk
    → min_chunk ≤ file_size
    → file_size < u64_mod
    → All (λ w. min_chunk < 2 * (size w + 1)) ws
split_workers-half_min_chunk fs tc mc {ws} h m le bound =
    let len = length-split_workers fs tc mc h in
    All-map ws
      (λ w p. omega (
        arith,
        p.0,
        half_chunk fs mc (length ws) m le (omega (arith, effective_threads_pos fs tc mc))
            (omega (arith, effective_threads-le-chunks fs tc mc m)),
      ))
      (split_workers-even fs tc mc h bound)

effective_threads-short :
    (fs tc mc : ℕ) → 0 < mc → 0 < fs % mc → fs / mc < tc → effective_threads fs tc mc ≡ fs / mc + 1
unfolding effective_threads div_ceil
effective_threads-short fs tc mc m r t = ground arith

split_loop-first :
    (n c fs : ℕ)
    → 1 < n
    → c < u64_mod
    → (rest : List WorkerRange) × (split_loop n 0 n c fs 0
        ≡ record { start = 0; current = 0; end = c } ∷ rest)
      × (0 < length rest)
unfolding split_loop add_u64
split_loop-first zero c fs h b = absurd (omega arith)
split_loop-first (suc zero) c fs h b = absurd (omega arith)
split_loop-first (suc (suc n)) c fs h b =
    (split_loop (suc n) 1 (suc (suc n)) c fs c, ground arith, ground arith)

-- When a `min_chunk` other than 0 does not divide a larger file of less than 2^64 bytes and enough
-- threads are asked for, the first range is shorter than `min_chunk`, although others follow it.
pub split_workers-short :
    (file_size thread_count min_chunk : ℕ)
    → 0 < min_chunk
    → min_chunk < file_size
    → file_size < u64_mod
    → 0 < file_size % min_chunk
    → file_size / min_chunk < thread_count
    → (w : WorkerRange) × (ws : List WorkerRange) × (split_workers file_size thread_count min_chunk
        ≡ some (w ∷ ws))
      × (0 < length ws)
      × (size w < min_chunk)
unfolding split_workers size
split_workers-short fs tc mc m lt bound r t =
    let n = effective_threads fs tc mc in
    let e : n ≡ fs / mc + 1 = effective_threads-short fs tc mc m r t in
    let (rest, is_first, others) =
      split_loop-first n (fs / n) fs (omega (arith, one_chunk fs mc m (omega arith)))
        (grind arith) in
    (
      record { start = 0; current = 0; end = fs / n },
      rest,
      ground (arith, is_first),
      others,
      rw e (omega (arith, short_chunk fs mc m)),
    )
