-- ===== src/State/Split.antt =====
-- `split_workers` of src/state.rs: the ranges of a fresh download.
use fast_downloader.Prelude.{
  ℕ, zero, suc, ◌+◌, ◌-◌, ◌*◌, ◌/◌, ◌≤◌, ◌<◌, ◌≡◌, ◌≢◌, inl, inr, refl, subst, some-injective, some,
  List, [], length, max, arith, ltb, ◌==◌, if◌then◌else◌, All, Bool-cases,
}
use fast_downloader.Prelude.Words.{u64_mod, add_u64, add_u64_exact, sub_u64}
use fast_downloader.Error.{ok}
use fast_downloader.Prelude.Text.{Text}
use fast_downloader.State.{
  WorkerRange, new, effective_threads, split_loop, split_workers, validate, sum_done,
  total_downloaded,
}
use fast_downloader.State.Partition.{Tiles}
use fast_downloader.State.Validity.{validate-IsValid}

pub length-split_loop :
    (rounds i effective chunk file_size pos : ℕ)
    → length (split_loop rounds i effective chunk file_size pos) ≡ rounds
unfolding split_loop
length-split_loop zero i effective chunk file_size pos = omega arith
length-split_loop (suc rounds) i effective chunk file_size pos = omega (
  arith,
  length-split_loop rounds (i + 1) effective chunk file_size
      (if i == effective - 1 then file_size else add_u64 pos chunk),
)

-- Round `i` starts at `i * chunk`, and the last round ends at the file's end.
split_loop-Tiles :
    (rounds i effective chunk file_size pos : ℕ)
    → i + suc rounds ≡ effective
    → pos + suc rounds * chunk ≤ file_size
    → file_size < u64_mod
    → Tiles pos file_size (split_loop (suc rounds) i effective chunk file_size pos)
unfolding split_loop add_u64
split_loop-Tiles zero i effective chunk file_size pos e fits bound = ground arith
split_loop-Tiles (suc rounds) i effective chunk file_size pos e fits bound = ground (
  arith,
  split_loop-Tiles rounds (i + 1) effective chunk file_size (pos + chunk),
  add_u64_exact pos chunk,
)

pub effective_threads_pos :
    (file_size thread_count min_chunk : ℕ) → 0 < effective_threads file_size thread_count min_chunk
unfolding effective_threads
effective_threads_pos file_size thread_count min_chunk = ground arith

pub effective_threads-le :
    (file_size thread_count min_chunk : ℕ)
    → effective_threads file_size thread_count min_chunk ≤ max thread_count 1
unfolding effective_threads
effective_threads-le file_size thread_count min_chunk = ground arith

-- The ranges tile the file, whatever number of threads is asked for.
split-Tiles :
    (effective file_size : ℕ)
    → 0 < effective
    → file_size < u64_mod
    → Tiles 0 file_size (split_loop effective 0 effective (file_size / effective) file_size 0)
split-Tiles zero file_size h bound = absurd (omega arith)
split-Tiles (suc e) file_size h bound =
    split_loop-Tiles e 0 (suc e) (file_size / suc e) file_size 0 (omega arith) (grind arith) bound

sum_done-split_loop :
    (rounds i effective chunk file_size pos : ℕ)
    → pos < u64_mod
    → file_size < u64_mod
    → sum_done (split_loop rounds i effective chunk file_size pos) ≡ 0
unfolding split_loop sum_done add_u64 sub_u64
sum_done-split_loop zero i effective chunk file_size pos p f = refl
sum_done-split_loop (suc rounds) i effective chunk file_size pos p f = ground (
  arith,
  sum_done-split_loop rounds (i + 1) effective chunk file_size
      (if i == effective - 1 then file_size else add_u64 pos chunk),
)

split_loop-ne-nil :
    (rounds i effective chunk file_size pos : ℕ)
    → 0 < rounds
    → split_loop rounds i effective chunk file_size pos ≢ []
unfolding split_loop
split_loop-ne-nil zero i effective chunk file_size pos h = absurd (omega arith)
split_loop-ne-nil (suc rounds) i effective chunk file_size pos h = ground arith

split_loop-fresh :
    (rounds i effective chunk file_size pos : ℕ)
    → All (λ w. w.current ≡ w.start) (split_loop rounds i effective chunk file_size pos)
unfolding split_loop
split_loop-fresh zero i effective chunk file_size pos = tt
split_loop-fresh (suc rounds) i effective chunk file_size pos =
    (refl, split_loop-fresh rounds _ effective chunk file_size _)

-- What a split that is made looks like.
pub split_workers-fresh :
    (file_size thread_count min_chunk : ℕ) (ws : List WorkerRange)
    → file_size < u64_mod
    → split_workers file_size thread_count min_chunk ≡ some ws
    → Tiles 0 file_size ws × All (λ w. w.current ≡ w.start) ws
unfolding split_workers
split_workers-fresh file_size thread_count min_chunk ws bound h =
    let n = effective_threads file_size thread_count min_chunk in
    let pos : 0 < n = effective_threads_pos file_size thread_count min_chunk in
    let fresh = split_loop n 0 n (file_size / n) file_size 0 in
    let same : fresh ≡ ws = elim (Bool-cases (ltb 0 file_size)) [
      | inl some_bytes ↦ some-injective (rw (some_bytes, split_workers) at h)
      | inr no_bytes ↦ absurd (ground (arith, no_bytes))
    ] in
    subst (λ x. Tiles 0 file_size x × All (λ w. w.current ≡ w.start) x) same
      (split-Tiles n file_size pos bound, split_loop-fresh n 0 n (file_size / n) file_size 0)

-- The split of a file of 1 to 2^64 - 1 bytes is made without a panic: it has from one range to as
-- many as threads were asked for (one for zero threads), nothing is downloaded yet, and the state
-- made of it passes `validate`.
pub split_workers-validate :
    (url : Text) (file_size thread_count min_chunk : ℕ)
    → 0 < file_size
    → file_size < u64_mod
    → (ws : List WorkerRange) × (split_workers file_size thread_count min_chunk ≡ some ws)
      × (validate (new url file_size ws) ≡ ok tt)
      × (0 < length ws)
      × (length ws ≤ max thread_count 1)
      × (total_downloaded (new url file_size ws) ≡ 0)
unfolding split_workers new total_downloaded
split_workers-validate url file_size thread_count min_chunk h bound =
    let n = effective_threads file_size thread_count min_chunk in
    let pos : 0 < n = effective_threads_pos file_size thread_count min_chunk in
    let ws = split_loop n 0 n (file_size / n) file_size 0 in
    let len : length ws ≡ n = length-split_loop n 0 n (file_size / n) file_size 0 in
    (
      ws,
      ground arith,
      (validate-IsValid (new url file_size ws)).1 (record {
        version = refl;
        some_workers = split_loop-ne-nil n 0 n (file_size / n) file_size 0 pos;
        tiles = split-Tiles n file_size pos bound;
      }),
      omega arith,
      omega (arith, effective_threads-le file_size thread_count min_chunk),
      sum_done-split_loop n 0 n (file_size / n) file_size 0 (omega arith) bound,
    )
