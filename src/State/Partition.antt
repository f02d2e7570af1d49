-- ===== src/State/Partition.antt =====
-- What a list of worker ranges should be, written without the code of src/state.rs: the ranges lie
-- end to end over an interval of byte positions.
use fast_downloader.Prelude.{
  ℕ, ◌+◌, ◌≤◌, ◌<◌, ◌≡◌, ◌&&◌, List, [], ◌∷◌, arith, ltb, leb, if◌then◌else◌,
}
use fast_downloader.Prelude.Words.{u64_mod, add_u64, sub_u64}
use fast_downloader.State.{WorkerRange, remaining, sum_done}

-- The ranges run from `lo` to `hi` with no gap and no overlap, each with its progress inside it.
abbrev pub Tiles : ℕ → ℕ → List WorkerRange → Type 0
Tiles lo hi [] = lo ≡ hi
Tiles lo hi (w ∷ ws) =
    (w.start ≡ lo) × (w.start ≤ w.current) × (w.current ≤ w.end) × Tiles w.end hi ws

-- How many ranges hold the byte position `b`.
pub owners : ℕ → List WorkerRange → ℕ
owners b [] = 0
owners b (w ∷ ws) = (if leb w.start b && ltb b w.end then 1 else 0) + owners b ws

pub sum_remaining : List WorkerRange → ℕ
unfolding remaining
sum_remaining [] = 0
sum_remaining (w ∷ ws) = remaining w + sum_remaining ws

pub Tiles-le : (lo hi : ℕ) (ws : List WorkerRange) → Tiles lo hi ws → lo ≤ hi
Tiles-le lo hi [] t = omega arith
Tiles-le lo hi (w ∷ ws) t = omega (arith, Tiles-le w.end hi ws t.3)

pub owners-Tiles :
    (lo hi : ℕ) (ws : List WorkerRange) (b : ℕ)
    → Tiles lo hi ws
    → owners b ws ≡ (if leb lo b && ltb b hi then 1 else 0)
unfolding owners
owners-Tiles lo hi [] b t = ground arith
owners-Tiles lo hi (w ∷ ws) b t =
    ground (arith, owners-Tiles w.end hi ws b t.3, Tiles-le w.end hi ws t.3)

-- What is done and what remains make up the whole interval, and the sum does not wrap.
pub sum_done-sum_remaining :
    (lo hi : ℕ) (ws : List WorkerRange)
    → Tiles lo hi ws
    → hi < u64_mod
    → lo + (sum_done ws + sum_remaining ws) ≡ hi
unfolding sum_done sum_remaining add_u64 sub_u64
sum_done-sum_remaining lo hi [] t h = omega arith
sum_done-sum_remaining lo hi (w ∷ ws) t h =
    omega (arith, sum_done-sum_remaining w.end hi ws t.3 h, Tiles-le w.end hi ws t.3)
