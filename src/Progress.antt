-- ===== src/Progress.antt =====
-- `SpeedMeter` of src/progress.rs: the samples that it keeps. An `Instant` and a `Duration` are
-- nanoseconds. `speed_bps` is in Progress/Reports.antt.
pub mod Window
pub mod Kept
pub mod Reports
mod Tests
use fast_downloader.Prelude.{ℕ, ◌-◌, List, [], ◌∷◌, ◌++◌, length, ltb, if◌then◌else◌}

pub record SpeedMeter : Type 0 where
  pub window : ℕ
  pub samples : List (ℕ × ℕ)
  pub capacity : ℕ

pub new_meter : ℕ → SpeedMeter
new_meter window = record { window = window; samples = []; capacity = 1024 }

-- The first loop: `duration_since` is zero for a later instant, as subtraction on ℕ.
pub drop_old : ℕ → ℕ → List (ℕ × ℕ) → List (ℕ × ℕ)
drop_old window now [] = []
drop_old window now ((t, b) ∷ samples) =
    let rest = drop_old window now samples in
    if ltb window (now - t) then rest else (t, b) ∷ samples

-- The second loop.
pub drop_excess : ℕ → List (ℕ × ℕ) → List (ℕ × ℕ)
drop_excess capacity [] = []
drop_excess capacity (s ∷ samples) =
    let rest = drop_excess capacity samples in
    if ltb capacity (length (s ∷ samples)) then rest else s ∷ samples

pub record_sample : SpeedMeter → ℕ → ℕ → SpeedMeter
unfolding drop_old drop_excess
record_sample m now cumulative_bytes = record m {
  samples =
      drop_excess m.capacity (drop_old m.window now m.samples ++ (now, cumulative_bytes) ∷ []);
}

-- `record` at each of the moments in turn.
pub record_all : SpeedMeter → List (ℕ × ℕ) → SpeedMeter
unfolding record_sample
record_all m [] = m
record_all m ((now, b) ∷ more) = record_all (record_sample m now b) more
