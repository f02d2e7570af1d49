-- ===== src/Progress/Tests.antt =====
-- Samples of a meter with a window of two seconds.
use fast_downloader.Prelude.{ℕ, ◌/◌, ◌≡◌, refl, some, none, List, [], ◌∷◌, ◌++◌, arith}
use fast_downloader.Progress.{new_meter, record_sample, record_all}
use fast_downloader.Progress.Reports.{progress_task, Reports, progress_task-Reports}
use fast_downloader.Download.{DownloadEvent, progress}

abbrev moments : List (ℕ × ℕ)
moments = (1, 500) ∷ (5, 900) ∷ []

drops_old : (record_all (new_meter 2) ((0, 0) ∷ moments)).samples ≡ (5, 900) ∷ []
unfolding record_all new_meter
drops_old = refl

-- Bytes a second, where the elapsed time is not 0.
abbrev rate : ℕ → ℕ → ℕ → ℕ
rate bytes elapsed window = bytes / elapsed

abbrev ticks : List (ℕ × ℕ)
ticks = (0, 0) ∷ (1, 500) ∷ []

abbrev observed : List DownloadEvent
observed = (progress_task rate 7 (some 1000) 9 ticks (5, 900)).0

-- With the mean speed since the first sample.
last_event_shown :
    observed
    ≡ progress 7 0 (some 1000) 0 none
      ∷ progress 7 500 (some 1000) 500 (some 1)
      ∷ progress 7 900 (some 1000) 180 (some 0)
      ∷ []
unfolding progress_task new_meter record_sample
last_event_shown = refl

progress_task-Reports_example : Reports rate 7 (some 1000) 9 [] (ticks ++ (5, 900) ∷ []) observed
progress_task-Reports_example =
    progress_task-Reports rate 7 (some 1000) 9 ticks 5 900
      (omega arith, (omega arith, (omega arith, tt)))
