-- ===== src/Worker/Tests.antt =====
-- The theorems on the worker's loop at concrete servers.
use fast_downloader.Prelude.{
  ℕ, zero, suc, ◌+◌, ◌≡◌, refl, false, none, some, [], ◌∷◌, replicate, arith, All,
}
use fast_downloader.Prelude.Text.{codes}
use fast_downloader.Error.{Result, ok, err, http}
use fast_downloader.Config.{DownloaderConfig, default_config}
use fast_downloader.Worker.{Round, partial_content, worker_loop, download_segment}
use fast_downloader.Worker.Loop.{IsHonest}
use fast_downloader.Worker.Returns.{IsProductive, worker_loop-Returns, empty_replies-spin}

abbrev cfg : DownloaderConfig
cfg = default_config (codes "test")

abbrev content : ℕ → ℕ
content q = q + 65

-- A server that cannot be reached.
abbrev unreachable : Round
unreachable = record {
  is_cancelled = false;
  send = λ q. err (http (codes "connect"));
  cancelled_in_sleep = false;
}

unreachable-IsHonest : IsHonest content unreachable
unreachable-IsHonest = record { satisfiable = λ q resp e. cc; serves = λ q resp e. cc }

unreachable-IsProductive : IsProductive cfg 2 none unreachable
unfolding download_segment
unreachable-IsProductive = record { moves = λ p lt e. ground arith }

All-good :
    (n : ℕ) → All (λ r. IsHonest content r × IsProductive cfg 2 none r) (replicate n unreachable)
All-good zero = tt
All-good (suc n) = ((unreachable-IsHonest, unreachable-IsProductive), All-good n)

worker_loop-Returns_example :
    (x : Result (Unit {0})) × ((worker_loop cfg 2 none 0 0 (replicate 24 unreachable)).1 ≡ some x)
worker_loop-Returns_example =
    worker_loop-Returns cfg 2 none content 0 (replicate 24 unreachable) (omega arith) (omega arith)
      (All-good 24) (omega arith)

-- A server that answers every request with a partial response without content.
abbrev silent : Round
silent = record {
  is_cancelled = false;
  send = λ q.
      ok (record { status = partial_content; opened = ok tt; stream = []; last_flush = ok tt });
  cancelled_in_sleep = false;
}

empty_replies-spin_example : worker_loop cfg 2 none 0 0 (silent ∷ silent ∷ []) ≡ ([], none)
empty_replies-spin_example =
    empty_replies-spin cfg 2 none 0 0 (silent ∷ silent ∷ []) (omega arith) (
      record { not_cancelled = refl; replies = λ q. refl },
      (record { not_cancelled = refl; replies = λ q. refl }, tt),
    )
