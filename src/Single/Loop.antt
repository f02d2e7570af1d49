-- ===== src/Single/Loop.antt =====
-- The loop of `single_thread` of src/downloader.rs: attempts, with a delay between them, until
-- one succeeds or too many have failed.
use fast_downloader.Prelude.{ℕ, ◌+◌, Bool, true, false, Option, none, some, List, [], ◌∷◌, leb}
use fast_downloader.Prelude.Text.{Text}
use fast_downloader.Error.{Result, ok, err, cancelled, retry_exhausted, is_cancelled}
use fast_downloader.Config.{DownloaderConfig}
use fast_downloader.Http.{FileInfo}
use fast_downloader.Single.{Written, Visit, single_thread_attempt}

-- One round of the loop of `single_thread`.
pub record Try : Type 0 where
  pub is_cancelled : Bool
  pub visit : Visit
  pub cancelled_in_sleep : Bool

-- Where the loop is when the rounds given are used up.
pub data Finish : Type 0 where
  running : Finish
  panicked : Finish
  returned : Result Text → Finish

-- What follows an attempt: the loop ends, or goes on after a delay (`backoff`) with one more failed
-- attempt counted.
unfoldable pub after_attempt :
    DownloaderConfig
    → Text
    → ℕ
    → List ℕ
    → Bool
    → Option Written
    → (ℕ → List ℕ → List ℕ × Finish)
    → List ℕ × Finish
unfolding is_cancelled
after_attempt cfg path attempt file cancelled_in_sleep none next = (file, panicked)
after_attempt cfg path attempt file cancelled_in_sleep (some (f, ok u)) next =
    (f, returned (ok path))
after_attempt cfg path attempt file cancelled_in_sleep (some (f, err e)) next =
    elim (is_cancelled e) [
      | true ↦ (f, returned (err cancelled))
      | false ↦ elim (leb cfg.max_retries (attempt + 1)) [
        | true ↦ (f, returned (err (retry_exhausted (attempt + 1) e)))
        | false ↦ elim cancelled_in_sleep [
          | true ↦ (f, returned (err cancelled))
          | false ↦ next (attempt + 1) f
        ]
      ]
    ]

module _ (cfg : DownloaderConfig) (info : FileInfo) (path : Text) where
  -- From the number of failed attempts so far.
  unfoldable pub single_thread : ℕ → List ℕ → List Try → List ℕ × Finish
  unfolding single_thread_attempt after_attempt
  single_thread attempt file [] = (file, running)
  single_thread attempt file (t ∷ tries) = elim t.is_cancelled [
    | true ↦ (file, returned (err cancelled))
    | false ↦
        after_attempt cfg path attempt file t.cancelled_in_sleep
          (single_thread_attempt cfg info file t.visit) (λ a f. single_thread a f tries)
  ]
