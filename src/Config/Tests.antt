-- ===== src/Config/Tests.antt =====
-- The delays of the unit test `backoff_growth`, and the theorems at concrete inputs.
use fast_downloader.Prelude.{ℕ, suc, ◌*◌, ◌^◌, ◌≤◌, ◌≡◌, refl, min, arith}
use fast_downloader.Config.{backoff, millis, secs}
use fast_downloader.Config.Backoff.{backoff_doubles}

backoff_growth : backoff 3 (millis 500) (secs 30) ≡ millis 2000
unfolding backoff
backoff_growth = refl

backoff_doubles_example :
    (backoff 1 (millis 500) (secs 30) ≡ min (millis 500) (secs 30))
    × ((n : ℕ)
        → 1 ≤ n
        → n ≤ 30
        → backoff (suc n) (millis 500) (secs 30)
          ≡ min (2 * backoff n (millis 500) (secs 30)) (secs 30))
    × ((n : ℕ) → 31 ≤ n → backoff n (millis 500) (secs 30) ≡ backoff 31 (millis 500) (secs 30))
    × ((n : ℕ) → backoff n (millis 500) (secs 30) ≤ secs 30)
backoff_doubles_example = backoff_doubles (millis 500) (secs 30) (omega arith) (omega arith)

-- With an initial delay of a nanosecond no delay comes to the cap.
never_capped : backoff 1000 1 (secs 30) ≡ 2 ^ 30
unfolding backoff
never_capped = refl
