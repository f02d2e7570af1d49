-- ===== src/Config/Backoff.antt =====
-- `backoff` of src/downloader.rs: the delay before a retry.
use native.Mathlib.Nat.{mul-add, mul-le-mul_left, mul-le-mul, pow-le-pow_right}
use fast_downloader.Prelude.{
  ℕ, zero, suc, ◌+◌, ap, sym, ◌∙◌, ◌-◌, ◌*◌, ◌^◌, ◌≤◌, ◌<◌, ◌≡◌, min, arith,
}
use fast_downloader.Prelude.Words.{u64_mod}
use fast_downloader.Config.{backoff}

pow_mono : (m n : ℕ) → m ≤ n → 2 ^ m ≤ 2 ^ n
pow_mono m n h = pow-le-pow_right (omega arith) h

no_saturation : (initial k : ℕ) → initial < 2 ^ 94 → k ≤ 30 → initial * 2 ^ k ≤ 2 ^ 128 - 1
no_saturation initial k i h =
    omega
      (arith, mul-le-mul {n₁ = initial} {n₂ = 2 ^ 94} {m₂ = 2 ^ 30} (omega arith) (pow_mono k 30 h))

-- In closed form: for durations (a `Duration` has fewer than 2^94 nanoseconds) and a cap below 2^64 nanoseconds,
-- the delay is `initial` doubled with each attempt after the first, up to the 31st, and never
-- more than the cap.
pub backoff_lem :
    (attempt initial cap : ℕ)
    → initial < 2 ^ 94
    → cap < u64_mod
    → backoff attempt initial cap ≡ min (initial * 2 ^ min (attempt - 1) 30) cap
unfolding backoff
backoff_lem attempt initial cap i c =
    omega (arith, no_saturation initial (min (attempt - 1) 30) i (omega arith))

two_pow : (k : ℕ) → 2 ^ suc k ≡ 2 ^ k + 2 ^ k
two_pow k = omega arith

doubled : (initial k : ℕ) → initial * 2 ^ suc k ≡ 2 * (initial * 2 ^ k)
doubled initial k =
    omega (arith, ap (λ (x : ℕ). initial * x) (two_pow k), mul-add initial (2 ^ k) (2 ^ k))

next_delay :
    (initial cap n : ℕ)
    → initial < 2 ^ 94
    → cap < u64_mod
    → 1 ≤ n
    → n ≤ 30
    → backoff (suc n) initial cap ≡ min (2 * backoff n initial cap) cap
next_delay initial cap zero i c lo hi = absurd (omega arith)
next_delay initial cap (suc k) i c lo hi =
    let here : min (suc k - 1) 30 ≡ k = omega arith in
    let next : min (suc (suc k) - 1) 30 ≡ suc k = omega arith in
    let before : backoff (suc k) initial cap ≡ min (initial * 2 ^ k) cap =
      backoff_lem (suc k) initial cap i c ∙ ap (λ e. min (initial * 2 ^ e) cap) here in
    let after : backoff (suc (suc k)) initial cap ≡ min (initial * 2 ^ suc k) cap =
      backoff_lem (suc (suc k)) initial cap i c ∙ ap (λ e. min (initial * 2 ^ e) cap) next in
    omega (arith, before, after, doubled initial k)

late :
    (initial cap n : ℕ)
    → initial < 2 ^ 94
    → cap < u64_mod
    → 31 ≤ n
    → backoff n initial cap ≡ backoff 31 initial cap
late initial cap n i c le =
    let same : min (n - 1) 30 ≡ 30 = omega arith in
    backoff_lem n initial cap i c
    ∙ ap (λ e. min (initial * 2 ^ e) cap) same
    ∙ sym (backoff_lem 31 initial cap i c)

-- For durations (a `Duration` has fewer than 2^94 nanoseconds) and a cap below 2^64 nanoseconds:
-- the first delay is `initial`, each one up to the 31st is twice the one before, and from the 31st
-- on they stay as they are, below the cap or not; none is more than the cap.
pub backoff_doubles :
    (initial cap : ℕ)
    → initial < 2 ^ 94
    → cap < u64_mod
    → (backoff 1 initial cap ≡ min initial cap)
      × ((n : ℕ)
          → 1 ≤ n
          → n ≤ 30
          → backoff (suc n) initial cap ≡ min (2 * backoff n initial cap) cap)
      × ((n : ℕ) → 31 ≤ n → backoff n initial cap ≡ backoff 31 initial cap)
      × ((n : ℕ) → backoff n initial cap ≤ cap)
backoff_doubles initial cap i c = (
  omega (arith, backoff_lem 1 initial cap i c),
  (λ n lo hi. next_delay initial cap n i c lo hi),
  (λ n le. late initial cap n i c le),
  (λ n. omega (arith, backoff_lem n initial cap i c)),
)

-- For the same durations `backoff` makes a later attempt wait at least as long as an earlier one.
pub backoff_mono : (a b initial cap : ℕ) → a ≤ b → backoff a initial cap ≤ backoff b initial cap
unfolding backoff
backoff_mono a b initial cap h =
    omega
      (arith, mul-le-mul_left initial (pow_mono (min (a - 1) 30) (min (b - 1) 30) (omega arith)))
