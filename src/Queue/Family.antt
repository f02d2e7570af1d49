-- ===== src/Queue/Family.antt =====
-- Families `ℕ → A` indexed by submission: the change of one member, and weighted sums.
use fast_downloader.Prelude.{
  ℕ, zero, suc, ◌+◌, ◌≤◌, ◌<◌, ◌≡◌, inl, inr, refl, arith, ◌==◌, if◌then◌else◌, Bool-cases,
}

abbrev pub change {ℓ} : {A : Type ℓ} → (ℕ → A) → ℕ → A → ℕ → A
change f i a j = if i == j then a else f j

module _ {ℓ} {A : Type ℓ} (w : A → ℕ) where
  unfoldable pub total : ℕ → (ℕ → A) → ℕ
  total zero f = 0
  total (suc n) f = total n f + w (f n)

  total-outside : (n : ℕ) (f : ℕ → A) (i : ℕ) (a : A) → n ≤ i → total n (change f i a) ≡ total n f
  unfolding total
  total-outside zero f i a h = refl
  total-outside (suc n) f i a h = ground (arith, total-outside n f i a)

  pub total-change :
      (n : ℕ) (f : ℕ → A) (i : ℕ) (a : A)
      → i < n
      → total n (change f i a) + w (f i) ≡ total n f + w a
  unfolding total
  total-change zero f i a h = absurd (omega arith)
  total-change (suc n) f i a h = elim (Bool-cases (i == n)) [
    | inl last ↦ ground (arith, total-outside n f i a)
    | inr below ↦ ground (arith, total-change n f i a)
  ]

  pub total-push : (n : ℕ) (f : ℕ → A) (a : A) → total (suc n) (change f n a) ≡ total n f + w a
  unfolding total
  total-push n f a = ground (arith, total-outside n f n a)

  pub total-same : (n : ℕ) (f g : ℕ → A) → ((i : ℕ) → w (f i) ≡ w (g i)) → total n f ≡ total n g
  unfolding total
  total-same zero f g h = refl
  total-same (suc n) f g h = omega (arith, total-same n f g h, h n)

  pub total_mono : (n : ℕ) (f g : ℕ → A) → ((i : ℕ) → w (f i) ≤ w (g i)) → total n f ≤ total n g
  unfolding total
  total_mono zero f g h = omega arith
  total_mono (suc n) f g h = omega (arith, total_mono n f g h, h n)

  pub total-above : (n : ℕ) (f : ℕ → A) (i : ℕ) → i < n → w (f i) ≤ total n f
  unfolding total
  total-above zero f i h = absurd (omega arith)
  total-above (suc n) f i h = elim (Bool-cases (i == n)) [
    | inl last ↦ ground arith
    | inr below ↦ ground (arith, total-above n f i)
  ]

  -- A sum that is not zero has a part that is not zero.
  pub total-positive : (n : ℕ) (f : ℕ → A) → 0 < total n f → (i : ℕ) × (i < n) × (0 < w (f i))
  unfolding total
  total-positive zero f h = absurd (omega arith)
  total-positive (suc n) f h = elim (Bool-cases (w (f n) == 0)) [
    | inl e ↦ let (i, below, pos) = total-positive n f (ground arith) in (i, omega arith, pos)
    | inr e ↦ (n, omega arith, ground arith)
  ]

pub total-weights {ℓ} :
    {A : Type ℓ} (v w : A → ℕ) (n : ℕ) (f : ℕ → A)
    → ((a : A) → v a ≤ w a)
    → total v n f ≤ total w n f
unfolding total
total-weights v w zero f h = omega arith
total-weights v w (suc n) f h = omega (arith, total-weights v w n f h, h (f n))
