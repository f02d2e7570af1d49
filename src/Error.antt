-- ===== src/Error.antt =====
-- src/error.rs: the error type and its predicates, and the `Result` that fallible code returns.
-- An error value of a library (`reqwest::Error`, `std::io::Error`) is kept as its message, and the
-- text of `StateCorrupted` and `InvalidChecksum` as the message's kind with the
-- numbers that it prints.
use fast_downloader.Prelude.{ℕ, ◌≡◌, refl, ap, ◌⊎◌, inl, inr, Bool, true, false, Option, none, some}
use fast_downloader.Prelude.Text.{Text}

pub data Corruption : Type 0 where
  version_mismatch : ℕ → Corruption
  no_workers : Corruption
  start_expected : ℕ → ℕ → ℕ → Corruption
  end_before_start : ℕ → ℕ → ℕ → Corruption
  current_out_of_range : ℕ → ℕ → ℕ → ℕ → Corruption
  workers_cover : ℕ → ℕ → Corruption
  serialize : Text → Corruption
  deserialize : Text → Corruption

pub data BadChecksum : Type 0 where
  hex_length : ℕ → ℕ → BadChecksum
  non_hex : BadChecksum

pub data Error : Type 0 where
  invalid_url : Text → Error
  http : Text → Error
  io : Text → Error
  status : ℕ → Error
  no_range_support : Error
  resource_changed : Error
  size_mismatch : ℕ → ℕ → Error
  checksum_mismatch : Text → Text → Error
  invalid_checksum : BadChecksum → Error
  cancelled : Error
  retry_exhausted : ℕ → Error → Error
  invalid_save_path : Text → Error
  state_corrupted : Corruption → Error
  queue_closed : Error
  task_not_found : ℕ → Error
  unknown_length : Error

unfoldable pub is_cancelled : Error → Bool
is_cancelled cancelled = true
is_cancelled _ = false

pub is_resource_changed : Error → Bool
is_resource_changed resource_changed = true
is_resource_changed _ = false

pub is_checksum_mismatch : Error → Bool
is_checksum_mismatch (checksum_mismatch e a) = true
is_checksum_mismatch _ = false

pub data Result {ℓ} (A : Type ℓ) : Type ℓ where
  ok : A → Result A
  err : Error → Result A

-- The success that the call gives, or its error.
pub Result-cases {ℓ} :
    {A : Type ℓ} (call : Result A)
    → ((value : A) × (call ≡ ok value)) ⊎ ((e : Error) × (call ≡ err e))
Result-cases (err e) = inr (e, refl)
Result-cases (ok value) = inl (value, refl)

-- `?`: an error is passed on.
infixl 5 ◌>>=◌
abbrev pub ◌>>=◌ {ℓ κ} : {A : Type ℓ} {B : Type κ} → Result A → (A → Result B) → Result B
err e >>= next = err e
ok value >>= next = next value

-- `o.ok_or(e)`
abbrev pub ok_or {ℓ} : {A : Type ℓ} → Option A → Error → Result A
ok_or none e = err e
ok_or (some a) e = ok a

-- The value of a success, or another where there is none.
abbrev pub or_else {ℓ} : {A : Type ℓ} → Result A → A → A
or_else (ok a) d = a
or_else (err e) d = d

pub ok-injective {ℓ} : {A : Type ℓ} {a b : A} → ok a ≡ ok b → a ≡ b
ok-injective {a = a} e = ap (λ r. or_else r a) e
