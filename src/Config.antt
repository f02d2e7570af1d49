-- ===== src/Config.antt =====
-- `HttpConfig` of src/http.rs, `DownloaderConfig`, `DownloadTask`, `DownloadOutcome` and
-- `backoff` of src/downloader.rs. A `Duration` is its number of nanoseconds.
pub mod Backoff
mod Tests
use fast_downloader.Prelude.{ℕ, ◌+◌, ◌-◌, ◌*◌, ◌^◌, Bool, true, false, Option, none, some, min}
use fast_downloader.Prelude.Text.{Text, codes}
use fast_downloader.Prelude.Words.{u64_mod}
use fast_downloader.Checksum.{Checksum}

abbrev pub secs : ℕ → ℕ
secs n = n * 1_000_000_000

abbrev pub millis : ℕ → ℕ
millis n = n * 1_000_000

pub record HttpConfig : Type 0 where
  pub user_agent : Text
  pub connect_timeout : ℕ
  pub probe_timeout : ℕ
  pub chunk_request_timeout : ℕ
  pub pool_max_idle_per_host : ℕ
  pub accept_invalid_certs : Bool

pub record DownloaderConfig : Type 0 where
  pub http : HttpConfig
  pub default_threads : ℕ
  pub max_threads : ℕ
  pub min_chunk_size : ℕ
  pub progress_interval : ℕ
  pub speed_window : ℕ
  pub state_save_interval : ℕ
  pub flush_interval_bytes : ℕ
  pub verify_server_digest : Bool
  pub durable_resume : Bool
  pub max_retries : ℕ
  pub initial_retry_delay : ℕ
  pub max_retry_delay : ℕ

-- The version in the user agent is the package's, which the build puts in.
abbrev pub default_http : Text → HttpConfig
default_http user_agent = record {
  user_agent = user_agent;
  connect_timeout = secs 15;
  probe_timeout = secs 15;
  chunk_request_timeout = secs 120;
  pool_max_idle_per_host = 32;
  accept_invalid_certs = false;
}

abbrev pub default_config : Text → DownloaderConfig
default_config user_agent = record {
  http = default_http user_agent;
  default_threads = 16;
  max_threads = 32;
  min_chunk_size = 2 ^ 20;
  progress_interval = millis 250;
  speed_window = secs 2;
  state_save_interval = secs 2;
  flush_interval_bytes = 4 * 1024 * 1024;
  verify_server_digest = true;
  durable_resume = false;
  max_retries = 8;
  initial_retry_delay = millis 500;
  max_retry_delay = secs 30;
}

pub record DownloadTask : Type 0 where
  pub id : ℕ
  pub url : Text
  pub save_path : Text
  pub thread_count : Option ℕ
  pub expected_checksum : Option Checksum

pub new_task : Text → Text → DownloadTask
new_task url save_path = record {
  id = 0;
  url = url;
  save_path = save_path;
  thread_count = none;
  expected_checksum = none;
}

pub with_id : DownloadTask → ℕ → DownloadTask
with_id t id = record t { id = id }

pub with_threads : DownloadTask → ℕ → DownloadTask
with_threads t n = record t { thread_count = some n }

pub with_checksum : DownloadTask → Checksum → DownloadTask
with_checksum t checksum = record t { expected_checksum = some checksum }

pub record DownloadOutcome : Type 0 where
  pub id : ℕ
  pub path : Text
  pub size : ℕ
  pub elapsed : ℕ

-- `nanos.saturating_mul(factor)` on `u128`.
pub saturating_mul_u128 : ℕ → ℕ → ℕ
saturating_mul_u128 a b = min (a * b) (2 ^ 128 - 1)

-- `checked_shl` by at most 30 always succeeds.
pub backoff : ℕ → ℕ → ℕ → ℕ
unfolding saturating_mul_u128
backoff attempt initial cap =
    min (min (saturating_mul_u128 initial (2 ^ min (attempt - 1) 30)) cap) (u64_mod - 1)
