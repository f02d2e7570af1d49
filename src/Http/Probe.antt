-- ===== src/Http/Probe.antt =====
-- `probe` of src/http.rs, as a function of the answers to its two requests. A header is there if
-- its value is text. What `derive_filename` gives for an answer is part of the answer.
pub mod Sources
mod Tests
use fast_downloader.Prelude.{
  ℕ, Bool, true, false, not, ◌&&◌, ◌||◌, Option, none, some, List, ltb, leb, ◌==◌, if◌then◌else◌,
}
use fast_downloader.Prelude.Text.{Text, codes, text_eq, to_ascii_lowercase}
use fast_downloader.Error.{Result, ok, err, status}
use fast_downloader.Checksum.{Checksum}
use fast_downloader.Checksum.Advertised.{digest_from_parts}
use fast_downloader.Http.{FileInfo, parse_u64, parse_content_range_total}

pub record Headers : Type 0 where
  pub content_length : Option Text
  pub content_range : Option Text
  pub accept_ranges : Option Text
  pub etag : Option Text
  pub last_modified : Option Text
  pub repr_digest : Option Text
  pub digest : Option Text
  pub content_md5 : Option Text

pub record Answer : Type 0 where
  pub status : ℕ
  pub url : Text
  pub filename : Text
  pub headers : Headers

-- `status.is_success()`
pub is_success : ℕ → Bool
is_success s = leb 200 s && ltb s 300

pub parsed : (Text → Option ℕ) → Option Text → Option ℕ
parsed f none = none
parsed f (some v) = f v

-- `Some("bytes")` and `Some("none")`, in any case.
pub accepts_ranges : Option Text → Option Bool
accepts_ranges none = none
accepts_ranges (some v) =
    if text_eq (to_ascii_lowercase v) (codes "bytes")
    then some true
    else if text_eq (to_ascii_lowercase v) (codes "none")
    then some false
    else none

-- The variables of `probe` after the first request.
pub record Known : Type 0 where
  pub final_url : Option Text
  pub filename : Option Text
  pub size : Option ℕ
  pub supports_range : Option Bool
  pub etag : Option Text
  pub last_modified : Option Text
  pub digest : Option Checksum

pub nothing_known : Known
nothing_known = record {
  final_url = none;
  filename = none;
  size = none;
  supports_range = none;
  etag = none;
  last_modified = none;
  digest = none;
}

pub is_true : Option Bool → Bool
is_true none = false
is_true (some b) = b

pub is_some {ℓ} : {A : Type ℓ} → Option A → Bool
is_some none = false
is_some (some a) = true

-- `if x.is_none() { x = y; }`
pub or_from {ℓ} : {A : Type ℓ} → Option A → Option A → Option A
or_from none y = y
or_from (some x) y = some x

pub value_or {ℓ} : {A : Type ℓ} → Option A → A → A
value_or none d = d
value_or (some x) d = x

-- The size after the range probe.
pub probed_size : Option ℕ → Answer → Option ℕ
unfolding or_from parsed
probed_size size resp =
    if resp.status == 206
    then or_from (parsed parse_content_range_total resp.headers.content_range) size
    else or_from size (parsed parse_u64 resp.headers.content_length)

module _ (decode : Text → Option (List ℕ)) (url : Text) where
  pub from_head : Answer → Known
  unfolding parsed accepts_ranges
  from_head resp = record {
    final_url = some resp.url;
    filename = some resp.filename;
    size = parsed parse_u64 resp.headers.content_length;
    supports_range = accepts_ranges resp.headers.accept_ranges;
    etag = resp.headers.etag;
    last_modified = resp.headers.last_modified;
    digest =
        digest_from_parts decode resp.headers.repr_digest resp.headers.digest
          resp.headers.content_md5;
  }

  -- What the first request tells: nothing, if it fails.
  pub head_known : Result Answer → Known
  unfolding from_head nothing_known is_success
  head_known (err e) = nothing_known
  head_known (ok resp) = if is_success resp.status then from_head resp else nothing_known

  pub file_info : Known → Bool → FileInfo
  unfolding value_or
  file_info k supports_range = record {
    final_url = value_or k.final_url url;
    filename = value_or k.filename (codes "download.bin");
    size = k.size;
    supports_range = supports_range;
    etag = k.etag;
    last_modified = k.last_modified;
    digest = k.digest;
  }

  pub with_range_probe : Known → Answer → Known
  unfolding or_from probed_size
  with_range_probe k resp = record k {
    final_url = some resp.url;
    filename = or_from k.filename (some resp.filename);
    size = probed_size k.size resp;
    etag = or_from k.etag resp.headers.etag;
    last_modified = or_from k.last_modified resp.headers.last_modified;
  }

  -- The second request.
  pub range_probe : Known → Result Answer → Result FileInfo
  unfolding with_range_probe file_info is_true is_success
  range_probe k (err e) = err e
  range_probe k (ok resp) =
      if not (is_success resp.status) && not (resp.status == 206)
      then err (status resp.status)
      else ok
          (file_info (with_range_probe k resp) ((resp.status == 206) || is_true k.supports_range))

  pub probe : Result Answer → Result Answer → Result FileInfo
  unfolding head_known range_probe file_info is_true is_some
  probe head get =
      let k = head_known head in
      if is_true k.supports_range && is_some k.size
      then ok (file_info k true)
      else range_probe k get
