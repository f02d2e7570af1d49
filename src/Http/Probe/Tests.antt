-- ===== src/Http/Probe/Tests.antt =====
-- A server that answers the first request without a length and the second one with 206.
use fast_downloader.Prelude.{ℕ, ◌≡◌, ◌⊎◌, refl, true, Option, none, some, List}
use fast_downloader.Prelude.Text.{Text, codes, text_eq, trim, split}
use fast_downloader.Error.{ok}
use fast_downloader.Checksum.Advertised.{digest_from_parts}
use fast_downloader.Http.{FileInfo, parse_content_range_total, parse_u64}
use fast_downloader.Http.Probe.{Headers, Answer, probe}
use fast_downloader.Http.Probe.Sources.{IsSuccess, SaysBytes, probe-supports_range}

-- No base64 text is read.
abbrev no_decode : Text → Option (List ℕ)
no_decode t = none

abbrev no_headers : Headers
no_headers = record {
  content_length = none;
  content_range = none;
  accept_ranges = none;
  etag = none;
  last_modified = none;
  repr_digest = none;
  digest = none;
  content_md5 = none;
}

abbrev head : Answer
head = record { status = 200; url = codes "u"; filename = codes "f"; headers = no_headers }

abbrev partial : Answer
partial = record {
  status = 206;
  url = codes "v";
  filename = codes "g";
  headers = record no_headers { content_range = some (codes "bytes 0-0/9") };
}

abbrev found : FileInfo
found = record {
  final_url = codes "v";
  filename = codes "f";
  size = some 9;
  supports_range = true;
  etag = none;
  last_modified = none;
  digest = none;
}

finds : probe no_decode (codes "u") (ok head) (ok partial) ≡ ok found
unfolding probe parse_content_range_total parse_u64 digest_from_parts text_eq trim split
finds = refl

probe-supports_range_example :
    ((a : Answer) × (ok head ≡ ok a) × IsSuccess a.status × SaysBytes a.headers.accept_ranges)
    ⊎ ((resp : Answer) × (ok partial ≡ ok resp) × (resp.status ≡ 206))
probe-supports_range_example =
    probe-supports_range no_decode (codes "u") (ok head) (ok partial) found finds refl
