-- ===== src/Http/Tests.antt =====
-- Runs of src/http.rs on the inputs of its unit tests, and the theorem on the validators.
use fast_downloader.Prelude.{◌≡◌, refl, true, none, some}
use fast_downloader.Prelude.Text.{codes, text_eq, trim, split}
use fast_downloader.Http.{
  FileInfo, parse_content_range_total, last_piece, parse_u64, parse_unsigned, parse_digits,
}

content_range_total : parse_content_range_total (codes "bytes 0-0/12345") ≡ some 12345
unfolding parse_content_range_total last_piece parse_u64 parse_unsigned parse_digits text_eq trim
    split
content_range_total = refl

content_range_unknown : parse_content_range_total (codes "bytes 0-0/*") ≡ none
unfolding parse_content_range_total last_piece text_eq trim split
content_range_unknown = refl

content_range_bad : parse_content_range_total (codes "garbage") ≡ none
unfolding parse_content_range_total last_piece parse_u64 parse_unsigned parse_digits text_eq trim
    split
content_range_bad = refl

-- A weak `ETag` and a date.
abbrev weakly_tagged : FileInfo
weakly_tagged = record {
  final_url = codes "u";
  filename = codes "f";
  size = none;
  supports_range = true;
  etag = some (codes "W/x");
  last_modified = some (codes "Mon");
  digest = none;
}
