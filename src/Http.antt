-- ===== src/Http.antt =====
-- `FileInfo` and `parse_content_range_total` of src/http.rs.
pub mod Validators
pub mod Probe
mod Tests
use fast_downloader.Prelude.{
  ℕ, ◌+◌, ◌-◌, ◌*◌, Bool, true, false, not, ◌&&◌, Option, none, some, List, [], ◌∷◌, ltb, leb, ◌==◌,
  if◌then◌else◌,
}
use fast_downloader.Prelude.Text.{Text, codes, starts_with, split, trim, text_eq}
use fast_downloader.Prelude.Words.{u64_mod}
use fast_downloader.Checksum.{Checksum}

pub record FileInfo : Type 0 where
  pub final_url : Text
  pub filename : Text
  pub size : Option ℕ
  pub supports_range : Bool
  pub etag : Option Text
  pub last_modified : Option Text
  pub digest : Option Checksum

-- `match self.etag.as_deref()`, where what is left is `Last-Modified`.
pub strong_or : Option Text → Option Text → Option Text
strong_or none last_modified = last_modified
strong_or (some e) last_modified =
    if not (starts_with e (codes "W/")) then some e else last_modified

pub if_range_validator : FileInfo → Option Text
unfolding strong_or starts_with
if_range_validator info = strong_or info.etag info.last_modified

-- The digits of `str::parse::<u64>`: at least one, and no overflow on the way.
pub parse_digits : ℕ → Text → Option ℕ
parse_digits n [] = some n
parse_digits n (c ∷ s) =
    let rest = parse_digits (n * 10 + (c - b'0')) s in
    if leb b'0' c && leb c b'9'
    then (if ltb (n * 10 + (c - b'0')) u64_mod then rest else none)
    else none

pub parse_unsigned : Text → Option ℕ
unfolding parse_digits
parse_unsigned [] = none
parse_unsigned (c ∷ s) = parse_digits 0 (c ∷ s)

-- `str::parse::<u64>`: a sign `+` may stand in front.
pub parse_u64 : Text → Option ℕ
unfolding parse_unsigned
parse_u64 [] = none
parse_u64 (c ∷ s) = if c == b'+' then parse_unsigned s else parse_unsigned (c ∷ s)

-- `value.rsplit('/').next()`: the last piece; there always is one.
pub last_piece : List Text → Text
last_piece [] = []
last_piece (p ∷ []) = p
last_piece (p ∷ q ∷ ps) = last_piece (q ∷ ps)

pub parse_content_range_total : Text → Option ℕ
unfolding last_piece parse_u64
parse_content_range_total value =
    let after_slash = trim (last_piece (split b'/' value)) in
    if text_eq after_slash (codes "*") then none else parse_u64 after_slash
