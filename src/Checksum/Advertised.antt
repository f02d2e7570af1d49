-- ===== src/Checksum/Advertised.antt =====
-- src/checksum.rs: the digests that a server advertises, and the choice of the strongest among
-- them.
use fast_downloader.Prelude.{
  ℕ, ◌||◌, Option, none, some, List, [], ◌∷◌, length, ltb, ◌==◌, if◌then◌else◌,
}
use fast_downloader.Prelude.Text.{
  Text, codes, text_eq, trim, trim_matches, to_ascii_lowercase, split, split_once,
}
use fast_downloader.Checksum.{Checksum, md5, sha256, sha512}

unfoldable pub rank : Checksum → ℕ
rank (sha512 a) = 3
rank (sha256 a) = 2
rank (md5 a) = 1

-- The best checksum so far with its rank, and the step that considers one more.
pub record Best : Type 0 where
  pub best : Option Checksum
  pub best_rank : ℕ

unfoldable pub consider : Best → Option Checksum → Best
unfolding rank
consider b none = b
consider b (some c) =
    if ltb b.best_rank (rank c) then record { best = some c; best_rank = rank c } else b

unfoldable pub nothing : Best
nothing = record { best = none; best_rank = 0 }

module _ (decode : Text → Option (List ℕ)) where
  -- `BASE64_STANDARD.decode` and the conversion to an array of `n` bytes.
  pub decode_n : ℕ → Text → Option (List ℕ)
  decode_n n s = elim (decode s) [
    | none ↦ none
    | some raw ↦ if length raw == n then some raw else none
  ]

  pub parse_value : Text → Text → Option Checksum
  unfolding decode_n
  parse_value name val =
      if text_eq name (codes "sha-512") || text_eq name (codes "sha512")
      then (elim (decode_n 64 val) [ none ↦ none | some a ↦ some (sha512 a) ])
      else if text_eq name (codes "sha-256") || text_eq name (codes "sha256")
      then (elim (decode_n 32 val) [ none ↦ none | some a ↦ some (sha256 a) ])
      else if text_eq name (codes "md5")
      then (elim (decode_n 16 val) [ none ↦ none | some a ↦ some (md5 a) ])
      else none

  -- One entry of the list: `name=value`, with the colons of RFC 9530 taken off.
  pub parse_entry : Text → Option Checksum
  unfolding parse_value
  parse_entry entry = elim (split_once b'=' (trim entry)) [
    | none ↦ none
    | some (name, val) ↦
        parse_value (to_ascii_lowercase (trim name))
          (trim (trim_matches (λ c. c == b':') (trim val)))
  ]

  unfoldable pub consider_entries : Best → List Text → Best
  unfolding parse_entry consider
  consider_entries b [] = b
  consider_entries b (entry ∷ entries) = consider_entries (consider b (parse_entry entry)) entries

  unfoldable pub parse_digest_list : Text → Option Checksum
  unfolding consider_entries nothing
  parse_digest_list value = (consider_entries nothing (split b',' value)).best

  pub parse_content_md5 : Text → Option Checksum
  unfolding decode_n
  parse_content_md5 value = elim (decode_n 16 (trim value)) [ none ↦ none | some a ↦ some (md5 a) ]

  -- `if let Some(v) = header { consider(parse(v)) }`
  unfoldable pub consider_header : (Text → Option Checksum) → Option Text → Best → Best
  unfolding consider
  consider_header parse none b = b
  consider_header parse (some v) b = consider b (parse v)

  unfoldable pub digest_from_parts : Option Text → Option Text → Option Text → Option Checksum
  unfolding consider_header parse_digest_list parse_content_md5 nothing
  digest_from_parts repr_digest digest content_md5 =
      let b1 = consider_header parse_digest_list repr_digest nothing in
      let b2 = consider_header parse_digest_list digest b1 in
      (consider_header parse_content_md5 content_md5 b2).best
