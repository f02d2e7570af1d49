-- ===== src/Disposition/Tests.antt =====
-- A header of the repository's own tests, and a name with a letter that is not ASCII in both forms.
use fast_downloader.Prelude.{
  ℕ, ◌+◌, ◌-◌, ◌*◌, ◌≡◌, ◌≢◌, refl, ap, All, true, false, some, List, [], ◌∷◌, ◌++◌, map, length,
  arith, ltb, inl, ◌==◌, if◌then◌else◌,
}
use fast_downloader.Prelude.Text.{
  Text, codes, text_eq, utf8_char, as_bytes, to_ascii_lowercase, lower_char, trim, trim_matches,
  is_whitespace, drop_while,
}
use fast_downloader.Prelude.Utf8.{IsChar}
use fast_downloader.Disposition.{
  is_ws, eq_ascii, scan, ends_name, ends_value, push, quoted_value, token_value, param_value,
  behind_name, value_of, keep_param, one_param, params_loop, parse_params,
  parse_content_disposition,
}
use fast_downloader.Disposition.Written.{
  Written, quoted, token, write_params, read_param, parse_params-write,
}
use fast_downloader.Disposition.Extended.{ext_value, extended_wins, regular_lem}
use fast_downloader.Disposition.Rounds.{LoopEnds, parse_params-LoopEnds}

parse_cd_quoted_escaped :
    parse_params (codes "attachment; x; filename=\"he said \\\"hi\\\".txt\"")
    ≡ record { name = codes "filename"; value = codes "he said \"hi\".txt" } ∷ []
unfolding is_ws scan ends_name ends_value push quoted_value token_value param_value behind_name
    value_of keep_param one_param params_loop parse_params drop_while utf8_char
parse_cd_quoted_escaped = refl

abbrev hex : ℕ → ℕ
hex c = if ltb c b'A' then c - b'0' else c - 55

-- Pairs of hexadecimal digits behind `%` decoded, and all else as it is.
abbrev decode : Text → List ℕ
decode [] = []
decode (c ∷ []) = utf8_char c
decode (c ∷ d ∷ []) = utf8_char c ++ utf8_char d
decode (c ∷ d ∷ e ∷ s) = elim (c == b'%') [
  | true ↦ (hex d * 16 + hex e) ∷ decode s
  | false ↦ utf8_char c ++ decode (d ∷ e ∷ s)
]

abbrev file : Text
file = codes "é.txt"

abbrev params : List Written
params = quoted (codes "filename") (codes "a\"b") ∷ token (codes "size") (codes "3") ∷ []

parse_params-write_example :
    parse_params (codes "form" ++ write_params params) ≡ map read_param params
unfolding ends_name ends_value is_ws trim trim_matches drop_while is_whitespace
parse_params-write_example = parse_params-write (codes "form") params (ground arith) (ground arith)

parse_params-LoopEnds_example : LoopEnds (codes ";;a=b;c") (parse_params (codes "x;;a=b;c"))
unfolding scan ends_value is_ws drop_while
parse_params-LoopEnds_example = parse_params-LoopEnds (codes "x;;a=b;c")

file_chars : All IsChar file
file_chars = (
  inl (omega arith),
  (inl (omega arith), (inl (omega arith), (inl (omega arith), (inl (omega arith), tt)))),
)

-- A plain name first, and then the extended one.
abbrev both : List Written
both =
    quoted (codes "filename") (codes "e.txt")
    ∷ token (codes "FileName*") (ext_value (codes "UTF-8") (codes "fr") (codes "%C3%A9.txt"))
    ∷ []

extended_wins_example :
    parse_content_disposition decode (codes "x" ++ write_params both) ≡ some file
unfolding ends_name ends_value is_ws trim trim_matches drop_while is_whitespace eq_ascii
    to_ascii_lowercase lower_char text_eq utf8_char as_bytes
extended_wins_example =
    extended_wins decode (codes "x") (quoted (codes "filename") (codes "e.txt") ∷ []) []
      (codes "FileName*") (codes "UTF-8") (codes "fr") b'%' (codes "C3%A9.txt") 233 (codes ".txt")
      (ground arith) (ground arith) (ground arith) refl (ground arith) (ground arith) refl refl
      file_chars

regular_lem_example :
    parse_content_disposition as_bytes
      (codes "x" ++ write_params (quoted (codes "filename") file ∷ []))
    ≡ some (as_bytes file)
unfolding ends_name ends_value is_ws eq_ascii to_ascii_lowercase lower_char text_eq
regular_lem_example =
    regular_lem as_bytes (codes "x") [] [] (codes "filename") 233 (codes ".txt") (ground arith)
      (ground arith) (ground arith) tt refl refl file_chars

-- It is not the name that was written.
file_bytes : as_bytes file ≢ file
unfolding as_bytes utf8_char
file_bytes e = omega (arith, ap length e)
