-- ===== src/Disposition.antt =====
-- src/filename.rs: `parse_content_disposition` and the names taken from a response or a URL. The
-- code scans bytes; all that it looks for is ASCII, which no byte of a longer character equals,
-- so that the scan is over characters here. Only a quoted value is taken byte by byte.
pub mod Written
pub mod Extended
pub mod Rounds
mod Tests
use fast_downloader.Prelude.{
  ℕ, zero, suc, Bool, true, false, not, ◌&&◌, ◌||◌, Option, none, some, List, [], ◌∷◌, ◌++◌, map,
  length, ltb, ◌==◌, if◌then◌else◌,
}
use fast_downloader.Prelude.Text.{
  Text, codes, text_eq, utf8_char, to_ascii_lowercase, trim, drop_while, split_once,
}
use fast_downloader.Prelude.Utf8.{from_utf8_lossy}
use fast_downloader.Filename.{sanitize}

pub record Param : Type 0 where
  pub name : Text
  pub value : Text

pub is_ws : ℕ → Bool
is_ws b = (b == b' ') || (b == b'\t')

pub eq_ascii : Text → Text → Bool
eq_ascii a b = text_eq (to_ascii_lowercase a) (to_ascii_lowercase b)

-- What is in front of the first character that satisfies `p`, and what is from it on.
pub scan : (ℕ → Bool) → Text → Text × Text
scan p [] = ([], [])
scan p (c ∷ s) = let rest = scan p s in if p c then ([], c ∷ s) else (c ∷ rest.0, rest.1)

pub ends_name : ℕ → Bool
unfolding is_ws
ends_name c = (c == b'=') || (c == b';') || is_ws c

pub ends_value : ℕ → Bool
ends_value c = c == b';'

-- A character of a quoted value, each byte of it pushed as a character.
pub push : ℕ → Text × Text → Text × Text
push c (buf, rest) = (utf8_char c ++ buf, rest)

-- Behind the opening quote: the value, and what is behind the closing quote.
pub quoted_value : Text → Text × Text
unfolding push
quoted_value [] = ([], [])
quoted_value (c ∷ []) = if c == b'"' then ([], []) else push c ([], [])
quoted_value (c ∷ d ∷ s) = elim (c == b'"') [
  | true ↦ ([], d ∷ s)
  | false ↦ elim (c == b'\\') [
    | true ↦ push d (quoted_value s)
    | false ↦ push c (quoted_value (d ∷ s))
  ]
]

pub token_value : Text → Text × Text
unfolding scan ends_value
token_value s = (trim ((scan ends_value s).0), (scan ends_value s).1)

-- Behind `=` and white space.
pub param_value : Text → Text × Text
unfolding quoted_value token_value
param_value [] = token_value []
param_value (c ∷ s) = if c == b'"' then quoted_value s else token_value (c ∷ s)

-- Behind the name and white space: `none` for a parameter without a value.
pub behind_name : Text → Option Text × Text
unfolding is_ws param_value
behind_name [] = (none, [])
behind_name (c ∷ t) =
    if c == b'='
    then (some ((param_value (drop_while is_ws t)).0), (param_value (drop_while is_ws t)).1)
    else (none, c ∷ t)

pub value_of : Text → Option Text × Text
unfolding behind_name
value_of s = behind_name (drop_while is_ws s)

pub keep_param : Text → Option Text → List Param → List Param
keep_param name none params = params
keep_param name (some value) params = record { name = name; value = value } ∷ params

-- What follows the `;`: a name and what is behind it, after which `loop` goes on.
pub one_param : (Text → List Param) → Text × Text → List Param
unfolding value_of keep_param
one_param loop ([], rest) = loop rest
one_param loop (c ∷ name, rest) = keep_param (c ∷ name) (value_of rest).0 (loop (value_of rest).1)

-- The loop over the parameters, on as many rounds as there are characters.
pub params_loop : ℕ → Text → List Param
unfolding scan ends_name one_param
params_loop zero s = []
params_loop (suc n) [] = []
params_loop (suc n) (c ∷ s) = elim (c == b';') [
  | false ↦ params_loop n s
  | true ↦ one_param (params_loop n) (scan ends_name (drop_while is_ws s))
]

pub parse_params : Text → List Param
unfolding params_loop scan ends_value is_ws
parse_params input =
    let s = (scan ends_value (drop_while is_ws input)).1 in params_loop (length s) s

pub find_param : Text → List Param → Option Text
unfolding eq_ascii
find_param name [] = none
find_param name (p ∷ ps) = if eq_ascii p.name name then some p.value else find_param name ps

pub non_empty : Text → Option Text
non_empty [] = none
non_empty (c ∷ s) = some (c ∷ s)

pub charset_decode : Text → List ℕ → Text
charset_decode charset bytes =
    if text_eq charset [] || text_eq charset (codes "utf-8") || text_eq charset (codes "utf8")
    then from_utf8_lossy bytes
    else if text_eq charset (codes "iso-8859-1") || text_eq charset (codes "latin-1")
    then bytes
    else from_utf8_lossy bytes

-- `percent_decode` stands for `percent_decode_str` of the percent-encoding crate, as the bytes
-- that it yields; its `decode_utf8_lossy` reads them by `from_utf8_lossy`.
module _ (percent_decode : Text → List ℕ) where
  -- `charset'lang'encoded`
  pub decode_ext_value : Text → Option Text
  unfolding charset_decode non_empty
  decode_ext_value value = elim (split_once b'\'' value) [
    | none ↦ none
    | some (charset, after) ↦ elim (split_once b'\'' after) [
      | none ↦ none
      | some (lang, encoded) ↦ elim (non_empty encoded) [
        | none ↦ none
        | some _ ↦ non_empty (charset_decode (to_ascii_lowercase charset) (percent_decode encoded))
      ]
    ]
  ]

  pub extended_name : List Param → Option Text
  unfolding find_param decode_ext_value
  extended_name params = elim (find_param (codes "filename*") params) [
    | none ↦ none
    | some value ↦ decode_ext_value value
  ]

  pub regular_name : List Param → Option Text
  unfolding find_param non_empty
  regular_name params = elim (find_param (codes "filename") params) [
    | none ↦ none
    | some value ↦ elim (non_empty value) [
      | none ↦ none
      | some v ↦ some (from_utf8_lossy (percent_decode v))
    ]
  ]

  pub parse_content_disposition : Text → Option Text
  unfolding parse_params extended_name regular_name
  parse_content_disposition value = elim (extended_name (parse_params value)) [
    | some name ↦ some name
    | none ↦ regular_name (parse_params value)
  ]

  -- `header`: the value of `Content-Disposition`, if there is one and it is plain text.
  pub extract_from_content_disposition : Option Text → Option Text
  unfolding parse_content_disposition
  extract_from_content_disposition none = none
  extract_from_content_disposition (some value) = parse_content_disposition value

  -- `segment`: the last one of the URL's path, if it has a path.
  pub extract_from_url : Option Text → Option Text
  unfolding non_empty
  extract_from_url none = none
  extract_from_url (some last) = elim (non_empty last) [
    | none ↦ none
    | some _ ↦ non_empty (from_utf8_lossy (percent_decode last))
  ]

  pub derive_filename : Option Text → Option Text → Text
  unfolding extract_from_content_disposition extract_from_url
  derive_filename header segment = elim (extract_from_content_disposition header) [
    | some raw ↦ sanitize raw
    | none ↦ elim (extract_from_url segment) [ some raw ↦ sanitize raw | none ↦ sanitize [] ]
  ]
