-- ===== src/Disposition/Extended.antt =====
-- src/filename.rs: which name `parse_content_disposition` takes from a header as a server writes
-- it.
use fast_downloader.Prelude.{
  ℕ, ◌≡◌, inl, inr, refl, ap, ◌∙◌, true, false, none, some, List, [], ◌∷◌, ◌++◌, map, All, ltb,
  ◌==◌, Bool-cases, arith,
}
use fast_downloader.Prelude.Text.{
  Text, codes, text_eq, utf8_char, as_bytes, to_ascii_lowercase, split_once,
}
use fast_downloader.Prelude.Utf8.{
  IsChar, from_utf8_lossy, from_utf8_lossy-as_bytes, as_bytes-IsChar,
}
use fast_downloader.Disposition.{
  Param, eq_ascii, ends_value, parse_params, find_param, non_empty, charset_decode,
  decode_ext_value, extended_name, regular_name, parse_content_disposition,
}
use fast_downloader.Disposition.Written.{
  Written, quoted, token, write_params, read_param, IsWritten, parse_params-write,
}

abbrev pub name_of : Written → Text
name_of (quoted name value) = name
name_of (token name value) = name

-- None of the parameters has that name.
abbrev pub Lacks : Text → List Written → Type 0
Lacks name = All (λ w. eq_ascii (name_of w) name ≡ false)

split_once-append :
    (sep : ℕ) (a b : Text)
    → All (λ c. (c == sep) ≡ false) a
    → split_once sep (a ++ sep ∷ b) ≡ some (a, b)
unfolding split_once
split_once-append sep [] b h = ground arith
split_once-append sep (c ∷ a) b h = rw (split_once, h.0, split_once-append sep a b h.1) refl

find_param-first :
    (name : Text) (ps qs : List Written) (w : Written)
    → Lacks name ps
    → eq_ascii (name_of w) name ≡ true
    → find_param name (map read_param (ps ++ w ∷ qs)) ≡ some ((read_param w).value)
unfolding find_param
find_param-first name [] qs (quoted n v) h e = rw e refl
find_param-first name [] qs (token n v) h e = rw e refl
find_param-first name (quoted n v ∷ ps) qs w h e = rw h.0 (find_param-first name ps qs w h.1 e)
find_param-first name (token n v ∷ ps) qs w h e = rw h.0 (find_param-first name ps qs w h.1 e)

find_param-none :
    (name : Text) (ps : List Written) → Lacks name ps → find_param name (map read_param ps) ≡ none
unfolding find_param
find_param-none name [] h = refl
find_param-none name (quoted n v ∷ ps) h = rw h.0 (find_param-none name ps h.1)
find_param-none name (token n v ∷ ps) h = rw h.0 (find_param-none name ps h.1)

utf8_char-non_empty : (c : ℕ) (s : Text) → non_empty (utf8_char c ++ s) ≡ some (utf8_char c ++ s)
unfolding utf8_char non_empty
utf8_char-non_empty c s = elim (Bool-cases (ltb c 0x80)) [
  | inl a ↦ rw a refl
  | inr a ↦ elim (Bool-cases (ltb c 0x800)) [
    | inl b ↦ rw (a, b) refl
    | inr b ↦ elim (Bool-cases (ltb c 0x10000)) [
      | inl d ↦ rw (a, b, d) refl
      | inr d ↦ rw (a, b, d) refl
    ]
  ]
]

-- `charset'lang'encoded`
abbrev pub ext_value : Text → Text → Text → Text
ext_value charset lang encoded = charset ++ b'\'' ∷ (lang ++ b'\'' ∷ encoded)

abbrev pub HasNoQuote : Text → Type 0
HasNoQuote = All (λ c. (c == b'\'') ≡ false)

module _ (percent_decode : Text → List ℕ) where
  decode_ext_value-utf8 :
      (charset lang : Text) (e : ℕ) (encoded : Text) (c : ℕ) (name : Text)
      → HasNoQuote charset
      → HasNoQuote lang
      → to_ascii_lowercase charset ≡ codes "utf-8"
      → percent_decode (e ∷ encoded) ≡ as_bytes (c ∷ name)
      → All IsChar (c ∷ name)
      → decode_ext_value percent_decode (ext_value charset lang (e ∷ encoded)) ≡ some (c ∷ name)
  unfolding decode_ext_value charset_decode non_empty text_eq
  decode_ext_value-utf8 charset lang e encoded c name q r utf8 d chars =
      rw
        (
          decode_ext_value,
          split_once-append b'\'' charset (lang ++ b'\'' ∷ e ∷ encoded) q,
          split_once-append b'\'' lang (e ∷ encoded) r,
          utf8,
          d,
        )
        (ap non_empty (from_utf8_lossy-as_bytes (c ∷ name) chars))

  -- The first `filename*` of a header wins, wherever a plain `filename` stands: a name that is
  -- written in UTF-8 and percent-encoded comes out whole. Its value is a token with charset
  -- `utf-8` in any case, and the encoded form decodes to the bytes of a name that is not empty.
  -- The disposition type has no `;`, each parameter's name is not empty and without `=`, `;` and
  -- white space, and a value written without quotes is not empty and has no `;`, no white space
  -- around it and no quote in front.
  pub extended_wins :
      (disposition : Text) (ps qs : List Written) (key charset lang : Text) (e : ℕ) (encoded : Text)
      (c : ℕ) (name : Text)
      → All (λ b. ends_value b ≡ false) disposition
      → All IsWritten (ps ++ token key (ext_value charset lang (e ∷ encoded)) ∷ qs)
      → Lacks (codes "filename*") ps
      → eq_ascii key (codes "filename*") ≡ true
      → HasNoQuote charset
      → HasNoQuote lang
      → to_ascii_lowercase charset ≡ codes "utf-8"
      → percent_decode (e ∷ encoded) ≡ as_bytes (c ∷ name)
      → All IsChar (c ∷ name)
      → parse_content_disposition percent_decode (
          disposition ++ write_params (ps ++ token key (ext_value charset lang (e ∷ encoded)) ∷ qs))
        ≡ some (c ∷ name)
  unfolding parse_content_disposition extended_name
  extended_wins disposition ps qs key charset lang e encoded c name d w lacks k q r utf8 dec chars =
      let ext : Written = token key (ext_value charset lang (e ∷ encoded)) in
      rw
        (
          parse_content_disposition,
          parse_params-write disposition (ps ++ ext ∷ qs) d w,
          extended_name,
          find_param-first (codes "filename*") ps qs ext lacks k,
          decode_ext_value-utf8 charset lang e encoded c name q r utf8 dec chars,
        )
        refl

  take_regular :
      (value : Text) (params : List Param)
      → parse_params value ≡ params
      → (name : Text) → extended_name percent_decode params ≡ none
      → regular_name percent_decode params ≡ some name
      → parse_content_disposition percent_decode value ≡ some name
  unfolding parse_content_disposition
  take_regular value params e name none_ taken =
      rw (parse_content_disposition, e, none_) (rw e taken)

  no_extended :
      (params : List Param)
      → find_param (codes "filename*") params ≡ none
      → extended_name percent_decode params ≡ none
  unfolding extended_name
  no_extended params e = rw (extended_name, e) refl

  regular_value :
      (params : List Param) (value : Text)
      → find_param (codes "filename") params ≡ some value
      → non_empty value ≡ some value
      → from_utf8_lossy (percent_decode value) ≡ value
      → regular_name percent_decode params ≡ some value
  unfolding regular_name
  regular_value params value e there d = rw (regular_name, e, there) (ap some d)

  -- Where no parameter is called `filename*`, the first that is called `filename` is taken: a
  -- non-empty value written in quotes comes out with one character for each of its UTF-8 bytes.
  -- This holds if `percent_decode` leaves those bytes' characters as they are, the disposition
  -- type has no `;`, each name is not empty and without `=`, `;` and white space, and the value
  -- of a parameter written without quotes is not empty and has no `;`, no white space around it
  -- and no quote in front.
  pub regular_lem :
      (disposition : Text) (ps qs : List Written) (key : Text) (c : ℕ) (name : Text)
      → All (λ b. ends_value b ≡ false) disposition
      → All IsWritten (ps ++ quoted key (c ∷ name) ∷ qs)
      → Lacks (codes "filename*") (ps ++ quoted key (c ∷ name) ∷ qs)
      → Lacks (codes "filename") ps
      → eq_ascii key (codes "filename") ≡ true
      → percent_decode (as_bytes (c ∷ name)) ≡ as_bytes (as_bytes (c ∷ name))
      → All IsChar (c ∷ name)
      → parse_content_disposition percent_decode
          (disposition ++ write_params (ps ++ quoted key (c ∷ name) ∷ qs))
        ≡ some (as_bytes (c ∷ name))
  unfolding as_bytes
  regular_lem disposition ps qs key c name d w lacks_ext lacks k dec chars =
      let ws = ps ++ quoted key (c ∷ name) ∷ qs in
      take_regular (disposition ++ write_params ws) (map read_param ws)
        (parse_params-write disposition ws d w) (as_bytes (c ∷ name))
        (no_extended (map read_param ws) (find_param-none (codes "filename*") ws lacks_ext))
        (regular_value (map read_param ws) (as_bytes (c ∷ name))
          (find_param-first (codes "filename") ps qs (quoted key (c ∷ name)) lacks k)
          (utf8_char-non_empty c (as_bytes name))
          (ap from_utf8_lossy dec
            ∙ from_utf8_lossy-as_bytes (as_bytes (c ∷ name)) (as_bytes-IsChar (c ∷ name) chars)))
