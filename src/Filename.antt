-- ===== src/Filename.antt =====
-- `sanitize` of src/filename.rs: a name that a server supplies made into one component of a path.
-- A `String` is the list of its characters; `len` and the indices of `truncate` count UTF-8 bytes.
pub mod Length
pub mod Safe
mod Tests
use fast_downloader.Prelude.{
  ℕ, zero, suc, ◌+◌, ◌-◌, Bool, true, false, not, ◌&&◌, ◌||◌, Option, none, some, List, [], ◌∷◌,
  ◌++◌, map, length, min, ltb, leb, ◌==◌, if◌then◌else◌,
}
use mathlib.Core.List.{reverse}
use fast_downloader.Prelude.Text.{Text, codes, text_eq, utf8_char, as_bytes, drop_while}

abbrev pub max_filename_len : ℕ
max_filename_len = 200

abbrev pub fallback_filename : Text
fallback_filename = codes "download.bin"

-- `s.len()`
pub len : Text → ℕ
unfolding as_bytes
len s = length (as_bytes s)

-- `s.is_char_boundary(i)`
pub is_char_boundary : Text → ℕ → Bool
is_char_boundary s zero = true
is_char_boundary [] (suc i) = false
is_char_boundary (c ∷ s) (suc i) =
    let rest = is_char_boundary s (suc i - length (utf8_char c)) in
    if leb (length (utf8_char c)) (suc i) then rest else false

-- `s.truncate(n)` at a boundary.
pub truncate : Text → ℕ → Text
truncate [] n = []
truncate (c ∷ s) n =
    let rest = truncate s (n - length (utf8_char c)) in
    if leb (length (utf8_char c)) n then c ∷ rest else []

-- The characters that become `_`.
pub is_replaced : ℕ → Bool
is_replaced c =
    (c == b'/')
    || (c == b'\\')
    || (c == 0)
    || (c == b'<')
    || (c == b'>')
    || (c == b':')
    || (c == b'"')
    || (c == b'|')
    || (c == b'?')
    || (c == b'*')
    || ltb c 0x20

pub replace_char : ℕ → ℕ
unfolding is_replaced
replace_char c = if is_replaced c then b'_' else c

pub is_leading : ℕ → Bool
is_leading c = (c == b'.') || (c == b' ') || (c == b'_')

pub is_trailing : ℕ → Bool
is_trailing c = (c == b'.') || (c == b' ')

pub is_nil : Text → Bool
is_nil [] = true
is_nil (c ∷ s) = false

-- The loop that pops from the end.
pub strip_end : Text → Text
unfolding is_nil is_trailing
strip_end [] = []
strip_end (c ∷ s) = let rest = strip_end s in if is_nil rest && is_trailing c then [] else c ∷ rest

-- `s.rfind('.')`: what is before the last dot, and the rest from it on.
pub rfind_dot : Text → Option (Text × Text)
rfind_dot [] = none
rfind_dot (c ∷ s) = elim (rfind_dot s) [
  | some (a, b) ↦ some (c ∷ a, b)
  | none ↦ if c == b'.' then some ([], c ∷ s) else none
]

-- `while !stem.is_char_boundary(…) { stem.pop(); }`, on the stem from its end.
pub pop_loop : ℕ → Text → Text
unfolding is_char_boundary len
pop_loop budget [] = []
pop_loop budget (c ∷ s) =
    let rest = pop_loop budget s in
    let stem = reverse (c ∷ s) in
    if is_char_boundary stem (min budget (len stem)) then stem else rest

-- `while !s.is_char_boundary(cut) { cut -= 1; }`
pub cut_loop : Text → ℕ → ℕ
unfolding is_char_boundary
cut_loop s zero = zero
cut_loop s (suc cut) =
    let rest = cut_loop s cut in if is_char_boundary s (suc cut) then suc cut else rest

pub shorten_stem : Text → Text → Text
unfolding pop_loop truncate
shorten_stem stem ext =
    let budget = max_filename_len - len ext in
    let popped = pop_loop budget (reverse stem) in truncate popped (min budget (len popped)) ++ ext

pub cut_off : Text → Text
unfolding cut_loop truncate
cut_off s = truncate s (cut_loop s max_filename_len)

-- The name is too long.
pub shorten : Text → Text
unfolding rfind_dot shorten_stem cut_off
shorten s = elim (rfind_dot s) [
  | none ↦ cut_off s
  | some (stem, ext) ↦
      if leb (len ext) 16 && ltb 0 (len stem) then shorten_stem stem ext else cut_off s
]

pub strip : Text → Text
unfolding strip_end is_leading replace_char drop_while
strip name = strip_end (drop_while is_leading (map replace_char name))

pub sanitize : Text → Text
unfolding shorten strip
sanitize name =
    let s = strip name in
    if is_nil s || text_eq s (codes ".") || text_eq s (codes "..")
    then fallback_filename
    else if ltb max_filename_len (len s)
    then shorten s
    else s
