-- ===== src/Filename/Tests.antt =====
-- Runs of `sanitize` of src/filename.rs on the inputs of its unit tests, and its theorem.
use fast_downloader.Prelude.{◌≡◌, refl, [], ◌∷◌, ◌++◌, replicate}
use fast_downloader.Prelude.Text.{codes, text_eq, as_bytes, utf8_char, drop_while}
use fast_downloader.Filename.Safe.{IsSafeName, sanitize-IsSafeName}
use fast_downloader.Filename.{fallback_filename, sanitize}

traversal : sanitize (codes "../etc/passwd") ≡ codes "etc_passwd"
unfolding sanitize as_bytes utf8_char text_eq drop_while
traversal = refl

nothing_left : sanitize (codes "..") ≡ fallback_filename
unfolding sanitize as_bytes text_eq drop_while
nothing_left = refl

windows_reserved : sanitize (codes "foo:bar?baz*.txt") ≡ codes "foo_bar_baz_.txt"
unfolding sanitize as_bytes utf8_char text_eq drop_while
windows_reserved = refl

keeps_extension : sanitize (replicate 300 b'a' ++ codes ".zip") ≡ replicate 196 b'a' ++ codes ".zip"
unfolding sanitize as_bytes utf8_char text_eq drop_while
keeps_extension = refl

-- A name that is cut off may end with a dot.
trailing_dot :
    sanitize (replicate 199 b'a' ++ (b'.' ∷ replicate 20 b'b')) ≡ replicate 199 b'a' ++ (b'.' ∷ [])
unfolding sanitize as_bytes utf8_char text_eq drop_while
trailing_dot = refl

sanitize-IsSafeName_example : IsSafeName (sanitize (codes "../etc/passwd"))
sanitize-IsSafeName_example = sanitize-IsSafeName (codes "../etc/passwd")
