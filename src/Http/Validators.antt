-- ===== src/Http/Validators.antt =====
-- `if_range_validator` of src/http.rs and `matches_resource` of src/state.rs agree on what a strong
-- validator is.
use fast_downloader.Prelude.{◌≡◌, ◌⊎◌, inl, inr, true, false, Option, none, some, refl, Bool-cases}
use fast_downloader.Prelude.Text.{Text, codes, starts_with}
use fast_downloader.State.{is_weak}
use fast_downloader.Http.{FileInfo, strong_or, if_range_validator}

-- What is chosen between the two validators.
abbrev Chosen : Option Text → Option Text → Option Text → Type 0
Chosen etag last_modified v =
    ((e : Text) × (etag ≡ some e) × (is_weak e ≡ false) × (v ≡ some e))
    ⊎ (((etag ≡ none) ⊎ ((e : Text) × (etag ≡ some e) × (is_weak e ≡ true))) × (v ≡ last_modified))

strong_or-Chosen :
    (etag last_modified : Option Text) → Chosen etag last_modified (strong_or etag last_modified)
unfolding strong_or is_weak
strong_or-Chosen none lm = inr (inl refl, refl)
strong_or-Chosen (some e) lm = elim (Bool-cases (starts_with e (codes "W/"))) [
  | inl weak ↦ inr (inr (e, refl, weak), rw (weak, strong_or) refl)
  | inr strong ↦ inl (e, refl, strong, rw (strong, strong_or) refl)
]

-- The validator that is sent in `If-Range` is never a weak `ETag`: it is the `ETag` if that is
-- strong; if there is no `ETag` or a weak one it is the `Last-Modified` value, or none where that
-- is missing.
pub if_range_validator-strong :
    (info : FileInfo)
    → ((e : Text) × (info.etag ≡ some e) × (is_weak e ≡ false) × (if_range_validator info ≡ some e))
      ⊎ (((info.etag ≡ none) ⊎ ((e : Text) × (info.etag ≡ some e) × (is_weak e ≡ true)))
          × (if_range_validator info ≡ info.last_modified))
unfolding if_range_validator is_weak
if_range_validator-strong info = strong_or-Chosen info.etag info.last_modified
