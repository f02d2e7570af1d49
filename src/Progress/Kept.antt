-- ===== src/Progress/Kept.antt =====
-- What a `SpeedMeter` of src/progress.rs keeps of all that it has recorded.
use mathlib.Core.List.{append-nil, append_assoc}
use fast_downloader.Prelude.{
  ℕ, ◌-◌, ◌≤◌, ◌<◌, ◌≡◌, ◌⊎◌, inl, inr, refl, sym, ap, subst, ◌∙◌, List, [], ◌∷◌, ◌++◌, length,
  length-append, arith, ltb, false, Bool-cases, All, All-map,
}
use fast_downloader.Progress.{SpeedMeter, drop_old, drop_excess, record_sample}
use fast_downloader.Progress.Window.{Sorted}

-- The newest of the samples are kept. Those that are gone are older than the window, or there are as
-- many samples as the meter may hold.
pub record Keeps (window capacity now : ℕ) (history samples : List (ℕ × ℕ)) : Type 0 where
  pub gone : List (ℕ × ℕ)
  pub parts : gone ++ samples ≡ history
  pub why : All (λ s. window < now - s.0) gone ⊎ (capacity ≤ length samples)

All-both {ℓ} :
    {A : Type ℓ} (P : A → Type 0) (xs ys : List A) → All P xs → All P ys → All P (xs ++ ys)
All-both P [] ys h k = k
All-both P (x ∷ xs) ys h k = (h.0, All-both P xs ys h.1 k)

drop_old-parts :
    (window now : ℕ) (samples : List (ℕ × ℕ))
    → (old : List (ℕ × ℕ)) × (old ++ drop_old window now samples ≡ samples)
      × All (λ s. window < now - s.0) old
unfolding drop_old
drop_old-parts window now [] = ([], refl, tt)
drop_old-parts window now ((t, b) ∷ samples) =
    let (old, parts, all) = drop_old-parts window now samples in
    elim (Bool-cases (ltb window (now - t))) [
      | inl gone ↦
          rw (drop_old, gone)
            ((t, b) ∷ old, ap (λ xs. (t, b) ∷ xs) parts, (ground (arith, gone), all))
      | inr stays ↦ rw (drop_old, stays) ([], refl, tt)
    ]

drop_excess-parts :
    (n : ℕ) (samples : List (ℕ × ℕ)) (s : ℕ × ℕ)
    → 1 ≤ n
    → (excess : List (ℕ × ℕ)) × (rest : List (ℕ × ℕ)) × (excess ++ rest ≡ samples)
      × (drop_excess n (samples ++ s ∷ []) ≡ rest ++ s ∷ [])
      × ((excess ≡ []) ⊎ (n ≤ length (rest ++ s ∷ [])))
unfolding drop_excess
drop_excess-parts n [] s h =
    let fits : ltb n 1 ≡ false = ground (arith, h) in
    ([], [], refl, rw (drop_excess, fits) refl, inl refl)
drop_excess-parts n (x ∷ samples) s h =
    let (excess, rest, parts, same, full) = drop_excess-parts n samples s h in
    elim (Bool-cases (ltb n (length ((x ∷ samples) ++ s ∷ [])))) [
      | inl over ↦ (
        x ∷ excess,
        rest,
        ap (λ xs. x ∷ xs) parts,
        rw (drop_excess, over) same,
        inr (elim full [
          | inl none_ ↦
              let all : rest ≡ samples = subst (λ e. e ++ rest ≡ samples) none_ parts in
              subst (λ xs. n ≤ length (xs ++ s ∷ [])) (sym all) (ground (arith, over))
          | inr enough ↦ enough
        ]),
      )
      | inr fits ↦ ([], x ∷ samples, refl, rw (drop_excess, fits) refl, inl refl)
    ]

All-middle {ℓ} :
    {A : Type ℓ} (P : A → Type 0) (xs : List A) (y : A) (ys : List A) → All P (xs ++ y ∷ ys) → P y
All-middle P [] y ys h = h.0
All-middle P (x ∷ xs) y ys h = All-middle P xs y ys h.1

-- In what is sorted, no sample is later than one behind it.
Sorted-before :
    (now : ℕ) (xs : List (ℕ × ℕ)) (s : ℕ × ℕ) (ys : List (ℕ × ℕ))
    → Sorted now (xs ++ s ∷ ys)
    → All (λ x. x.0 ≤ s.0) xs
Sorted-before now [] s ys h = tt
Sorted-before now ((t, b) ∷ xs) s ys h =
    (All-middle (λ x. t ≤ x.0) xs s ys h.1, Sorted-before now xs s ys h.2)

-- The reasons hold on, later.
still_gone :
    (window capacity before now : ℕ) (gone old kept samples : List (ℕ × ℕ)) (s : ℕ × ℕ)
    → before ≤ now
    → Sorted before (gone ++ samples)
    → old ++ kept ≡ samples
    → All (λ x. window < now - x.0) old
    → All (λ x. window < before - x.0) gone ⊎ (capacity ≤ length samples)
    → All (λ x. window < now - x.0) (gone ++ old) ⊎ (capacity ≤ length (kept ++ s ∷ []))
still_gone window capacity before now gone old kept samples s le sorted parts olds (inl earlier) =
    inl (
      All-both (λ x. window < now - x.0) gone old
        (All-map gone (λ x h. omega (arith, le, h)) earlier) olds)
still_gone window capacity before now gone [] kept samples s le sorted parts olds (inr full) =
    inr (omega (arith, full, ap length parts, length-append kept (s ∷ [])))
still_gone window capacity before now gone (o ∷ old) kept samples s le sorted parts olds
      (inr full) =
    let apart : Sorted before (gone ++ o ∷ (old ++ kept)) =
      subst (λ xs. Sorted before (gone ++ xs)) (sym parts) sorted in
    inl (
      All-both (λ x. window < now - x.0) gone (o ∷ old)
        (All-map gone (λ x h. omega (arith, olds.0, h))
          (Sorted-before before gone o (old ++ kept) apart))
        olds)

pub record_sample-Keeps :
    (m : SpeedMeter) (history : List (ℕ × ℕ)) (before now b : ℕ)
    → 1 ≤ m.capacity
    → before ≤ now
    → Sorted before history
    → Keeps m.window m.capacity before history m.samples
    → (rest : List (ℕ × ℕ)) × ((record_sample m now b).samples ≡ rest ++ (now, b) ∷ [])
      × Keeps m.window m.capacity now (history ++ (now, b) ∷ []) (rest ++ (now, b) ∷ [])
unfolding record_sample
record_sample-Keeps m history before now b pos le sorted k =
    let s : ℕ × ℕ = (now, b) in
    let kept = drop_old m.window now m.samples in
    let (old, parts, olds) = drop_old-parts m.window now m.samples in
    let (excess, rest, split, same, full) = drop_excess-parts m.capacity kept s pos in
    let sorted' : Sorted before (k.gone ++ m.samples) =
      subst (Sorted before) (sym k.parts) sorted in
    (
      rest,
      same,
      record {
        gone = (k.gone ++ old) ++ excess;
        parts =
            append_assoc (k.gone ++ old) excess (rest ++ s ∷ [])
            ∙ ap (λ xs. (k.gone ++ old) ++ xs)
                (sym (append_assoc excess rest (s ∷ [])) ∙ ap (λ xs. xs ++ s ∷ []) split)
            ∙ append_assoc k.gone old (kept ++ s ∷ [])
            ∙ ap (λ xs. k.gone ++ xs)
                (sym (append_assoc old kept (s ∷ [])) ∙ ap (λ xs. xs ++ s ∷ []) parts)
            ∙ sym (append_assoc k.gone m.samples (s ∷ []))
            ∙ ap (λ xs. xs ++ s ∷ []) k.parts;
        why = elim full [
          | inr enough ↦ inr enough
          | inl none_ ↦
              let all : rest ≡ kept = subst (λ e. e ++ rest ≡ kept) none_ split in
              rw none_ (
                rw all (
                  subst
                    (λ xs.
                      All (λ x. m.window < now - x.0) xs ⊎ (m.capacity ≤ length (kept ++ s ∷ [])))
                    (sym (append-nil (k.gone ++ old)))
                    (still_gone m.window m.capacity before now k.gone old kept m.samples s le
                      sorted' parts olds k.why)))
        ];
      },
    )
