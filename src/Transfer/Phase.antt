-- ===== src/Transfer/Phase.antt =====
-- One worker of src/downloader.rs between two of its effects: what the file holds for it, and what
-- it has yet to add to the shared count.
use native.Mathlib.Decide.{dec_lt}
use fast_downloader.Prelude.{
  ℕ, suc, ◌+◌, ◌≤◌, ◌<◌, ◌≡◌, ◌⊎◌, inl, inr, refl, ap, ◌∙◌, List, [], ◌∷◌, length, arith, ◌==◌,
  Bool-cases, ==_iff,
}
use fast_downloader.Worker.{Effect, write_at, store_current, fetch_add}
use fast_downloader.Worker.Trace.{Matches, Trace, done, torn, landed}
use fast_downloader.Transfer.{write, on_file, on_current}

-- The file has the resource's bytes at the positions from `lo` to below `hi`.
abbrev pub Agrees : (ℕ → ℕ) → (ℕ → ℕ) → ℕ → ℕ → Type 0
Agrees content file lo hi = (q : ℕ) → lo ≤ q → q < hi → file q ≡ content q

pub write-outside :
    (file : ℕ → ℕ) (p : ℕ) (b : List ℕ) (q : ℕ)
    → (q < p) ⊎ (p + length b ≤ q)
    → write file p b q ≡ file q
unfolding write
write-outside file p [] q h = refl
write-outside file p (x ∷ b) q h = ground (arith, write-outside file (suc p) b q)

pub write-Matches :
    (content file : ℕ → ℕ) (p : ℕ) (b : List ℕ) (q : ℕ)
    → Matches content p b
    → p ≤ q
    → q < p + length b
    → write file p b q ≡ content q
unfolding write
write-Matches content file p [] q m h l = absurd (omega arith)
write-Matches content file p (x ∷ b) q m h l = elim (Bool-cases (p == q)) [
  | inl here ↦ rw here (m.0 ∙ ap content ((==_iff p q).0 here))
  | inr later ↦ rw later (write-Matches content file (suc p) b q m.1 (ground arith) (omega arith))
]

-- A worker between two effects: at the start of a round of its loop, or behind the write of a chunk
-- of `n` bytes, or behind the store of the position that the chunk reaches.
pub data Phase (content : ℕ → ℕ) (file : ℕ → ℕ) (start end : ℕ) : ℕ → List Effect → Type 0 where
  ready :
      {p : ℕ} {es : List Effect}
      → Agrees content file start p
      → Trace content end p es
      → Phase content file start end p es
  written :
      {p q n : ℕ} {es : List Effect}
      → Agrees content file start q
      → q ≡ p + n
      → q ≤ end
      → Trace content end q es
      → Phase content file start end p (store_current q ∷ fetch_add n ∷ es)
  stored :
      {p n : ℕ} {es : List Effect}
      → Agrees content file start p
      → Trace content end p es
      → Phase content file start end p (fetch_add n ∷ es)

-- What is in the file below `current`, and not yet in the shared count.
unfoldable pub debt : List Effect → ℕ
debt [] = 0
debt (write_at p b ∷ es) = 0
debt (store_current v ∷ es) = 0
debt (fetch_add n ∷ es) = n

unfoldable pub added_by : Effect → ℕ
added_by (write_at p b) = 0
added_by (store_current v) = 0
added_by (fetch_add n) = n

pub debt-Trace :
    {content : ℕ → ℕ} {end p : ℕ} {es : List Effect} → Trace content end p es → debt es ≡ 0
unfolding debt
debt-Trace done = refl
debt-Trace (torn m l t) = refl
debt-Trace (landed m e q l t) = refl

module _ {content file : ℕ → ℕ} {start end : ℕ} where
  -- A phase needs only the positions of the worker's own range.
  pub Phase-Agrees :
      (other : ℕ → ℕ) {p : ℕ} {es : List Effect}
      → p ≤ end
      → ((q : ℕ) → start ≤ q → q < end → other q ≡ file q)
      → Phase content file start end p es
      → Phase content other start end p es
  Phase-Agrees other h same (ready a t) = ready (λ q lo hi. same q lo (omega arith) ∙ a q lo hi) t
  Phase-Agrees other h same (written a e l t) =
      written (λ q lo hi. same q lo (omega arith) ∙ a q lo hi) e l t
  Phase-Agrees other h same (stored a t) = stored (λ q lo hi. same q lo (omega arith) ∙ a q lo hi) t

-- One effect: the phase goes on, nothing outside the range is touched, and what is counted or owed
-- grows as `current` does.
pub record Moves (content file : ℕ → ℕ) (start end p : ℕ) (e : Effect) (es : List Effect)
    : Type 0 where
  pub phase : Phase content (on_file e file) start end (on_current e p) es
  pub grows : p ≤ on_current e p
  pub within : on_current e p ≤ end
  pub outside : (q : ℕ) → (q < start) ⊎ (end ≤ q) → on_file e file q ≡ file q
  pub balance : added_by e + debt es + p ≡ debt (e ∷ es) + on_current e p

module _ (content file : ℕ → ℕ) (start end : ℕ) where
  -- A write of the resource's bytes at `p` keeps those below `p`, and adds its own.
  write-Agrees :
      (p : ℕ) (b : List ℕ)
      → Matches content p b
      → Agrees content file start p
      → Agrees content (write file p b) start (p + length b)
  write-Agrees p b m a q lo hi = elim (dec_lt q p) [
    | yes below ↦ write-outside file p b q (inl below) ∙ a q lo below
    | no above ↦ write-Matches content file p b q m (omega arith) hi
  ]

  pub Phase-Moves :
      {p : ℕ} (e : Effect) (es : List Effect)
      → start ≤ p
      → p ≤ end
      → Phase content file start end p (e ∷ es)
      → Moves content file start end p e es
  unfolding on_file on_current debt added_by
  Phase-Moves e es s h (ready a (torn {p = p} {b = b} m l t)) = record {
    phase = ready (λ q lo hi. write-Agrees p b m a q lo (omega arith)) t;
    grows = omega arith;
    within = h;
    outside = λ q far.
        write-outside file p b q
          (elim far [ inl x ↦ inl (omega arith) | inr x ↦ inr (omega arith) ]);
    balance = omega (arith, debt-Trace t);
  }
  Phase-Moves e es s h (ready a (landed {p = p} {b = b} m eq q l t)) = record {
    phase = written (λ r lo hi. write-Agrees p b m a r lo (omega arith)) q l t;
    grows = omega arith;
    within = h;
    outside = λ r far.
        write-outside file p b r
          (elim far [ inl x ↦ inl (omega arith) | inr x ↦ inr (omega arith) ]);
    balance = omega arith;
  }
  Phase-Moves e es s h (written a q l t) = record {
    phase = stored a t;
    grows = omega arith;
    within = l;
    outside = λ r far. refl;
    balance = omega arith;
  }
  Phase-Moves e es s h (stored a t) = record {
    phase = ready a t;
    grows = omega arith;
    within = h;
    outside = λ r far. refl;
    balance = omega (arith, debt-Trace t);
  }

-- In every phase the file holds what `current` says.
pub Phase-below :
    {content file : ℕ → ℕ} {start end p : ℕ} {es : List Effect}
    → Phase content file start end p es
    → Agrees content file start p
Phase-below (ready a t) = a
Phase-below (written a e l t) = λ q lo hi. a q lo (omega arith)
Phase-below (stored a t) = a
