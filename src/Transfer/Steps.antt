-- ===== src/Transfer/Steps.antt =====
-- Steps of the interleaved transfer of src/downloader.rs keep every worker's phase.
use fast_downloader.Prelude.{
  ℕ, zero, suc, ◌+◌, ◌-◌, ◌≤◌, ◌<◌, ◌≡◌, ◌⊎◌, inl, inr, Option, none, some, List, [], ◌∷◌, arith,
}
use fast_downloader.Prelude.Words.{u64_mod, add_u64}
use fast_downloader.Worker.{Effect, write_at, store_current, fetch_add}
use fast_downloader.Transfer.{Task, Transfer, on_file, on_count, next_effect, step, run}
use fast_downloader.Transfer.Phase.{Phase, Phase-Agrees, Phase-Moves, debt, added_by}

-- The tasks' ranges tile `[lo, hi)`, and each task is in a phase.
abbrev pub Safe : (ℕ → ℕ) → (ℕ → ℕ) → ℕ → ℕ → List Task → Type 0
Safe content file lo hi [] = lo ≡ hi
Safe content file lo hi (t ∷ ts) =
    (t.start ≡ lo)
    × (t.start ≤ t.current)
    × (t.current ≤ t.end)
    × Phase content file t.start t.end t.current t.pending
    × Safe content file t.end hi ts

-- The bytes below the tasks' positions, and those of them that are not counted yet.
unfoldable pub progress : List Task → ℕ
progress [] = 0
progress (t ∷ ts) = (t.current - t.start) + progress ts

unfoldable pub owed : List Task → ℕ
owed [] = 0
owed (t ∷ ts) = debt t.pending + owed ts

pub Safe-le :
    (content file : ℕ → ℕ) (lo hi : ℕ) (ts : List Task) → Safe content file lo hi ts → lo ≤ hi
Safe-le content file lo hi [] s = omega arith
Safe-le content file lo hi (t ∷ ts) s = omega (arith, Safe-le content file t.end hi ts s.4)

pub progress-le :
    (content file : ℕ → ℕ) (lo hi : ℕ) (ts : List Task)
    → Safe content file lo hi ts
    → lo + progress ts ≤ hi
unfolding progress
progress-le content file lo hi [] s = omega arith
progress-le content file lo hi (t ∷ ts) s = omega (arith, progress-le content file t.end hi ts s.4)

Safe-Agrees :
    (content file other : ℕ → ℕ) (lo hi : ℕ) (ts : List Task)
    → ((q : ℕ) → lo ≤ q → q < hi → other q ≡ file q)
    → Safe content file lo hi ts
    → Safe content other lo hi ts
Safe-Agrees content file other lo hi [] same s = s
Safe-Agrees content file other lo hi (t ∷ ts) same s =
    let le = Safe-le content file t.end hi ts s.4 in
    (
      s.0,
      s.1,
      s.2,
      Phase-Agrees other s.2 (λ q l h. same q (omega arith) (omega arith)) s.3,
      Safe-Agrees content file other t.end hi ts (λ q l h. same q (omega arith) h) s.4,
    )

-- What one effect does to tasks that tile `[lo, hi)`.
pub record Keeps (content file : ℕ → ℕ) (lo hi : ℕ) (ts : List Task) (e : Effect) (ts' : List Task)
    : Type 0 where
  pub safe : Safe content (on_file e file) lo hi ts'
  pub outside : (q : ℕ) → (q < lo) ⊎ (hi ≤ q) → on_file e file q ≡ file q
  pub balance : added_by e + owed ts' + progress ts ≡ owed ts + progress ts'

abbrev KeepsNext : (ℕ → ℕ) → (ℕ → ℕ) → ℕ → ℕ → List Task → Option (Effect × List Task) → Type 0
KeepsNext content file lo hi ts none = Unit
KeepsNext content file lo hi ts (some (e, ts')) = Keeps content file lo hi ts e ts'

module _ (content file : ℕ → ℕ) where
  first_task :
      (lo hi start end current : ℕ) (pending : List Effect) (ts : List Task)
      → let t : Task = record { start = start; end = end; current = current; pending = pending } in
        Safe content file lo hi (t ∷ ts)
        → KeepsNext content file lo hi (t ∷ ts) (next_effect (t ∷ ts) zero)
  unfolding next_effect progress owed
  first_task lo hi start end current [] ts s = tt
  first_task lo hi start end current (e ∷ es) ts s =
      let m = Phase-Moves content file start end e es s.1 s.2 s.3 in
      let le = Safe-le content file end hi ts s.4 in
      record {
        safe = (
          s.0,
          omega (arith, m.grows),
          m.within,
          m.phase,
          Safe-Agrees content file (on_file e file) end hi ts (λ q l h. m.outside q (inr l)) s.4,
        );
        outside = λ q far. m.outside q (omega (arith, far, le, s.0));
        balance = omega (arith, m.balance, m.grows);
      }

  later_task :
      (lo hi : ℕ) (t : Task) (ts : List Task) (o : Option (Effect × List Task))
      → Safe content file lo hi (t ∷ ts)
      → KeepsNext content file t.end hi ts o
      → KeepsNext content file lo hi (t ∷ ts) (elim o as (λ _. Option (Effect × List Task)) [
        | none ↦ none
        | some (e, ts') ↦ some (e, t ∷ ts')
      ])
  unfolding progress owed
  later_task lo hi t ts none s k = tt
  later_task lo hi t ts (some (e, ts')) s k = record {
    safe = (
      s.0,
      s.1,
      s.2,
      Phase-Agrees (on_file e file) s.2 (λ q l h. k.outside q (inl h)) s.3,
      k.safe,
    );
    outside = λ q far. k.outside q (omega (arith, far, s.0, s.1, s.2));
    balance = omega (arith, k.balance);
  }

  pub next_effect-Keeps :
      (i lo hi : ℕ) (ts : List Task)
      → Safe content file lo hi ts
      → KeepsNext content file lo hi ts (next_effect ts i)
  unfolding next_effect
  next_effect-Keeps i lo hi [] s = tt
  next_effect-Keeps zero lo hi (t ∷ ts) s = first_task lo hi t.start t.end t.current t.pending ts s
  next_effect-Keeps (suc i) lo hi (t ∷ ts) s =
      later_task lo hi t ts (next_effect ts i) s (next_effect-Keeps i t.end hi ts s.4)

-- The invariant of the transfer: the tasks tile the file in their phases, and the shared count is
-- what lies below their positions, less what they owe.
pub record IsSound (content : ℕ → ℕ) (size : ℕ) (s : Transfer) : Type 0 where
  pub safe : Safe content s.handed 0 size s.tasks
  pub counted : s.downloaded + owed s.tasks ≡ progress s.tasks

on_count-added_by : (e : Effect) (d : ℕ) → d + added_by e < u64_mod → on_count e d ≡ d + added_by e
unfolding on_count added_by add_u64
on_count-added_by (write_at p b) d h = omega arith
on_count-added_by (store_current v) d h = omega arith
on_count-added_by (fetch_add n) d h = omega arith

step_next :
    (content : ℕ → ℕ) (size : ℕ) (s : Transfer) (o : Option (Effect × List Task))
    → size < u64_mod
    → IsSound content size s
    → KeepsNext content s.handed 0 size s.tasks o
    → IsSound content size (elim o as (λ _. Transfer) [
      | none ↦ s
      | some (e, ts) ↦ record {
        handed = on_file e s.handed;
        downloaded = on_count e s.downloaded;
        tasks = ts;
      }
    ])
step_next content size s none bound inv k = inv
step_next content size s (some (e, ts)) bound inv k = record {
  safe = k.safe;
  counted = omega (
    arith,
    k.balance,
    inv.counted,
    on_count-added_by e s.downloaded,
    progress-le content (on_file e s.handed) 0 size ts k.safe,
  );
}

pub step-IsSound :
    (content : ℕ → ℕ) (size : ℕ) (s : Transfer) (i : ℕ)
    → size < u64_mod
    → IsSound content size s
    → IsSound content size (step s i)
unfolding step
step-IsSound content size s i bound inv =
    step_next content size s (next_effect s.tasks i) bound inv
      (next_effect-Keeps content s.handed i 0 size s.tasks inv.safe)

pub run-IsSound :
    (content : ℕ → ℕ) (size : ℕ) (s : Transfer) (schedule : List ℕ)
    → size < u64_mod
    → IsSound content size s
    → IsSound content size (run s schedule)
unfolding run
run-IsSound content size s [] bound inv = inv
run-IsSound content size s (i ∷ schedule) bound inv =
    run-IsSound content size (step s i) schedule bound (step-IsSound content size s i bound inv)
