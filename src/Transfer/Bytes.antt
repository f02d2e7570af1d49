-- ===== src/Transfer/Bytes.antt =====
-- src/downloader.rs: with an honest server no effect of a worker spoils a byte that is right.
use fast_downloader.Prelude.{
  ℕ, zero, suc, ◌≡◌, ap, ◌∙◌, Option, none, some, List, [], ◌∷◌, ◌==◌, ==_iff, Bool-cases, inl, inr,
}
use fast_downloader.Worker.{Effect}
use fast_downloader.Worker.Trace.{Matches, torn, landed}
use fast_downloader.Transfer.{Task, Transfer, write, on_file, on_count, next_effect, step}
use fast_downloader.Transfer.Phase.{Phase, ready, written, stored}
use fast_downloader.Transfer.Steps.{Safe, IsSound}

-- Every byte that is right in the first file is right in the second.
abbrev pub Improves : (ℕ → ℕ) → (ℕ → ℕ) → (ℕ → ℕ) → Type 0
Improves content file other = (q : ℕ) → file q ≡ content q → other q ≡ content q

write-Improves :
    (content file : ℕ → ℕ) (p : ℕ) (b : List ℕ)
    → Matches content p b
    → Improves content file (write file p b)
unfolding write
write-Improves content file p [] m q h = h
write-Improves content file p (x ∷ b) m q h = elim (Bool-cases (p == q)) [
  | inl here ↦ rw here (m.0 ∙ ap content ((==_iff p q).0 here))
  | inr there ↦ rw there (write-Improves content file (suc p) b m.1 q h)
]

Phase-Improves :
    (content file : ℕ → ℕ) (start end p : ℕ) (e : Effect) (es : List Effect)
    → Phase content file start end p (e ∷ es)
    → Improves content file (on_file e file)
unfolding on_file
Phase-Improves content file start end p e es (ready a (torn {b = b} m l t)) =
    write-Improves content file p b m
Phase-Improves content file start end p e es (ready a (landed {b = b} m eq q l t)) =
    write-Improves content file p b m
Phase-Improves content file start end p e es (written a q l t) = λ r h. h
Phase-Improves content file start end p e es (stored a t) = λ r h. h

abbrev NextImproves : (ℕ → ℕ) → (ℕ → ℕ) → Option (Effect × List Task) → Type 0
NextImproves content file none = Unit
NextImproves content file (some (e, ts)) = Improves content file (on_file e file)

later_task :
    (content file : ℕ → ℕ) (t : Task) (o : Option (Effect × List Task))
    → NextImproves content file o
    → NextImproves content file (elim o as (λ _. Option (Effect × List Task)) [
      | none ↦ none
      | some (e, ts') ↦ some (e, t ∷ ts')
    ])
later_task content file t none k = tt
later_task content file t (some (e, ts)) k = k

first_task :
    (content file : ℕ → ℕ) (start end current : ℕ) (pending : List Effect) (ts : List Task)
    → Phase content file start end current pending
    → NextImproves content file (
        next_effect
          (record { start = start; end = end; current = current; pending = pending } ∷ ts)
          zero)
unfolding next_effect
first_task content file start end current [] ts s = tt
first_task content file start end current (e ∷ es) ts s =
    Phase-Improves content file start end current e es s

next_effect-Improves :
    (content file : ℕ → ℕ) (i lo hi : ℕ) (ts : List Task)
    → Safe content file lo hi ts
    → NextImproves content file (next_effect ts i)
unfolding next_effect
next_effect-Improves content file i lo hi [] s = tt
next_effect-Improves content file zero lo hi (t ∷ ts) s =
    first_task content file t.start t.end t.current t.pending ts s.3
next_effect-Improves content file (suc i) lo hi (t ∷ ts) s =
    later_task content file t (next_effect ts i)
      (next_effect-Improves content file i t.end hi ts s.4)

step_next :
    (content : ℕ → ℕ) (s : Transfer) (o : Option (Effect × List Task))
    → NextImproves content s.handed o
    → Improves content s.handed
        (elim o as (λ _. Transfer) [
          | none ↦ s
          | some (e, ts) ↦ record {
            handed = on_file e s.handed;
            downloaded = on_count e s.downloaded;
            tasks = ts;
          }
        ]).handed
step_next content s none k = λ q h. h
step_next content s (some (e, ts)) k = k

pub step-Improves :
    (content : ℕ → ℕ) (size : ℕ) (s : Transfer) (i : ℕ)
    → IsSound content size s
    → Improves content s.handed (step s i).handed
unfolding step
step-Improves content size s i sound =
    step_next content s (next_effect s.tasks i)
      (next_effect-Improves content s.handed i 0 size s.tasks sound.safe)
