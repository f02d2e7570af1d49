-- ===== src/Transfer/Completion.antt =====
-- The multi-thread transfer of src/downloader.rs to its end: when every worker has returned without
-- an error and has done what it had to do, the byte count is the file's size. And an interrupted
-- transfer followed by a second one from the saved state.
use fast_downloader.Prelude.{
  ℕ, zero, suc, ◌+◌, ◌≤◌, ◌<◌, ◌≡◌, inl, inr, refl, sym, subst, ap, ◌∙◌, Option, none, some, List,
  [], ◌∷◌, arith, All, leb, Bool-cases,
}
use fast_downloader.Prelude.Text.{Text}
use fast_downloader.Error.{ok}
use fast_downloader.Config.{DownloaderConfig}
use fast_downloader.State.{WorkerRange, new, with_resource_id, validate}
use fast_downloader.State.Partition.{Tiles, Tiles-le}
use fast_downloader.State.Validity.{validate-IsValid}
use fast_downloader.Worker.{Effect, write_at, store_current, fetch_add, Round, current_after}
use fast_downloader.Worker.Trace.{max_slice}
use fast_downloader.Worker.Loop.{IsHonest, worker_loop-IsFaithful}
use fast_downloader.Transfer.{
  Task, Transfer, on_file, on_current, on_count, next_effect, step, spawn, begin, run, snapshot,
}
use fast_downloader.Transfer.Phase.{Agrees, debt}
use fast_downloader.Transfer.Steps.{Safe, progress, owed, run-IsSound}
use fast_downloader.Transfer.Safety.{
  Holds, loops, begin-IsSound, snapshot_sound, downloaded_complete,
}

-- What a task has yet to do takes it to the end of its range.
abbrev Arrives : List Task → Type 0
Arrives = All (λ t. current_after t.current t.pending ≡ t.end)

-- No task has anything left to do.
abbrev pub Finished : Transfer → Type 0
Finished s = All (λ t. t.pending ≡ []) s.tasks

current_after-cons :
    (e : Effect) (es : List Effect) (c : ℕ)
    → current_after c (e ∷ es) ≡ current_after (on_current e c) es
unfolding current_after on_current
current_after-cons (write_at p b) es c = refl
current_after-cons (store_current v) es c = refl
current_after-cons (fetch_add n) es c = refl

ArrivesNext : Option (Effect × List Task) → Type 0
ArrivesNext none = Unit
ArrivesNext (some (e, ts)) = Arrives ts

first_task :
    (start end current : ℕ) (pending : List Effect) (ts : List Task)
    → current_after current pending ≡ end
    → Arrives ts
    → ArrivesNext (
        next_effect
          (record { start = start; end = end; current = current; pending = pending } ∷ ts)
          zero)
unfolding next_effect ArrivesNext
first_task start end current [] ts h a = tt
first_task start end current (e ∷ es) ts h a = (sym (current_after-cons e es current) ∙ h, a)

later_task :
    (t : Task) (o : Option (Effect × List Task))
    → current_after t.current t.pending ≡ t.end
    → ArrivesNext o
    → ArrivesNext (elim o as (λ _. Option (Effect × List Task)) [
      | none ↦ none
      | some (e, ts') ↦ some (e, t ∷ ts')
    ])
unfolding ArrivesNext
later_task t none h a = tt
later_task t (some (e, ts)) h a = (h, a)

next_effect-Arrives : (i : ℕ) (ts : List Task) → Arrives ts → ArrivesNext (next_effect ts i)
unfolding next_effect ArrivesNext
next_effect-Arrives i [] a = tt
next_effect-Arrives zero (t ∷ ts) a = first_task t.start t.end t.current t.pending ts a.0 a.1
next_effect-Arrives (suc i) (t ∷ ts) a =
    later_task t (next_effect ts i) a.0 (next_effect-Arrives i ts a.1)

step-Arrives :
    (s : Transfer) (o : Option (Effect × List Task))
    → Arrives s.tasks
    → ArrivesNext o
    → Arrives
        (elim o as (λ _. Transfer) [
          | none ↦ s
          | some (e, ts) ↦ record {
            handed = on_file e s.handed;
            downloaded = on_count e s.downloaded;
            tasks = ts;
          }
        ]).tasks
unfolding ArrivesNext
step-Arrives s none h a = h
step-Arrives s (some (e, ts)) h a = a

run-Arrives : (s : Transfer) (schedule : List ℕ) → Arrives s.tasks → Arrives (run s schedule).tasks
unfolding run step
run-Arrives s [] h = h
run-Arrives s (i ∷ schedule) h =
    run-Arrives (step s i) schedule
      (step-Arrives s (next_effect s.tasks i) h (next_effect-Arrives i s.tasks h))

-- Tasks that arrive and have nothing left to do are at their ends.
progress-Finished :
    (content file : ℕ → ℕ) (lo hi : ℕ) (ts : List Task)
    → Safe content file lo hi ts
    → Arrives ts
    → All (λ t. t.pending ≡ []) ts
    → (lo + progress ts ≡ hi) × (owed ts ≡ 0)
unfolding progress owed current_after debt
progress-Finished content file lo hi [] s a f = omega arith
progress-Finished content file lo hi (t ∷ ts) s a f =
    let c : current_after t.current [] ≡ t.end =
      subst (λ x. current_after t.current x ≡ t.end) f.0 a.0 in
    let d : debt t.pending ≡ 0 = ap debt f.0 in
    let (full, none_owed) = progress-Finished content file t.end hi ts s.4 a.1 f.1 in
    (omega (arith, full, c), omega (arith, none_owed, d))

module _ (content : ℕ → ℕ) (cfg : DownloaderConfig) (if_range : Option Text)
    (rounds : WorkerRange → List Round) where
  -- Every worker's loop returned without an error.
  abbrev pub AllOk : List WorkerRange → Type 0
  AllOk = All (λ w. (loops cfg if_range rounds w).1 ≡ some (ok tt))

  spawn-Arrives :
      (lo hi : ℕ) (ws : List WorkerRange)
      → hi ≤ max_slice
      → Tiles lo hi ws
      → All (λ w. All (IsHonest content) (rounds w)) ws
      → AllOk ws
      → Arrives (spawn (loops cfg if_range rounds) ws)
  unfolding spawn current_after
  spawn-Arrives lo hi [] bound t honest oks = tt
  spawn-Arrives lo hi (w ∷ ws) bound t honest oks =
      let le = Tiles-le w.end hi ws t.3 in
      (
        (elim (Bool-cases (leb w.end w.start)) [
          | inl empty ↦ rw empty (ground arith)
          | inr some_bytes ↦ rw some_bytes (
              (worker_loop-IsFaithful content cfg w.end if_range 0 w.current (rounds w) t.2
                  (omega arith) honest.0).1
                oks.0)
        ]),
        spawn-Arrives w.end hi ws bound t.3 honest.1 oks.1,
      )

  -- When all workers have returned without an error, and all that they did has happened, in any
  -- order, the byte count is the file's size, at most 2^63: the final test of `multi_thread`
  -- passes. The server sends no other bytes than the resource's and no 416, and the transfer starts
  -- from ranges that tile the file and name what it holds.
  pub AllOk-downloaded :
      (file : ℕ → ℕ) (size : ℕ) (ws : List WorkerRange) (schedule : List ℕ)
      → size ≤ max_slice
      → Tiles 0 size ws
      → Holds content file ws
      → All (λ w. All (IsHonest content) (rounds w)) ws
      → AllOk ws
      → Finished (run (begin file ws (loops cfg if_range rounds)) schedule)
      → (run (begin file ws (loops cfg if_range rounds)) schedule).downloaded ≡ size
  unfolding begin
  AllOk-downloaded file size ws schedule bound t h honest oks finished =
      let s0 = begin file ws (loops cfg if_range rounds) in
      let s = run s0 schedule in
      let sound =
        run-IsSound content size s0 schedule (omega arith)
          (begin-IsSound content cfg if_range rounds file size ws bound t h honest) in
      let arrives = run-Arrives s0 schedule (spawn-Arrives 0 size ws bound t honest oks) in
      let (full, none_owed) =
        progress-Finished content s.handed 0 size s.tasks sound.safe arrives finished in
      omega (arith, sound.counted, full, none_owed)

-- A download of 1 to 2^63 bytes that is interrupted at any moment and resumed from the state saved
-- then, with another configuration and another course of events, ends with the resource in the file
-- if the second run's byte count is the file's size. In both runs the server sends no other bytes
-- than the resource's and no 416, and the first starts from ranges that tile the file and name what
-- it holds.
pub resume_complete :
    (content : ℕ → ℕ) (cfg cfg' : DownloaderConfig) (if_range if_range' : Option Text)
    (rounds rounds' : WorkerRange → List Round) (file : ℕ → ℕ) (size : ℕ) (ws : List WorkerRange)
    (schedule schedule' : List ℕ) (url : Text) (etag last_modified : Option Text) (first : Transfer)
    (saved : List WorkerRange)
    → 0 < size
    → size ≤ max_slice
    → Tiles 0 size ws
    → Holds content file ws
    → All (λ w. All (IsHonest content) (rounds w)) ws
    → first ≡ run (begin file ws (loops cfg if_range rounds)) schedule
    → saved ≡ (snapshot url size etag last_modified first).workers
    → All (λ w. All (IsHonest content) (rounds' w)) saved
    → (run (begin first.handed saved (loops cfg' if_range' rounds')) schedule').downloaded ≡ size
    → Agrees content
        (run (begin first.handed saved (loops cfg' if_range' rounds')) schedule').handed
        0
        size
unfolding snapshot new with_resource_id
resume_complete content cfg cfg' ir ir' rounds rounds' file size ws sch sch' url etag lm first saved
      pos bound t h honest e s honest' total =
    let sound =
      snapshot_sound content cfg ir rounds file size ws sch url etag lm pos bound t h honest in
    let (valid, holds) =
      subst
        (λ (x : Transfer).
          (validate (snapshot url size etag lm x) ≡ ok tt)
          × Holds content x.handed (snapshot url size etag lm x).workers)
        (sym e) sound in
    let v = (validate-IsValid (snapshot url size etag lm first)).0 valid in
    downloaded_complete content cfg' ir' rounds' first.handed size saved sch' bound
      (subst (Tiles 0 size) (sym s) v.tiles) (subst (Holds content first.handed) (sym s) holds)
      honest' total
