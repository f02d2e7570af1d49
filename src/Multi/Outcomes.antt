-- ===== src/Multi/Outcomes.antt =====
-- How `multi_thread` of src/downloader.rs turns the results of its workers into its own, and when
-- it deletes the state file.
use fast_downloader.Prelude.{
  ℕ, ◌≡◌, ◌≢◌, ◌⊎◌, inl, inr, refl, ap, sym, ◌∙◌, Bool, true, false, ◌||◌, Option, none, some, List,
  [], ◌∷◌, arith, ◌==◌, if◌then◌else◌, Bool-cases, Option-cases, ==_iff,
}
use fast_downloader.Prelude.Text.{Text}
use fast_downloader.Error.{
  Error, Result, ok, err, io, cancelled, size_mismatch, is_cancelled, is_resource_changed,
  Result-cases,
}
use fast_downloader.Multi.{
  Joined, finished, panicked, Collected, nothing, keep_first, collect_one, collect, Ended, conclude,
}

-- A worker that was told to stop.
was_cancelled : Joined → Bool
was_cancelled (finished (ok u)) = false
was_cancelled (finished (err e)) = is_cancelled e
was_cancelled (panicked message) = false

-- What else went wrong in a worker.
failure : Joined → Option Error
failure (finished (ok u)) = none
failure (finished (err e)) = if is_cancelled e then none else some e
failure (panicked message) = some (io message)

pub any_cancelled : List Joined → Bool
unfolding was_cancelled
any_cancelled [] = false
any_cancelled (j ∷ js) = was_cancelled j || any_cancelled js

abbrev first_of : Option Error → Option Error → Option Error
first_of none o = o
first_of (some e) o = some e

-- The failure of the first worker, in the order of the ranges, that has one.
pub first_failure : List Joined → Option Error
unfolding failure
first_failure [] = none
first_failure (j ∷ js) = first_of (failure j) (first_failure js)

collect_one-cancelled :
    (c : Collected) (j : Joined) → (collect_one c j).cancelled ≡ (c.cancelled || was_cancelled j)
unfolding collect_one was_cancelled
collect_one-cancelled c (finished (ok u)) = ground arith
collect_one-cancelled c (finished (err e)) = ground arith
collect_one-cancelled c (panicked message) = ground arith

collect_one-first_error :
    (c : Collected) (j : Joined)
    → (collect_one c j).first_error ≡ first_of c.first_error (failure j)
unfolding collect_one failure keep_first
collect_one-first_error c (finished (ok u)) = ground arith
collect_one-first_error c (finished (err e)) = ground arith
collect_one-first_error c (panicked message) = ground arith

first_of_assoc : (a b c : Option Error) → first_of (first_of a b) c ≡ first_of a (first_of b c)
first_of_assoc none b c = refl
first_of_assoc (some e) b c = refl

first_of-none : (a : Option Error) → first_of a none ≡ a
first_of-none none = refl
first_of-none (some e) = refl

collect_lem :
    (c : Collected) (js : List Joined)
    → ((collect c js).cancelled ≡ (c.cancelled || any_cancelled js))
      × ((collect c js).first_error ≡ first_of c.first_error (first_failure js))
unfolding collect any_cancelled first_failure
collect_lem c [] = (ground arith, sym (first_of-none c.first_error))
collect_lem c (j ∷ js) =
    let (stopped, failed) = collect_lem (collect_one c j) js in
    (
      ground (arith, stopped, collect_one-cancelled c j),
      failed
          ∙ ap (λ o. first_of o (first_failure js)) (collect_one-first_error c j)
          ∙ first_of_assoc c.first_error (failure j) (first_failure js),
    )

-- The end `x` that the results of the workers call for.
abbrev pub Concluded : List Joined → ℕ → ℕ → Text → Result (Unit {0}) → Ended → Type 0
Concluded js total size path reopened x =
    ((any_cancelled js ≡ true) × (x ≡ record { result = err cancelled; state_deleted = false }))
    ⊎ ((any_cancelled js ≡ false)
        × (((e : Error) × (first_failure js ≡ some e)
              × (x ≡ record { result = err e; state_deleted = is_resource_changed e }))
            ⊎ ((first_failure js ≡ none)
                × (((total ≢ size)
                      × (x ≡ record {
                        result = err (size_mismatch size total);
                        state_deleted = false;
                      }))
                    ⊎ ((total ≡ size)
                        × (((e : Error) × (reopened ≡ err e)
                              × (x ≡ record { result = err e; state_deleted = false }))
                            ⊎ ((reopened ≡ ok tt)
                                × (x ≡ record { result = ok path; state_deleted = true }))))))))

-- A cancelled worker makes the result `Cancelled`, whatever else went wrong; otherwise the first
-- failure in the order of the ranges is the result; otherwise a byte count that is not the size is
-- an error; otherwise the result is the path, if the file opens again. The state file is deleted
-- with the path, and with `ResourceChanged` as the first failure, and is kept in the other cases.
pub conclude-collect :
    (js : List Joined) (total size : ℕ) (path : Text) (reopened : Result (Unit {0}))
    → Concluded js total size path reopened (conclude (collect nothing js) total size path reopened)
unfolding conclude
conclude-collect js total size path reopened =
    let (stopped, failed) = collect_lem nothing js in
    elim (Bool-cases (any_cancelled js)) [
      | inl a ↦ inl (a, rw (stopped, a) refl)
      | inr a ↦ elim (Option-cases (first_failure js)) [
        | inr (e, f) ↦ inr (a, inl (e, f, rw (stopped, a, failed, f) refl))
        | inl f ↦ elim (Bool-cases (total == size)) [
          | inr n ↦
              inr (a, inr (f, inl (λ e. absurd (ground arith), rw (stopped, a, failed, f, n) refl)))
          | inl t ↦
              let same = (==_iff total size).0 t in
              elim (Result-cases reopened) [
                | inr (e, o) ↦
                    inr (a, inr (f, inr (same, inl (e, o, rw (stopped, a, failed, f, t, o) refl))))
                | inl (u, o) ↦
                    inr (a, inr (f, inr (same, inr (o, rw (stopped, a, failed, f, t, o) refl))))
              ]
        ]
      ]
    ]
