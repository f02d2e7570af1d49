-- ===== src/Progress/Window.antt =====
-- The samples of a `SpeedMeter` of src/progress.rs: bounded in number, in order, none too old.
use fast_downloader.Prelude.{
  ℕ, ◌-◌, ◌≤◌, inl, inr, List, [], ◌∷◌, ◌++◌, length, arith, ltb, Bool-cases, All, All-map, ltb→ge,
}
use fast_downloader.Progress.{
  SpeedMeter, new_meter, drop_old, drop_excess, record_sample, record_all,
}

-- The times do not decrease, and none is after `now`.
abbrev pub Sorted : ℕ → List (ℕ × ℕ) → Type 0
Sorted now [] = Unit
Sorted now ((t, b) ∷ samples) = (t ≤ now) × All (λ s. t ≤ s.0) samples × Sorted now samples

-- What holds of a meter after a sample at `now`.
pub record IsWindow (m : SpeedMeter) (now : ℕ) : Type 0 where
  pub sorted : Sorted now m.samples
  pub recent : All (λ s. now - s.0 ≤ m.window) m.samples
  pub bounded : length m.samples ≤ m.capacity

module _ (P : ℕ × ℕ → Type 0) where
  All-drop_excess : (n : ℕ) (samples : List (ℕ × ℕ)) → All P samples → All P (drop_excess n samples)
  unfolding drop_excess
  All-drop_excess n [] h = tt
  All-drop_excess n (s ∷ samples) h = elim (Bool-cases (ltb n (length (s ∷ samples)))) [
    | inl over ↦ rw (drop_excess, over) (All-drop_excess n samples h.1)
    | inr fits ↦ rw (drop_excess, fits) h
  ]

  All-snoc-sample :
      (samples : List (ℕ × ℕ)) (s : ℕ × ℕ) → All P samples → P s → All P (samples ++ s ∷ [])
  All-snoc-sample [] s h p = (p, tt)
  All-snoc-sample (x ∷ samples) s h p = (h.0, All-snoc-sample samples s h.1 p)

pub Sorted-later :
    (now later : ℕ) (samples : List (ℕ × ℕ))
    → now ≤ later
    → Sorted now samples
    → Sorted later samples
Sorted-later now later [] h s = tt
Sorted-later now later ((t, b) ∷ samples) h s =
    (omega (arith, s.0), s.1, Sorted-later now later samples h s.2)

pub Sorted-snoc :
    (now b : ℕ) (samples : List (ℕ × ℕ))
    → Sorted now samples
    → Sorted now (samples ++ (now, b) ∷ [])
Sorted-snoc now b [] s = (omega arith, tt, tt)
Sorted-snoc now b ((t, c) ∷ samples) s =
    (s.0, All-snoc-sample (λ x. t ≤ x.0) samples (now, b) s.1 s.0, Sorted-snoc now b samples s.2)

drop_old-Sorted :
    (window now : ℕ) (samples : List (ℕ × ℕ))
    → Sorted now samples
    → Sorted now (drop_old window now samples)
unfolding drop_old
drop_old-Sorted window now [] s = tt
drop_old-Sorted window now ((t, b) ∷ samples) s = elim (Bool-cases (ltb window (now - t))) [
  | inl old ↦ rw (drop_old, old) (drop_old-Sorted window now samples s.2)
  | inr new ↦ rw (drop_old, new) s
]

drop_old-recent :
    (window now : ℕ) (samples : List (ℕ × ℕ))
    → Sorted now samples
    → All (λ s. now - s.0 ≤ window) (drop_old window now samples)
unfolding drop_old
drop_old-recent window now [] s = tt
drop_old-recent window now ((t, b) ∷ samples) s = elim (Bool-cases (ltb window (now - t))) [
  | inl old ↦ rw (drop_old, old) (drop_old-recent window now samples s.2)
  | inr new ↦
      rw (drop_old, new)
        (
          ltb→ge window (now - t) new,
          All-map samples (λ x le. omega (arith, le, ltb→ge window (now - t) new)) s.1,
        )
]

drop_excess-Sorted :
    (now n : ℕ) (samples : List (ℕ × ℕ)) → Sorted now samples → Sorted now (drop_excess n samples)
unfolding drop_excess
drop_excess-Sorted now n [] s = tt
drop_excess-Sorted now n ((t, b) ∷ samples) s =
    elim (Bool-cases (ltb n (length ((t, b) ∷ samples)))) [
      | inl over ↦ rw (drop_excess, over) (drop_excess-Sorted now n samples s.2)
      | inr fits ↦ rw (drop_excess, fits) s
    ]

length-drop_excess : (n : ℕ) (samples : List (ℕ × ℕ)) → length (drop_excess n samples) ≤ n
unfolding drop_excess
length-drop_excess n [] = omega arith
length-drop_excess n (s ∷ samples) = elim (Bool-cases (ltb n (length (s ∷ samples)))) [
  | inl over ↦ rw (drop_excess, over) (length-drop_excess n samples)
  | inr fits ↦ rw (drop_excess, fits) (ltb→ge n (length (s ∷ samples)) fits)
]

pub record_sample-IsWindow :
    (m : SpeedMeter) (before now b : ℕ)
    → before ≤ now
    → Sorted before m.samples
    → IsWindow (record_sample m now b) now
unfolding record_sample
record_sample-IsWindow m before now b le s =
    let later = Sorted-later before now m.samples le s in
    let kept = drop_old m.window now m.samples in
    record {
      sorted =
          drop_excess-Sorted now m.capacity (kept ++ (now, b) ∷ [])
            (Sorted-snoc now b kept (drop_old-Sorted m.window now m.samples later));
      recent =
          All-drop_excess (λ x. now - x.0 ≤ m.window) m.capacity (kept ++ (now, b) ∷ [])
            (All-snoc-sample (λ x. now - x.0 ≤ m.window) kept (now, b)
              (drop_old-recent m.window now m.samples later) (omega arith));
      bounded = length-drop_excess m.capacity (kept ++ (now, b) ∷ []);
    }

-- Times that do not decrease, from `before` on.
abbrev pub Ascending : ℕ → List (ℕ × ℕ) → Type 0
Ascending before [] = Unit
Ascending before ((now, b) ∷ more) = (before ≤ now) × Ascending now more

-- The last of them.
pub last_time : ℕ → List (ℕ × ℕ) → ℕ
last_time before [] = before
last_time before ((now, b) ∷ more) = last_time now more

record_all-Sorted-IsWindow :
    (m : SpeedMeter) (before now b : ℕ) (more : List (ℕ × ℕ))
    → Sorted before m.samples
    → Ascending before ((now, b) ∷ more)
    → IsWindow (record_all m ((now, b) ∷ more)) (last_time before ((now, b) ∷ more))
unfolding record_all last_time
record_all-Sorted-IsWindow m before now b [] s a = record_sample-IsWindow m before now b a.0 s
record_all-Sorted-IsWindow m before now b ((now', b') ∷ more) s a =
    record_all-Sorted-IsWindow (record_sample m now b) now now' b' more
      (record_sample-IsWindow m before now b a.0 s).sorted a.1

-- After any samples at times that do not decrease, one at least, the meter's samples are in the
-- order of their times, none is older than the window at the last time, and there are no more
-- than its capacity.
pub record_all-IsWindow :
    (window now b : ℕ) (more : List (ℕ × ℕ))
    → Ascending 0 ((now, b) ∷ more)
    → IsWindow (record_all (new_meter window) ((now, b) ∷ more)) (last_time 0 ((now, b) ∷ more))
unfolding new_meter
record_all-IsWindow window now b more a =
    record_all-Sorted-IsWindow (new_meter window) 0 now b more tt a
