-- ===== src/Progress/Reports.antt =====
-- `progress_task` and `emit` of src/downloader.rs, and `speed_bps` of src/progress.rs: the
-- progress events of a transfer. What `speed_bps` computes in floating point is a parameter.
use native.Mathlib.Nat.{div-add-mod', mod-lt}
use fast_downloader.Prelude.{
  ℕ, ◌+◌, ◌-◌, ◌*◌, ◌/◌, ◌%◌, ◌≤◌, ◌<◌, ◌≡◌, ◌⊎◌, inl, inr, refl, sym, subst, ap, ◌++◌, All, length,
  true, false, ◌||◌, Option, none, some, List, [], ◌∷◌, leb, ◌==◌, arith, if◌then◌else◌, Bool-cases,
}
use fast_downloader.Download.{DownloadEvent, progress}
use fast_downloader.Progress.{SpeedMeter, new_meter, record_sample}
use fast_downloader.Progress.Window.{
  Sorted, Sorted-later, Sorted-snoc, Ascending, record_sample-IsWindow,
}
use fast_downloader.Progress.Kept.{Keeps, record_sample-Keeps}

-- The bytes of the last sample, or of the one before.
pub last_bytes : ℕ → List (ℕ × ℕ) → ℕ
last_bytes b [] = b
last_bytes b ((t, c) ∷ samples) = last_bytes c samples

-- `eta_secs`
pub eta_of : Option ℕ → ℕ → ℕ → Option ℕ
eta_of none cur speed = none
eta_of (some t) cur speed = if (speed == 0) || leb t cur then none else some ((t - cur) / speed)

-- `rate bytes elapsed window`: the bytes by the seconds of `elapsed`, at least a thousandth and
-- at most `window`, as an integer.
module _ (rate : ℕ → ℕ → ℕ → ℕ) where
  pub speed_of : ℕ → ℕ → List (ℕ × ℕ) → ℕ
  unfolding last_bytes
  speed_of window now [] = 0
  speed_of window now (s ∷ []) = 0
  speed_of window now ((t_old, b_old) ∷ s ∷ samples) =
      rate (last_bytes b_old (s ∷ samples) - b_old) (now - t_old) window

  pub speed_bps : SpeedMeter → ℕ → ℕ
  unfolding speed_of
  speed_bps m now = speed_of m.window now m.samples

  -- At `now`, with the shared count at `cur`: the event, and the meter behind it.
  pub emit : ℕ → Option ℕ → SpeedMeter → ℕ → ℕ → DownloadEvent × SpeedMeter
  unfolding speed_bps eta_of
  emit id total meter now cur =
      let m = record_sample meter now cur in
      let speed = speed_bps m now in (progress id cur total speed (eta_of total cur speed), m)

  -- The `select!` loop, over the ticks that come before the stop, and the `emit` behind it: the
  -- instant and the count that each `emit` finds.
  pub progress_loop :
      ℕ → Option ℕ → SpeedMeter → List (ℕ × ℕ) → ℕ × ℕ → List DownloadEvent × SpeedMeter
  unfolding emit
  progress_loop id total meter [] (now, cur) =
      let e = emit id total meter now cur in (e.0 ∷ [], e.1)
  progress_loop id total meter ((now, cur) ∷ ticks) stop =
      let e = emit id total meter now cur in
      let rest = progress_loop id total e.1 ticks stop in (e.0 ∷ rest.0, rest.1)

  -- The first tick, which comes at once, is thrown away: `ticks` are those behind it.
  unfoldable pub progress_task :
      ℕ → Option ℕ → ℕ → List (ℕ × ℕ) → ℕ × ℕ → List DownloadEvent × SpeedMeter
  unfolding progress_loop
  progress_task id total window ticks stop = progress_loop id total (new_meter window) ticks stop

-- The remaining time: none where the total is unknown, nothing moves, or nothing is left; and
-- else the whole seconds that the rest takes at that speed.
abbrev pub IsEta : Option ℕ → ℕ → ℕ → Option ℕ → Type 0
IsEta none cur speed eta = eta ≡ none
IsEta (some t) cur speed eta =
    ((eta ≡ none) × ((speed ≡ 0) ⊎ (t ≤ cur)))
    ⊎ ((e : ℕ) × (eta ≡ some e) × (cur + e * speed ≤ t) × (t < cur + e * speed + speed))

stops : (t cur speed : ℕ) → ((speed == 0) || leb t cur) ≡ true → (speed ≡ 0) ⊎ (t ≤ cur)
stops t cur speed h = ground arith

goes : (t cur speed : ℕ) → ((speed == 0) || leb t cur) ≡ false → (0 < speed) × (cur < t)
goes t cur speed h = ground arith

eta_of-IsEta : (total : Option ℕ) (cur speed : ℕ) → IsEta total cur speed (eta_of total cur speed)
unfolding eta_of
eta_of-IsEta none cur speed = refl
eta_of-IsEta (some t) cur speed = elim (Bool-cases ((speed == 0) || leb t cur)) [
  | inl stop ↦ rw stop (inl (refl, stops t cur speed stop))
  | inr go ↦
      let whole = div-add-mod' (t - cur) speed in
      let small : (t - cur) % speed < speed = mod-lt (t - cur) (ground arith) in
      rw go (
        inr (
          (t - cur) / speed,
          refl,
          omega (arith, whole, goes t cur speed go),
          omega (arith, whole, small),
        ))
]

-- The speed that a meter shows at `now`, from what it keeps: 0 with one sample, and else the rate from
-- the oldest one to the count `cur` of the moment.
abbrev pub IsSpeed : (ℕ → ℕ → ℕ → ℕ) → ℕ → ℕ → ℕ → List (ℕ × ℕ) → ℕ → Type 0
IsSpeed rate window now cur [] speed = ⊥
IsSpeed rate window now cur (s ∷ []) speed = speed ≡ 0
IsSpeed rate window now cur ((t, b) ∷ s ∷ samples) speed = speed ≡ rate (cur - b) (now - t) window

-- What one event says at a moment, `history` being all moments so far with this one.
pub record Report (rate : ℕ → ℕ → ℕ → ℕ) (id : ℕ) (total : Option ℕ) (window now cur : ℕ)
    (history : List (ℕ × ℕ)) (e : DownloadEvent) : Type 0 where
  pub speed : ℕ
  pub eta : Option ℕ
  pub event : e ≡ progress id cur total speed eta
  pub remaining : IsEta total cur speed eta
  pub samples : List (ℕ × ℕ)
  pub keeps : Keeps window 1024 now history samples
  pub recent : All (λ s. now - s.0 ≤ window) samples
  pub bounded : length samples ≤ 1024
  pub shown : IsSpeed rate window now cur samples speed

-- An event for each moment, in their order.
abbrev pub Reports :
    (ℕ → ℕ → ℕ → ℕ) → ℕ → Option ℕ → ℕ → List (ℕ × ℕ) → List (ℕ × ℕ) → List DownloadEvent → Type 0
Reports rate id total window history [] [] = Unit
Reports rate id total window history ((now, cur) ∷ moments) (e ∷ events) =
    Report rate id total window now cur (history ++ (now, cur) ∷ []) e
    × Reports rate id total window (history ++ (now, cur) ∷ []) moments events
Reports rate id total window history [] (e ∷ events) = ⊥
Reports rate id total window history (m ∷ moments) [] = ⊥

last_bytes-snoc :
    (b : ℕ) (samples : List (ℕ × ℕ)) (t c : ℕ) → last_bytes b (samples ++ (t, c) ∷ []) ≡ c
unfolding last_bytes
last_bytes-snoc b [] t c = refl
last_bytes-snoc b ((u, d) ∷ samples) t c = last_bytes-snoc d samples t c

speed_of-IsSpeed :
    (rate : ℕ → ℕ → ℕ → ℕ) (window now cur : ℕ) (rest : List (ℕ × ℕ))
    → IsSpeed rate window now cur
        (rest ++ (now, cur) ∷ [])
        (speed_of rate window now (rest ++ (now, cur) ∷ []))
unfolding speed_of last_bytes
speed_of-IsSpeed rate window now cur [] = refl
speed_of-IsSpeed rate window now cur ((t, b) ∷ []) = refl
speed_of-IsSpeed rate window now cur ((t, b) ∷ (u, c) ∷ rest) =
    ap (λ x. rate (x - b) (now - t) window) (last_bytes-snoc c rest now cur)

abbrev meter_of : ℕ → List (ℕ × ℕ) → SpeedMeter
meter_of window samples = record { window = window; samples = samples; capacity = 1024 }

module _ (rate : ℕ → ℕ → ℕ → ℕ) (id : ℕ) (total : Option ℕ) (window : ℕ) where
  -- A meter that has recorded `history`, the last of it at `now`.
  record Has (now : ℕ) (history samples : List (ℕ × ℕ)) : Type 0 where
    sorted : Sorted now history
    in_order : Sorted now samples
    keeps : Keeps window 1024 now history samples

  emit-Report :
      (history samples : List (ℕ × ℕ)) (before now cur : ℕ)
      → before ≤ now
      → Has before history samples
      → Report rate id total window now cur
          (history ++ (now, cur) ∷ [])
          (emit rate id total (meter_of window samples) now cur).0
        × Has now
            (history ++ (now, cur) ∷ [])
            (emit rate id total (meter_of window samples) now cur).1.samples
  unfolding emit speed_bps record_sample
  emit-Report history samples before now cur le has =
      let m = meter_of window samples in
      let speed = speed_bps rate (record_sample m now cur) now in
      let good = record_sample-IsWindow m before now cur le has.in_order in
      let (rest, same, keeps) =
        record_sample-Keeps m history before now cur (omega arith) le has.sorted has.keeps in
      let kept : Keeps window 1024 now (history ++ (now, cur) ∷ [])
          (record_sample m now cur).samples =
        subst (Keeps window 1024 now (history ++ (now, cur) ∷ [])) (sym same) keeps in
      (
        record {
          speed = speed;
          eta = eta_of total cur speed;
          event = refl;
          remaining = eta_of-IsEta total cur speed;
          samples = (record_sample m now cur).samples;
          keeps = kept;
          recent = good.recent;
          bounded = good.bounded;
          shown =
              subst (λ xs. IsSpeed rate window now cur xs (speed_of rate window now xs)) (sym same)
                (speed_of-IsSpeed rate window now cur rest);
        },
        record {
          sorted = Sorted-snoc now cur history (Sorted-later before now history le has.sorted);
          in_order = good.sorted;
          keeps = kept;
        },
      )

  progress_loop-Reports :
      (ticks : List (ℕ × ℕ)) (history samples : List (ℕ × ℕ)) (before stop_now stop_cur : ℕ)
      → Ascending before (ticks ++ (stop_now, stop_cur) ∷ [])
      → Has before history samples
      → Reports rate id total window history
          (ticks ++ (stop_now, stop_cur) ∷ [])
          (progress_loop rate id total (meter_of window samples) ticks (stop_now, stop_cur)).0
  unfolding progress_loop emit record_sample
  progress_loop-Reports [] history samples before now cur a has =
      ((emit-Report history samples before now cur a.0 has).0, tt)
  progress_loop-Reports ((now, cur) ∷ ticks) history samples before stop_now stop_cur a has =
      let (report, next) = emit-Report history samples before now cur a.0 has in
      (
        report,
        progress_loop-Reports ticks (history ++ (now, cur) ∷ [])
            (emit rate id total (meter_of window samples) now cur).1.samples now stop_now stop_cur
            a.1 next,
      )

  -- What a consumer of the events sees, for instants that do not decrease: one event for each tick
  -- before the stop and a last one for the stop, each with the task's id, the bytes that were
  -- counted at that moment and the total. The speed shown is 0 where the meter keeps one sample,
  -- and otherwise the rate, whatever function computes it, between the oldest sample kept and the
  -- count of the moment. Of all moments so far the newest are kept, 1024 at most, and none older
  -- than the window; what is not kept is older than the window, unless 1024 are kept. The estimate
  -- is left out where the total is unknown, the speed is 0 or nothing remains, and is otherwise the
  -- whole seconds that the rest takes at the speed shown.
  pub progress_task-Reports :
      (ticks : List (ℕ × ℕ)) (stop_now stop_cur : ℕ)
      → Ascending 0 (ticks ++ (stop_now, stop_cur) ∷ [])
      → Reports rate id total window []
          (ticks ++ (stop_now, stop_cur) ∷ [])
          (progress_task rate id total window ticks (stop_now, stop_cur)).0
  unfolding progress_task new_meter
  progress_task-Reports ticks stop_now stop_cur a =
      progress_loop-Reports ticks [] [] 0 stop_now stop_cur a (record {
        sorted = tt;
        in_order = tt;
        keeps = record { gone = []; parts = refl; why = inl tt };
      })
