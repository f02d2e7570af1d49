-- ===== src/Disposition/Rounds.antt =====
-- src/filename.rs: the loop of `parse_params` moves forward in each round, so that it ends, and what
-- it has read by then.
use fast_downloader.Prelude.{
  ℕ, zero, suc, ◌≤◌, ◌≡◌, ◌≢◌, inl, inr, refl, sym, subst, ap, Bool, none, some, Option-cases, List,
  [], ◌∷◌, length, ◌==◌, ==_iff, Bool-cases, arith,
}
use fast_downloader.Prelude.Text.{Text, drop_while}
use fast_downloader.Disposition.{
  Param, is_ws, scan, ends_name, ends_value, push, quoted_value, token_value, param_value,
  behind_name, value_of, keep_param, one_param, params_loop, parse_params,
}

drop_while-length : (p : ℕ → Bool) (s : Text) → length (drop_while p s) ≤ length s
unfolding drop_while
drop_while-length p [] = omega arith
drop_while-length p (c ∷ s) = ground (arith, drop_while-length p s)

scan-length : (p : ℕ → Bool) (s : Text) → length (scan p s).1 ≤ length s
unfolding scan
scan-length p [] = omega arith
scan-length p (c ∷ s) = ground (arith, scan-length p s)

push-rest : (c : ℕ) (r : Text × Text) → (push c r).1 ≡ r.1
unfolding push
push-rest c (buf, rest) = refl

quoted_value-length : (s : Text) → length (quoted_value s).1 ≤ length s
unfolding quoted_value
quoted_value-length [] = omega arith
quoted_value-length (c ∷ []) = elim (Bool-cases (c == b'"')) [
  | inl e ↦ rw e (omega arith)
  | inr e ↦ rw e (omega (arith, ap length (push-rest c ([], []))))
]
quoted_value-length (c ∷ d ∷ s) = elim (Bool-cases (c == b'"')) [
  | inl e ↦ rw (quoted_value, e) (omega arith)
  | inr e ↦ elim (Bool-cases (c == b'\\')) [
    | inl f ↦
        rw (quoted_value, e, f)
          (omega (arith, ap length (push-rest d (quoted_value s)), quoted_value-length s))
    | inr f ↦
        rw (quoted_value, e, f)
          (omega
            (arith, ap length (push-rest c (quoted_value (d ∷ s))), quoted_value-length (d ∷ s)))
  ]
]

param_value-length : (s : Text) → length (param_value s).1 ≤ length s
unfolding param_value token_value
param_value-length [] = scan-length ends_value []
param_value-length (c ∷ s) = elim (Bool-cases (c == b'"')) [
  | inl e ↦ rw e (omega (arith, quoted_value-length s))
  | inr e ↦ rw e (scan-length ends_value (c ∷ s))
]

behind_name-length : (s : Text) → length (behind_name s).1 ≤ length s
unfolding behind_name
behind_name-length [] = omega arith
behind_name-length (c ∷ t) = elim (Bool-cases (c == b'=')) [
  | inl e ↦ rw e (omega (arith, param_value-length (drop_while is_ws t), drop_while-length is_ws t))
  | inr e ↦ rw e (omega arith)
]

value_of-length : (s : Text) → length (value_of s).1 ≤ length s
unfolding value_of
value_of-length s =
    omega (arith, behind_name-length (drop_while is_ws s), drop_while-length is_ws s)

-- It matters only how the loop goes on behind the parameter.
one_param-same :
    (f g : Text → List Param) (p : Text × Text)
    → ((s : Text) → length s ≤ length p.1 → f s ≡ g s)
    → one_param f p ≡ one_param g p
unfolding one_param
one_param-same f g ([], rest) same = same rest (omega arith)
one_param-same f g (c ∷ name, rest) same =
    ap (keep_param (c ∷ name) (value_of rest).0) (same (value_of rest).1 (value_of-length rest))

-- More rounds than there are characters change nothing.
params_loop-enough :
    (n m : ℕ) (s : Text) → length s ≤ n → length s ≤ m → params_loop n s ≡ params_loop m s
unfolding params_loop
params_loop-enough zero zero s h k = refl
params_loop-enough zero (suc m) [] h k = refl
params_loop-enough zero (suc m) (c ∷ s) h k = absurd (omega arith)
params_loop-enough (suc n) zero [] h k = refl
params_loop-enough (suc n) zero (c ∷ s) h k = absurd (omega arith)
params_loop-enough (suc n) (suc m) [] h k = refl
params_loop-enough (suc n) (suc m) (c ∷ s) h k =
    let le : length (scan ends_name (drop_while is_ws s)).1 ≤ length s =
      omega (arith, scan-length ends_name (drop_while is_ws s), drop_while-length is_ws s) in
    elim (Bool-cases (c == b';')) [
      | inl e ↦
          rw (params_loop, e)
            (one_param-same (params_loop n) (params_loop m) (scan ends_name (drop_while is_ws s))
              (λ t l. params_loop-enough n m t (omega arith) (omega arith)))
      | inr e ↦ rw (params_loop, e) (params_loop-enough n m s (omega arith) (omega arith))
    ]

-- More rounds than there are characters behind the type change nothing.
pub parse_params-rounds :
    (input : Text) (n : ℕ)
    → length (scan ends_value (drop_while is_ws input)).1 ≤ n
    → params_loop n (scan ends_value (drop_while is_ws input)).1 ≡ parse_params input
unfolding parse_params
parse_params-rounds input n h =
    params_loop-enough n _ (scan ends_value (drop_while is_ws input)).1 h (omega arith)

-- A run of the loop that ends, from the characters that are left, with the parameters that it adds:
-- round for round as the loop is written, with no count of rounds.
pub data LoopEnds : Text → List Param → Type 0 where
  at_end : LoopEnds [] []
  skips : {c : ℕ} {s : Text} {ps : List Param} → c ≢ b';' → LoopEnds s ps → LoopEnds (c ∷ s) ps
  no_name :
      {s rest : Text} {ps : List Param}
      → scan ends_name (drop_while is_ws s) ≡ ([], rest)
      → LoopEnds rest ps
      → LoopEnds (b';' ∷ s) ps
  no_value :
      {s rest name : Text} {c : ℕ} {ps : List Param}
      → scan ends_name (drop_while is_ws s) ≡ (c ∷ name, rest)
      → (value_of rest).0 ≡ none
      → LoopEnds (value_of rest).1 ps
      → LoopEnds (b';' ∷ s) ps
  keeps :
      {s rest name value : Text} {c : ℕ} {ps : List Param}
      → scan ends_name (drop_while is_ws s) ≡ (c ∷ name, rest)
      → (value_of rest).0 ≡ some value
      → LoopEnds (value_of rest).1 ps
      → LoopEnds (b';' ∷ s) (record { name = c ∷ name; value = value } ∷ ps)

one_param-LoopEnds :
    (loop : Text → List Param) (s : Text) (p : Text × Text)
    → scan ends_name (drop_while is_ws s) ≡ p
    → ((t : Text) → length t ≤ length p.1 → LoopEnds t (loop t))
    → LoopEnds (b';' ∷ s) (one_param loop p)
unfolding one_param keep_param
one_param-LoopEnds loop s ([], rest) e ends = no_name e (ends rest (omega arith))
one_param-LoopEnds loop s (c ∷ name, rest) e ends = elim (Option-cases (value_of rest).0) [
  | inl nothing ↦ rw nothing (no_value e nothing (ends (value_of rest).1 (value_of-length rest)))
  | inr (value, v) ↦ rw v (keeps e v (ends (value_of rest).1 (value_of-length rest)))
]

params_loop-LoopEnds : (n : ℕ) (s : Text) → length s ≤ n → LoopEnds s (params_loop n s)
unfolding params_loop
params_loop-LoopEnds zero [] h = at_end
params_loop-LoopEnds zero (c ∷ s) h = absurd (omega arith)
params_loop-LoopEnds (suc n) [] h = at_end
params_loop-LoopEnds (suc n) (c ∷ s) h =
    let le : length (scan ends_name (drop_while is_ws s)).1 ≤ length s =
      omega (arith, scan-length ends_name (drop_while is_ws s), drop_while-length is_ws s) in
    elim (Bool-cases (c == b';')) [
      | inl e ↦
          subst (λ x. LoopEnds (x ∷ s) (params_loop (suc n) (x ∷ s))) (sym ((==_iff c b';').0 e))
            (one_param-LoopEnds (params_loop n) s (scan ends_name (drop_while is_ws s)) refl
              (λ t l. params_loop-LoopEnds n t (omega arith)))
      | inr e ↦
          rw (params_loop, e)
            (skips (λ x. ground (arith, e, x)) (params_loop-LoopEnds n s (omega arith)))
    ]

-- Whatever the header, the loop over the parameters ends, and `parse_params` is the list that it has
-- read by then: a run of finitely many rounds, each as the loop is written (`LoopEnds`), leads from
-- what is behind the disposition type to the end of the header.
pub parse_params-LoopEnds :
    (input : Text) → LoopEnds (scan ends_value (drop_while is_ws input)).1 (parse_params input)
unfolding parse_params
parse_params-LoopEnds input =
    params_loop-LoopEnds _ (scan ends_value (drop_while is_ws input)).1 (omega arith)
