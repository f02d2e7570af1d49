-- ===== src/Disposition/Written.antt =====
-- src/filename.rs: parameters as a server writes them, quoted or as a token, and what is read of
-- them.
use fast_downloader.Prelude.{
  ℕ, zero, suc, ◌≤◌, ◌≡◌, inl, inr, refl, sym, ap, subst, ◌∙◌, Bool, true, false, ◌||◌, Option,
  some, List, [], ◌∷◌, ◌++◌, map, length, length-append, All, ◌==◌, if◌then◌else◌, Bool-cases,
  arith,
}
use mathlib.Core.List.{append_assoc}
use fast_downloader.Prelude.Text.{Text, as_bytes, trim, drop_while}
use fast_downloader.Disposition.{
  Param, is_ws, scan, ends_name, ends_value, push, quoted_value, token_value, param_value,
  behind_name, value_of, keep_param, one_param, params_loop, parse_params,
}

-- A value inside quotes: a backslash before each quote and each backslash.
pub escape : Text → Text
escape [] = []
escape (c ∷ s) = if (c == b'"') || (c == b'\\') then b'\\' ∷ c ∷ escape s else c ∷ escape s

pub data Written : Type 0 where
  quoted : Text → Text → Written
  token : Text → Text → Written

pub write_param : Written → Text
unfolding escape
write_param (quoted name value) = b';' ∷ b' ' ∷ (name ++ b'=' ∷ b'"' ∷ (escape value ++ b'"' ∷ []))
write_param (token name value) = b';' ∷ b' ' ∷ (name ++ b'=' ∷ value)

pub write_params : List Written → Text
unfolding write_param
write_params [] = []
write_params (p ∷ ps) = write_param p ++ write_params ps

-- What the code reads: the characters of a token, and of a quoted value one for each byte.
abbrev pub read_param : Written → Param
read_param (quoted name value) = record { name = name; value = as_bytes value }
read_param (token name value) = record { name = name; value = value }

-- A name has a character, and none that ends it.
abbrev pub IsName : Text → Type 0
IsName [] = ⊥
IsName (c ∷ s) = All (λ b. ends_name b ≡ false) (c ∷ s)

-- A token has no `;`, does not look quoted, and has no white space around it.
abbrev pub IsToken : Text → Type 0
IsToken [] = ⊥
IsToken (c ∷ s) =
    ((c == b'"') ≡ false)
    × (is_ws c ≡ false)
    × All (λ b. ends_value b ≡ false) (c ∷ s)
    × (trim (c ∷ s) ≡ c ∷ s)

abbrev pub IsWritten : Written → Type 0
IsWritten (quoted name value) = IsName name
IsWritten (token name value) = IsName name × IsToken value

-- Nothing is left, or the next parameter is.
abbrev IsRest : Text → Type 0
IsRest [] = Unit
IsRest (c ∷ s) = c ≡ b';'

scan-stop :
    (p : ℕ → Bool) (xs : Text) (c : ℕ) (s : Text)
    → All (λ b. p b ≡ false) xs
    → p c ≡ true
    → scan p (xs ++ c ∷ s) ≡ (xs, c ∷ s)
unfolding scan
scan-stop p [] c s h stop = ground arith
scan-stop p (x ∷ xs) c s h stop =
    rw (scan, h.0) (ap (λ (r : Text × Text). (x ∷ r.0, r.1)) (scan-stop p xs c s h.1 stop))

quoted_plain :
    (c : ℕ) (t : Text)
    → (c == b'"') ≡ false
    → (c == b'\\') ≡ false
    → quoted_value (c ∷ t) ≡ push c (quoted_value t)
unfolding quoted_value
quoted_plain c [] q b = rw q refl
quoted_plain c (d ∷ t) q b = rw (quoted_value, q, b) refl

quoted_escaped : (c : ℕ) (t : Text) → quoted_value (b'\\' ∷ c ∷ t) ≡ push c (quoted_value t)
unfolding quoted_value
quoted_escaped c t = refl

-- The escapes are undone.
pub quoted_value-escape :
    (v rest : Text) → quoted_value (escape v ++ b'"' ∷ rest) ≡ (as_bytes v, rest)
unfolding escape as_bytes
quoted_value-escape [] [] = unfold quoted_value in refl
quoted_value-escape [] (c ∷ rest) = unfold quoted_value in refl
quoted_value-escape (c ∷ v) rest = elim (Bool-cases ((c == b'"') || (c == b'\\'))) [
  | inl special ↦ rw special (
      quoted_escaped c (escape v ++ b'"' ∷ rest)
      ∙ ap (push c) (quoted_value-escape v rest)
      ∙ unfold push in refl)
  | inr normal ↦ rw normal (
      quoted_plain c (escape v ++ b'"' ∷ rest) (ground arith) (ground arith)
      ∙ ap (push c) (quoted_value-escape v rest)
      ∙ unfold push in refl)
]

drop_ws : (c : ℕ) (s : Text) → is_ws c ≡ false → drop_while is_ws (c ∷ s) ≡ c ∷ s
unfolding drop_while
drop_ws c s h = rw h refl

value_of-quoted :
    (v rest : Text) → value_of (b'=' ∷ b'"' ∷ (escape v ++ b'"' ∷ rest)) ≡ (some (as_bytes v), rest)
unfolding value_of behind_name param_value drop_while is_ws
value_of-quoted v rest = rw (quoted_value-escape v rest) refl

scan-rest :
    (xs rest : Text)
    → All (λ b. ends_value b ≡ false) xs
    → IsRest rest
    → scan ends_value (xs ++ rest) ≡ (xs, rest)
unfolding scan ends_value
scan-rest [] [] h r = refl
scan-rest [] (c ∷ rest) h r = ground (arith, r)
scan-rest (x ∷ xs) rest h r =
    rw (scan, h.0) (ap (λ (r : Text × Text). (x ∷ r.0, r.1)) (scan-rest xs rest h.1 r))

param_value-token :
    (c : ℕ) (v rest : Text)
    → (c == b'"') ≡ false
    → All (λ b. ends_value b ≡ false) (c ∷ v)
    → trim (c ∷ v) ≡ c ∷ v
    → IsRest rest
    → param_value (c ∷ (v ++ rest)) ≡ (c ∷ v, rest)
unfolding param_value token_value
param_value-token c v rest not_quote plain trimmed r =
    rw (not_quote, scan-rest (c ∷ v) rest plain r, trimmed) refl

value_of-token :
    (v rest : Text) → IsToken v → IsRest rest → value_of (b'=' ∷ (v ++ rest)) ≡ (some v, rest)
unfolding value_of behind_name drop_while is_ws
value_of-token [] rest h r = absurd h
value_of-token (c ∷ v) rest (not_quote, not_ws, plain, trimmed) r =
    rw not_ws (rw (param_value-token c v rest not_quote plain trimmed r) refl)

not_ws : (c : ℕ) → ends_name c ≡ false → is_ws c ≡ false
unfolding ends_name
not_ws c h = ground arith

stops : ends_name b'=' ≡ true
unfolding ends_name
stops = refl

drop_space : (c : ℕ) (s : Text) → is_ws c ≡ false → drop_while is_ws (b' ' ∷ c ∷ s) ≡ c ∷ s
unfolding drop_while is_ws
drop_space c s h = drop_ws c s h

-- A round of the loop at a parameter with a name and a value.
loop-param :
    (k : ℕ) (name t : Text)
    → IsName name
    → params_loop (suc k) (b';' ∷ b' ' ∷ (name ++ b'=' ∷ t))
      ≡ keep_param name (value_of (b'=' ∷ t)).0 (params_loop k (value_of (b'=' ∷ t)).1)
unfolding params_loop
loop-param k [] t h = absurd h
loop-param k (c ∷ name) t h =
    ap (λ (f : Text × Text). one_param (params_loop k) f)
      (ap (scan ends_name) (drop_space c (name ++ b'=' ∷ t) (not_ws c h.0))
        ∙ scan-stop ends_name (c ∷ name) b'=' t h stops)
    ∙ unfold one_param in refl

pub loop-written :
    (k : ℕ) (w : Written) (rest : Text)
    → IsWritten w
    → IsRest rest
    → params_loop (suc k) (write_param w ++ rest) ≡ read_param w ∷ params_loop k rest
unfolding write_param keep_param
loop-written k (quoted name v) rest h r = simp append_assoc (
    loop-param k name (b'"' ∷ (escape v ++ b'"' ∷ rest)) h
    ∙ ap (λ (r : Option Text × Text). keep_param name r.0 (params_loop k r.1))
        (value_of-quoted v rest))
loop-written k (token name v) rest (n, h) r = simp append_assoc (
    loop-param k name (v ++ rest) n
    ∙ ap (λ (r : Option Text × Text). keep_param name r.0 (params_loop k r.1))
        (value_of-token v rest h r))

write_params-IsRest : (ws : List Written) → IsRest (write_params ws)
unfolding write_params write_param
write_params-IsRest [] = tt
write_params-IsRest (quoted name v ∷ ws) = refl
write_params-IsRest (token name v ∷ ws) = refl

write_param-length : (w : Written) → 1 ≤ length (write_param w)
unfolding write_param
write_param-length (quoted name v) = omega arith
write_param-length (token name v) = omega arith

loop-write_params :
    (k : ℕ) (ws : List Written)
    → All IsWritten ws
    → length (write_params ws) ≤ k
    → params_loop k (write_params ws) ≡ map read_param ws
unfolding write_params
loop-write_params zero [] h le = unfold params_loop in refl
loop-write_params (suc k) [] h le = unfold params_loop in refl
loop-write_params zero (w ∷ ws) h le =
    absurd
      (omega (arith, write_param-length w, length-append {0} (write_param w) (write_params ws)))
loop-write_params (suc k) (w ∷ ws) h le =
    loop-written k w (write_params ws) h.0 (write_params-IsRest ws)
    ∙ ap (λ (ps : List Param). read_param w ∷ ps)
        (loop-write_params k ws h.1 (
          omega (arith, write_param-length w, length-append {0} (write_param w) (write_params ws))))

-- The disposition type is skipped.
skip_type :
    (disposition : Text) (rest : Text)
    → All (λ b. ends_value b ≡ false) disposition
    → IsRest rest
    → (scan ends_value (drop_while is_ws (disposition ++ rest))).1 ≡ rest
unfolding drop_while
skip_type [] [] h r = unfold scan in refl
skip_type [] (c ∷ rest) h r =
    subst (λ (b : ℕ). (scan ends_value (drop_while is_ws (b ∷ rest))).1 ≡ b ∷ rest) (sym r)
      (unfold scan ends_value is_ws in refl)
skip_type (c ∷ d) rest h r = elim (Bool-cases (is_ws c)) [
  | inl ws ↦ rw ws (skip_type d rest h.1 r)
  | inr not ↦ rw not (ap (λ (r : Text × Text). r.1) (scan-rest (c ∷ d) rest h r))
]

-- A header is read as it is written. After a disposition type without `;`, parameters in quotes
-- or as tokens are parsed to the same names in the same order, if each name is not empty and
-- without `=`, `;` and white space, and a token's value is not empty and has no `;`, no white
-- space around it and no quote in front. A token's value comes out as it is, a quoted one with
-- one character for each of its UTF-8 bytes.
pub parse_params-write :
    (disposition : Text) (ws : List Written)
    → All (λ b. ends_value b ≡ false) disposition
    → All IsWritten ws
    → parse_params (disposition ++ write_params ws) ≡ map read_param ws
unfolding parse_params
parse_params-write d ws h k =
    rw (parse_params, skip_type d (write_params ws) h (write_params-IsRest ws))
      (loop-write_params (length (write_params ws)) ws k (omega arith))
