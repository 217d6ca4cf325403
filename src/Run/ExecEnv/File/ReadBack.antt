-- ===== src/Run/ExecEnv/File/ReadBack.antt =====
-- What a reader of the file finds in it (runtime.go: execEnvFile).
use teploy_sandbox.Prelude.{
  ℕ, ◌≡◌, refl, ap, ◌∙◌, inl, inr, Bool, true, false, not, ◌&&◌, none, some, List, [], ◌∷◌, ◌++◌,
  arith, ltb, ◌==◌, if◌then◌else◌, Bool-cases, and_iff, length, all, Text, text_eq, text_eq_iff,
  is_empty, contains, contains_any, split, split_line, contains-append, Table, lookup, ok,
}
use teploy_sandbox.Run.ExecEnv.{
  max_exec_env_vars, validate_exec_env, valid_env_name, is_good_var, is_name_char, is_name_start,
}
use teploy_sandbox.Run.ExecEnv.File.{text_before, place, sort_vars, write_vars, exec_env_file}

-- A line at its first equals sign.
pub read_var : Text → Text × Text
read_var [] = ([], [])
read_var (c ∷ s) = let rest = read_var s in if c == b'=' then ([], s) else (c ∷ rest.0, rest.1)

pub read_vars : List Text → Table Text
read_vars [] = []
read_vars (line ∷ lines) =
    let rest = read_vars lines in if is_empty line then rest else read_var line ∷ rest

-- The variables that a file in docker's format gives.
pub read_env_file : Text → Table Text
read_env_file file = read_vars (split file b'\n')

read_var-name :
    (name value : Text)
    → contains b'=' name ≡ false
    → read_var (name ++ (b'=' ∷ value)) ≡ (name, value)
unfolding read_var contains
read_var-name [] value h = refl
read_var-name (c ∷ name) value h =
    let other : (c == b'=') ≡ false = ground arith in
    let later : contains b'=' name ≡ false = ground arith in
    rw (other, read_var) (rw (read_var-name name value later) refl)

-- A name without an equals sign or a line end, and a value without a line end.
Fits : Text × Text → Type 0
Fits var =
    (contains b'=' var.0 ≡ false) × (contains b'\n' var.0 ≡ false) × (contains b'\n' var.1 ≡ false)

name_char-plain : (c : ℕ) → is_name_char c ≡ true → ((c == b'=') ≡ false) × ((c == b'\n') ≡ false)
unfolding is_name_char is_name_start
name_char-plain c h = (ground arith, ground arith)

name_chars :
    (s : Text) → all is_name_char s ≡ true → (contains b'=' s ≡ false) × (contains b'\n' s ≡ false)
unfolding contains
name_chars [] h = (refl, refl)
name_chars (c ∷ s) h =
    let parts = (and_iff (is_name_char c) (all is_name_char s)).0 h in
    let (first, line) = name_char-plain c parts.0 in
    let (rest, lines) = name_chars s parts.1 in
    (rw (first, contains) rest, rw (line, contains) lines)

no_break :
    (value : Text)
    → contains_any (0 ∷ b'\n' ∷ b'\r' ∷ []) value ≡ false
    → contains b'\n' value ≡ false
unfolding contains contains_any
no_break [] h = refl
no_break (c ∷ value) h = ground (arith, no_break value)

good_name : (name : Text) → valid_env_name name ≡ true → all is_name_char name ≡ true
unfolding valid_env_name is_name_char
good_name [] h = ground arith
good_name (c ∷ s) h = ground arith

good_var-Fits : (var : Text × Text) → is_good_var var ≡ true → Fits var
unfolding is_good_var Fits
good_var-Fits (name, value) h =
    let parts =
      (and_iff (valid_env_name name) (not (contains_any (0 ∷ b'\n' ∷ b'\r' ∷ []) value))).0 h in
    let chars = name_chars name (good_name name parts.0) in
    (chars.0, chars.1, no_break value (ground arith))

line_plain : (var : Text × Text) → Fits var → contains b'\n' (var.0 ++ (b'=' ∷ var.1)) ≡ false
unfolding Fits contains
line_plain var (eq_free, name_free, value_free) =
    contains-append b'\n' var.0 (b'=' ∷ var.1) ∙ rw name_free value_free

line_full : (name value : Text) → is_empty (name ++ (b'=' ∷ value)) ≡ false
line_full [] value = refl
line_full (c ∷ name) value = refl

read_vars-write :
    (vars : Table Text) → all is_good_var vars ≡ true → read_env_file (write_vars vars) ≡ vars
unfolding read_env_file read_vars write_vars split Fits
read_vars-write [] h = refl
read_vars-write (var ∷ rest) h =
    let parts = (and_iff (is_good_var var) (all is_good_var rest)).0 h in
    let fits = good_var-Fits var parts.0 in
    rw (split_line (var.0 ++ (b'=' ∷ var.1)) (write_vars rest) (line_plain var fits)) (
      rw (line_full var.0 var.1) (
        ap (λ t. read_var (var.0 ++ (b'=' ∷ var.1)) ∷ t) (read_vars-write rest parts.1)
        ∙ ap (λ v. v ∷ rest) (read_var-name var.0 var.1 fits.0)))

place-good :
    (var : Text × Text) (vars : Table Text)
    → all is_good_var (place var vars) ≡ (is_good_var var && all is_good_var vars)
unfolding place
place-good var [] = refl
place-good var (first ∷ rest) = elim (Bool-cases (text_before var.0 first.0)) [
  | inl before ↦ rw before refl
  | inr behind ↦ rw behind (
      rw (place-good var rest)
        (swapped (is_good_var first) (is_good_var var) (all is_good_var rest)))
]
  where
    swapped : (a b c : Bool) → (a && (b && c)) ≡ (b && (a && c))
    swapped true true c = refl
    swapped true false c = refl
    swapped false true c = refl
    swapped false false c = refl

sort_vars-good : (vars : Table Text) → all is_good_var (sort_vars vars) ≡ all is_good_var vars
unfolding sort_vars
sort_vars-good [] = refl
sort_vars-good (var ∷ rest) =
    place-good var (sort_vars rest) ∙ ap (λ b. is_good_var var && b) (sort_vars-good rest)

place-lookup :
    (var : Text × Text) (vars : Table Text) (name : Text)
    → lookup var.0 vars ≡ none
    → lookup name (place var vars) ≡ (if text_eq var.0 name then some var.1 else lookup name vars)
unfolding place lookup
place-lookup var [] name h = refl
place-lookup var (first ∷ rest) name h = elim (Bool-cases (text_before var.0 first.0)) [
  | inl before ↦ rw before refl
  | inr behind ↦
      let absent : lookup var.0 rest ≡ none = ground arith in
      let differs : text_eq first.0 var.0 ≡ false =
        ground (arith, h, Bool-cases (text_eq first.0 var.0)) in
      let later = place-lookup var rest name absent in
      rw behind (elim (Bool-cases (text_eq first.0 name)) [
        | inr other ↦ rw (other, lookup) later
        | inl same ↦
            let apart : text_eq var.0 name ≡ false = ground (
              arith,
              same,
              differs,
              text_eq_iff first.0 name,
              text_eq_iff var.0 name,
              text_eq_iff first.0 var.0,
            ) in
            rw (same, lookup) (rw apart refl)
      ])
]

-- Each name stands once, as in any map.
unfoldable pub EachOnce : Table Text → Type 0
EachOnce [] = Unit
EachOnce (var ∷ rest) = (lookup var.0 rest ≡ none) × EachOnce rest

sort_vars-lookup :
    (vars : Table Text) (name : Text)
    → EachOnce vars
    → lookup name (sort_vars vars) ≡ lookup name vars
unfolding sort_vars EachOnce lookup
sort_vars-lookup [] name d = refl
sort_vars-lookup (var ∷ rest) name (new, d) =
    place-lookup var (sort_vars rest) name (sort_vars-lookup rest var.0 d ∙ new)
    ∙ ap (λ o. if text_eq var.0 name then some var.1 else o) (sort_vars-lookup rest name d)

-- Of an environment that ValidateExecEnv accepts, a reader of the file that execEnvFile renders
-- finds every variable with its value and no other variable; the environment has each name once.
pub exec_env_file-read :
    (env : Table Text) (name : Text)
    → EachOnce env
    → validate_exec_env env ≡ ok tt
    → lookup name (read_env_file (exec_env_file env)) ≡ lookup name env
unfolding exec_env_file validate_exec_env
exec_env_file-read env name d h =
    let good : all is_good_var env ≡ true = ground (
      arith,
      h,
      Bool-cases (all is_good_var env),
      Bool-cases (ltb max_exec_env_vars (length env)),
    ) in
    ap (lookup name) (read_vars-write (sort_vars env) (sort_vars-good env ∙ good))
    ∙ sort_vars-lookup env name d
