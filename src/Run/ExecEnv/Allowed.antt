-- ===== src/Run/ExecEnv/Allowed.antt =====
-- What ValidateExecEnv asks of an environment, spelled out (manager.go: ValidateExecEnv,
-- validEnvName).
use teploy_sandbox.Prelude.{
  ℕ, ◌+◌, ◌≤◌, ◌≡◌, refl, ◌↔◌, ◌⊎◌, inl, inr, true, false, [], ◌∷◌, ◌++◌, arith, Bool-cases, length,
  all, All, Text, contains_any, byte_length, Table, ok,
}
use teploy_sandbox.Run.ExecEnv.{
  is_name_start, is_name_char, valid_env_name, is_good_var, env_bytes, validate_exec_env,
}

-- A letter or an underscore.
abbrev pub IsLetter : ℕ → Type 0
IsLetter c = (c ≡ b'_') ⊎ ((b'A' ≤ c) × (c ≤ b'Z')) ⊎ ((b'a' ≤ c) × (c ≤ b'z'))

-- The name of a variable: a letter, and then letters and digits.
pub data IsName : Text → Type 0 where
  named :
      (first : ℕ) (rest : Text)
      → IsLetter first
      → All (λ c. IsLetter c ⊎ ((b'0' ≤ c) × (c ≤ b'9'))) rest
      → IsName (first ∷ rest)

-- What an environment is made of.
unfoldable pub written : Table Text → Text
written [] = []
written (var ∷ env) = var.0 ++ (var.1 ++ written env)

-- At most 64 variables of at most 64 KiB in all, each with a name of letters, digits and
-- underscores that a digit does not begin, and a value with no NUL and no line break.
pub record IsEnv (env : Table Text) : Type 0 where
  pub few : length env ≤ 64
  pub small : byte_length (written env) ≤ 65536
  pub vars :
      All
        (λ (var : Text × Text).
          IsName var.0 × (contains_any (0 ∷ b'\n' ∷ b'\r' ∷ []) var.1 ≡ false))
        env

is_name_start_iff : (c : ℕ) → (is_name_start c ≡ true) ↔ IsLetter c
unfolding is_name_start
is_name_start_iff c = (
  λ h. ground (arith, h),
  λ l. elim l [
    | inl e ↦ ground (arith, e)
    | inr (inl (low, high)) ↦ ground (arith, low, high)
    | inr (inr (low, high)) ↦ ground (arith, low, high)
  ],
)

is_name_char_iff : (c : ℕ) → (is_name_char c ≡ true) ↔ (IsLetter c ⊎ ((b'0' ≤ c) × (c ≤ b'9')))
unfolding is_name_char
is_name_char_iff c = (
  λ h. elim (Bool-cases (is_name_start c)) [
    | inl letter ↦ inl ((is_name_start_iff c).0 letter)
    | inr other ↦ inr (ground (arith, h, other), ground (arith, h, other))
  ],
  λ l. elim l [
    | inl letter ↦ ground (arith, (is_name_start_iff c).1 letter)
    | inr (low, high) ↦ ground (arith, low, high)
  ],
)

name_chars_iff :
    (s : Text) → (all is_name_char s ≡ true) ↔ All (λ c. IsLetter c ⊎ ((b'0' ≤ c) × (c ≤ b'9'))) s
name_chars_iff [] = (λ h. tt, λ h. refl)
name_chars_iff (c ∷ s) =
    let later = name_chars_iff s in
    (
      λ h. ((is_name_char_iff c).0 (ground (arith, h)), later.0 (ground (arith, h))),
      λ (here, more). rw ((is_name_char_iff c).1 here) (later.1 more),
    )

valid_env_name_iff : (name : Text) → (valid_env_name name ≡ true) ↔ IsName name
unfolding valid_env_name
valid_env_name_iff [] = (λ h. absurd (cc h), λ n. elim n [ ])
valid_env_name_iff (c ∷ s) = (
  λ h.
      named c s ((is_name_start_iff c).0 (ground (arith, h)))
        ((name_chars_iff s).0 (ground (arith, h))),
  λ n. elim n [
    | named first rest letter chars ↦
        rw ((is_name_start_iff c).1 letter) ((name_chars_iff s).1 chars)
  ],
)

byte_length-append : (a b : Text) → byte_length (a ++ b) ≡ byte_length a + byte_length b
unfolding byte_length
byte_length-append [] b = omega arith
byte_length-append (c ∷ a) b = omega (arith, byte_length-append a b)

byte_length-written : (env : Table Text) → byte_length (written env) ≡ env_bytes env
unfolding written env_bytes byte_length
byte_length-written [] = refl
byte_length-written ((name, value) ∷ env) = omega (
  arith,
  byte_length-append name (value ++ written env),
  byte_length-append value (written env),
  byte_length-written env,
)

all_vars :
    (env : Table Text)
    → (all is_good_var env ≡ true)
      ↔ All
          (λ (var : Text × Text).
            IsName var.0 × (contains_any (0 ∷ b'\n' ∷ b'\r' ∷ []) var.1 ≡ false))
          env
unfolding is_good_var
all_vars [] = (λ h. tt, λ h. refl)
all_vars ((name, value) ∷ rest) =
    let later = all_vars rest in
    (
      λ h. (
        ((valid_env_name_iff name).0 (ground (arith, h)), ground (arith, h)),
        later.0 (ground (arith, h)),
      ),
      λ (here, more). ground (arith, (valid_env_name_iff name).1 here.0, here.1, later.1 more),
    )

pub validate_exec_env_iff : (env : Table Text) → (validate_exec_env env ≡ ok tt) ↔ IsEnv env
unfolding validate_exec_env
validate_exec_env_iff env = (
  λ h. record {
    few = ground (arith, h, Bool-cases (all is_good_var env));
    small = ground (arith, h, Bool-cases (all is_good_var env), byte_length-written env);
    vars = (all_vars env).0 (ground (arith, h, Bool-cases (all is_good_var env)));
  },
  λ e. ground (arith, e.few, e.small, byte_length-written env, (all_vars env).1 e.vars),
)
