-- ===== src/Server/Api/Exec/Checks.antt =====
-- The checks of handleExec on a request, spelled out (server.go: handleExec; manager.go:
-- ValidateWorkPath).
use teploy_sandbox.Prelude.{
  ◌≡◌, refl, sym, ap, ◌∙◌, ◌≢◌, ◌↔◌, inl, inr, Bool, true, false, List, [], ◌∷◌, ◌++◌, arith,
  if◌then◌else◌, Bool-cases, any, All, Text, codes, text_eq, text_eq_iff, is_empty, starts, split,
  Result, ok, err, Result-cases,
}
use teploy_sandbox.Run.Paths.{work_dir, is_escape, validate_work_path}
use teploy_sandbox.Run.ExecEnv.{validate_exec_env}
use teploy_sandbox.Run.ExecEnv.Allowed.{IsEnv, validate_exec_env_iff}
use teploy_sandbox.Server.Api.{ExecRequest}
use teploy_sandbox.Server.Api.Exec.{check_exec}

-- A directory to work in: none, or a relative path with no empty segment and none that is "..".
pub data WorksIn (cwd dir : Text) : Type 0 where
  at_work_dir : cwd ≡ [] → dir ≡ [] → WorksIn cwd dir
  below_work_dir :
      cwd ≢ []
      → starts (codes "/") cwd ≡ false
      → All (λ segment. (segment ≢ codes "..") × (segment ≢ [])) (split cwd b'/')
      → dir ≡ codes "/work/" ++ cwd
      → WorksIn cwd dir

both : (b : Bool) → b ≡ true → b ≡ false → ⊥
both b h k = ground arith

unequal : (b : Bool) → (b ≡ true → ⊥) → b ≡ false
unequal true h = absurd (h refl)
unequal false h = refl

nonempty : (s : Text) → is_empty s ≡ false → s ≢ []
nonempty [] h = λ e. cc
nonempty (c ∷ s) h = λ e. cc

filled : (s : Text) → s ≢ [] → is_empty s ≡ false
filled [] h = absurd (h refl)
filled (c ∷ s) h = refl

all_segments :
    (segments : List Text)
    → (any is_escape segments ≡ false)
      ↔ All (λ segment. (segment ≢ codes "..") × (segment ≢ [])) segments
unfolding is_escape
all_segments [] = (λ h. tt, λ h. refl)
all_segments (s ∷ rest) =
    let later = all_segments rest in
    let named = text_eq_iff s (codes "..") in
    (
      λ h.
          let no_dots : text_eq s (codes "..") ≡ false = ground arith in
          let some_name : is_empty s ≡ false = ground arith in
          let others : any is_escape rest ≡ false = ground arith in
          (
            (
              λ e. absurd (both (text_eq s (codes "..")) (named.1 e) no_dots),
              λ e. absurd (nonempty s some_name e),
            ),
            later.0 others,
          ),
      λ ((no_dots, some_name), more).
          rw (unequal (text_eq s (codes "..")) (λ e. no_dots (named.0 e)), filled s some_name)
            (later.1 more),
    )

validate_work_path_iff :
    (path result : Text)
    → (validate_work_path path ≡ ok result) ↔ (
        (path ≢ [])
        × (starts (codes "/") path ≡ false)
        × All (λ segment. (segment ≢ codes "..") × (segment ≢ [])) (split path b'/')
        × (result ≡ codes "/work/" ++ path))
unfolding validate_work_path
validate_work_path_iff path result = (
  λ h.
      let some_path : is_empty path ≡ false = ground (arith, h, Bool-cases (is_empty path)) in
      let relative : starts (codes "/") path ≡ false =
        ground (arith, h, Bool-cases (starts (codes "/") path)) in
      let clean : any is_escape (split path b'/') ≡ false =
        ground (arith, h, Bool-cases (any is_escape (split path b'/'))) in
      let same : result ≡ work_dir ++ (b'/' ∷ path) = ground (arith, h, clean) in
      (nonempty path some_path, relative, (all_segments _).0 clean, same),
  λ (some_path, relative, clean, same).
      rw
        (
          filled path some_path,
          relative,
          (all_segments (split path b'/')).1 clean,
          validate_work_path,
          same,
        )
        refl,
)

abbrev work_in : Text → Result Text
work_in cwd = if is_empty cwd then ok [] else validate_work_path cwd

work_in_iff : (cwd dir : Text) → (work_in cwd ≡ ok dir) ↔ WorksIn cwd dir
work_in_iff [] dir = (
  λ h. at_work_dir refl (cc h),
  λ works. elim works [
    | at_work_dir blank none_given ↦ ap ok (sym none_given)
    | below_work_dir given relative clean same ↦ absurd (given refl)
  ],
)
work_in_iff (c ∷ cwd) dir = (
  λ h.
      let (given, relative, clean, same) = (validate_work_path_iff (c ∷ cwd) dir).0 h in
      below_work_dir given relative clean same,
  λ works. elim works [
    | at_work_dir blank none_given ↦ absurd (cc blank)
    | below_work_dir given relative clean same ↦
        (validate_work_path_iff (c ∷ cwd) dir).1 (given, relative, clean, same)
  ],
)

pub check_exec_iff :
    (req : ExecRequest) (dir : Text)
    → (check_exec req ≡ ok dir) ↔ (WorksIn req.cwd dir × IsEnv req.env)
unfolding check_exec
check_exec_iff req dir = (
  λ h. elim (Result-cases (work_in req.cwd)) [
    | inl (e, k) ↦
        let bad : ◌≡◌ {A = Result Text} (err e) (ok dir) = rw (k, check_exec) at h in
        absurd (cc bad)
    | inr (cwd, k) ↦ elim (Result-cases (validate_exec_env req.env)) [
      | inl (e, f) ↦
          let bad : ◌≡◌ {A = Result Text} (err e) (ok dir) = rw (k, f, check_exec) at h in
          absurd (cc bad)
      | inr (_, f) ↦
          let same : ◌≡◌ {A = Result Text} (ok cwd) (ok dir) = rw (k, f, check_exec) at h in
          ((work_in_iff req.cwd dir).0 (k ∙ same), (validate_exec_env_iff req.env).0 f)
    ]
  ],
  λ (works, env).
      rw ((work_in_iff req.cwd dir).1 works, (validate_exec_env_iff req.env).1 env, check_exec)
        refl,
)
