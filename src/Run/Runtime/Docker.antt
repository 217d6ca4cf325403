-- ===== src/Run/Runtime/Docker.antt =====
-- The docker commands of runtime.go that a call gives one after another, and what it does when one
-- fails. What docker and the file system answer is an argument that may depend on all that was done
-- before; a call adds its commands to a log, newest first.
pub mod Settled
pub mod Deadline
mod Examples
use teploy_sandbox.Prelude.{
  ℕ, zero, suc, ◌+◌, ◌/◌, ◌⊎◌, inl, inr, Bool, true, false, ◌||◌, Option, none, some, List, [], ◌∷◌,
  ◌++◌, ltb, if◌then◌else◌, length, Text, codes, text_eq, is_space, trim_space, is_empty, split,
  join, Result, ok, err, internal,
}
use teploy_sandbox.Run.Manager.Request.{CreateSpec}
use teploy_sandbox.Run.Runtime.Args.{DockerRuntime, Printer, create_args}

pub data DockerCommand : Type 0 where
  runs : List Text → DockerCommand
  inspects removes unlinks : Text → DockerCommand
  removes_all : List Text → DockerCommand
  commits commits_labelled creates copies : Text → Text → DockerCommand
  lists : DockerCommand

-- The arguments that docker gets.
unfoldable pub args_of : DockerCommand → List Text
args_of (runs args) = args
args_of (inspects id) = codes "inspect" ∷ codes "-f" ∷ codes "{{.State.Running}}" ∷ id ∷ []
args_of (removes id) = codes "rm" ∷ codes "-f" ∷ id ∷ []
args_of (unlinks ref) = codes "rmi" ∷ ref ∷ []
args_of (removes_all ids) = codes "rm" ∷ codes "-f" ∷ ids
args_of (commits id ref) = codes "commit" ∷ id ∷ ref ∷ []
args_of (commits_labelled id ref) =
    codes "commit" ∷ codes "--change" ∷ codes "LABEL teploy.sandbox.snapshot=1" ∷ id ∷ ref ∷ []
args_of (creates name ref) = codes "create" ∷ codes "--name" ∷ name ∷ ref ∷ []
args_of (copies from to) = codes "cp" ∷ from ∷ to ∷ []
args_of lists = codes "ps" ∷ codes "-aq" ∷ codes "--filter" ∷ codes "label=teploy.sandbox=1" ∷ []

-- A command with its failure or its output, or a temporary directory that comes or goes.
pub data Entry : Type 0 where
  called : DockerCommand → Text ⊎ Text → Entry
  made dropped : Text → Entry

abbrev pub Log : Type 0
Log = List Entry

-- How a command ends, with a failure or with its output, and os.MkdirTemp.
pub record Host : Type 0 where
  pub docker : Log → List Text → Text ⊎ Text
  pub temp_dir : Log → Option Text

unfoldable pub reply_to : Host → DockerCommand → Log → Text ⊎ Text
unfolding args_of
reply_to h c log = h.docker log (args_of c)

-- The log behind a command.
unfoldable pub after : Host → DockerCommand → Log → Log
unfolding reply_to
after h c log = called c (reply_to h c log) ∷ log

-- The error of a command.
unfoldable pub to_result : Text ⊎ Text → Result (Unit {0})
to_result (inl e) = err internal
to_result (inr out) = ok tt

-- DockerRuntime.Remove.
unfoldable pub force_remove : Host → Text → Log → Result (Unit {0}) × Log
unfolding after reply_to to_result
force_remove h id log = (to_result (reply_to h (removes id) log), after h (removes id) log)

-- DockerRuntime.RemoveImage.
unfoldable pub unlink_image : Host → Text → Log → Result (Unit {0}) × Log
unfolding after reply_to to_result
unlink_image h ref log = (to_result (reply_to h (unlinks ref) log), after h (unlinks ref) log)

-- filepath.Base and filepath.Dir of a cleaned absolute path, as ValidateWarmPath returns it.
unfoldable pub last_part : List Text → Text
last_part [] = []
last_part (p ∷ []) = p
last_part (p ∷ q ∷ ps) = last_part (q ∷ ps)

unfoldable pub front_parts : List Text → List Text
front_parts [] = []
front_parts (p ∷ []) = []
front_parts (p ∷ q ∷ ps) = p ∷ front_parts (q ∷ ps)

unfoldable pub base_name : Text → Text
unfolding last_part
base_name path = last_part (split path b'/')

unfoldable pub dir_name : Text → Text
unfolding front_parts
dir_name path =
    let front = join (front_parts (split path b'/')) b'/' in
    if is_empty front then codes "/" else front

-- `container:path`.
unfoldable pub at : Text → Text → Text
at id path = id ++ b':' ∷ path

-- The image that a snapshot is staged in.
abbrev pub staging : Text → Text
staging ref = ref ++ codes "-stage"

-- Snapshot of a run with a warm volume; `seed` is the temporary container's name.
module _ (h : Host) (id volume ref seed : Text) where
  -- `fail`, and the end of a snapshot that has succeeded.
  unfoldable pub clear : Log → Log
  unfolding after
  clear log = after h (unlinks (staging ref)) (after h (removes seed) log)

  unfoldable pub baked : Text ⊎ Text → Log → Result (Unit {0}) × Log
  unfolding clear to_result
  baked a log = (to_result a, clear log)

  unfoldable pub copied_in : Text ⊎ Text → Log → Result (Unit {0}) × Log
  unfolding clear baked reply_to after
  copied_in (inl e) log = (err internal, clear log)
  copied_in (inr out) log =
      let c = commits_labelled seed ref in baked (reply_to h c log) (after h c log)

  unfoldable pub copied_out : Text → Text ⊎ Text → Log → Result (Unit {0}) × Log
  unfolding clear copied_in reply_to after at
  copied_out tmp (inl e) log = (err internal, clear log)
  copied_out tmp (inr out) log =
      let c = copies (tmp ++ b'/' ∷ base_name volume) (at seed (dir_name volume)) in
      copied_in (reply_to h c log) (after h c log)

  unfoldable pub cloned : Text → Text ⊎ Text → Log → Result (Unit {0}) × Log
  unfolding copied_out reply_to after at
  cloned tmp (inl e) log = (err internal, after h (unlinks (staging ref)) log)
  cloned tmp (inr out) log =
      let c = copies (at id volume) tmp in copied_out tmp (reply_to h c log) (after h c log)

  -- With the temporary directory, which goes when the call returns.
  unfoldable pub with_temp : Option Text → Log → Result (Unit {0}) × Log
  unfolding cloned reply_to after
  with_temp none log = (err internal, after h (unlinks (staging ref)) log)
  with_temp (some tmp) log =
      let c = creates seed (staging ref) in
      let made_log = made tmp ∷ log in
      let r = cloned tmp (reply_to h c made_log) (after h c made_log) in (r.0, dropped tmp ∷ r.1)

  unfoldable pub staged : Text ⊎ Text → Log → Result (Unit {0}) × Log
  unfolding with_temp
  staged (inl e) log = (err internal, log)
  staged (inr out) log = with_temp (h.temp_dir log) log

  -- DockerRuntime.Snapshot.
  unfoldable pub snapshot_run : Log → Result (Unit {0}) × Log
  unfolding staged reply_to after to_result
  snapshot_run log =
      if is_empty volume
      then (
        to_result (reply_to h (commits_labelled id ref) log),
        after h (commits_labelled id ref) log,
      )
      else let c = commits id (staging ref) in staged (reply_to h c log) (after h c log)

-- SeedVolume.
module _ (h : Host) (id volume ref seed : Text) where
  unfoldable pub filled : Text ⊎ Text → Log → Result (Unit {0}) × Log
  unfolding after to_result
  filled a log = (to_result a, after h (removes seed) log)

  unfoldable pub fetched : Text → Text ⊎ Text → Log → Result (Unit {0}) × Log
  unfolding filled after reply_to at
  fetched tmp (inl e) log = (err internal, after h (removes seed) log)
  fetched tmp (inr out) log =
      let c = copies (tmp ++ b'/' ∷ base_name volume) (at id (dir_name volume)) in
      filled (reply_to h c log) (after h c log)

  unfoldable pub sown : Text → Text ⊎ Text → Log → Result (Unit {0}) × Log
  unfolding fetched after reply_to at
  sown tmp (inl e) log = (err internal, log)
  sown tmp (inr out) log =
      let c = copies (at seed volume) tmp in fetched tmp (reply_to h c log) (after h c log)

  unfoldable pub seed_in : Option Text → Log → Result (Unit {0}) × Log
  unfolding sown after reply_to
  seed_in none log = (err internal, log)
  seed_in (some tmp) log =
      let c = creates seed ref in
      let made_log = made tmp ∷ log in
      let r = sown tmp (reply_to h c made_log) (after h c made_log) in (r.0, dropped tmp ∷ r.1)

  -- DockerRuntime.SeedVolume.
  unfoldable pub seed_run_volume : Log → Result (Unit {0}) × Log
  unfolding seed_in
  seed_run_volume log = seed_in (h.temp_dir log) log

-- The clock when round `n` of waitRunning's loop has asked docker, in nanoseconds, and whether the
-- context is cancelled then.
pub record Waiting : Type 0 where
  pub start : ℕ
  pub now : ℕ → ℕ
  pub cancelled : ℕ → Bool

abbrev pub patience : ℕ
patience = 15000000000

abbrev pub pause : ℕ
pause = 50000000

unfoldable pub is_running : Text ⊎ Text → Bool
is_running (inl e) = false
is_running (inr out) = text_eq (trim_space out) (codes "true")

-- DockerRuntime.waitRunning from round `n`, for at most `fuel` rounds; `none` if they were not
-- enough.
unfoldable pub wait_running : Host → Waiting → Text → ℕ → ℕ → Log → Option (Result (Unit {0}) × Log)
unfolding reply_to after is_running
wait_running h w id zero n log = none
wait_running h w id (suc fuel) n log = elim (is_running (reply_to h (inspects id) log)) [
  | true ↦ some (ok tt, after h (inspects id) log)
  | false ↦ elim (ltb (w.start + patience) (w.now n) || w.cancelled n) [
    | true ↦ some (err internal, after h (inspects id) log)
    | false ↦ wait_running h w id fuel (suc n) (after h (inspects id) log)
  ]
]

-- The rounds that are enough: 300 pauses of 50 ms fill 15 s.
abbrev pub enough_rounds : ℕ
enough_rounds = 302

unfoldable pub waited : Host → Text → Option (Result (Unit {0}) × Log) → Option (Result Text × Log)
unfolding after
waited h id none = none
waited h id (some (ok _, log)) = some (ok id, log)
waited h id (some (err e, log)) = some (err e, after h (removes id) log)

unfoldable pub started : Host → Waiting → Text ⊎ Text → Log → Option (Result Text × Log)
unfolding waited wait_running
started h w (inl e) log = some (err internal, log)
started h w (inr out) log =
    waited h (trim_space out) (wait_running h w (trim_space out) enough_rounds 0 log)

-- DockerRuntime.Create.
unfoldable pub create_container :
    Host → Waiting → Printer → DockerRuntime → CreateSpec → Log → Option (Result Text × Log)
unfolding started reply_to after
create_container h w print d spec log =
    let c = runs (create_args print d spec) in started h w (reply_to h c log) (after h c log)

-- strings.Fields.
unfoldable pub fields_from : Text → Text → List Text
fields_from [] field = if is_empty field then [] else field ∷ []
fields_from (c ∷ s) field =
    let rest = fields_from s [] in
    let longer = fields_from s (field ++ c ∷ []) in
    if is_space c then (if is_empty field then rest else field ∷ rest) else longer

unfoldable pub swept : Host → List Text → Log → Result ℕ × Log
unfolding reply_to after
swept h [] log = (ok 0, log)
swept h (id ∷ ids) log = elim (reply_to h (removes_all (id ∷ ids)) log) [
  | inl e ↦ (err internal, after h (removes_all (id ∷ ids)) log)
  | inr out ↦ (ok (length (id ∷ ids)), after h (removes_all (id ∷ ids)) log)
]

-- DockerRuntime.SweepOrphans.
unfoldable pub sweep_orphans : Host → Log → Result ℕ × Log
unfolding swept fields_from reply_to after
sweep_orphans h log = elim (reply_to h lists log) [
  | inl e ↦ (err internal, after h lists log)
  | inr out ↦ swept h (fields_from out []) (after h lists log)
]
