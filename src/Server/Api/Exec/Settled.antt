-- ===== src/Server/Api/Exec/Settled.antt =====
-- What an exec request comes to (server.go: handleExec).
use teploy_sandbox.Prelude.{
  ℕ, ◌+◌, ◌-◌, ◌≤◌, ◌≡◌, refl, sym, ap, ◌∙◌, ◌≢◌, ◌↔◌, inl, inr, Bool, true, false, some, arith,
  ltb, if◌then◌else◌, Bool-cases, Option-cases, Text, codes, text_eq, text_eq_iff, trim_space,
  is_empty, lookup, insert, lookup-insert, lookup-insert_self, Result, ok, err, Error, not_found,
  bad_request, lease_held, lease_superseded, busy, internal, Result-cases,
}
use teploy_sandbox.Run.Types.{Run, Registry, LeaseCredential}
use teploy_sandbox.Run.Lease.{begin_exec, finish_exec, check_fence}
use teploy_sandbox.Run.Lease.Fence.{Passes, check_fence-ok, check_fence-inv, check_fence-cases}
use teploy_sandbox.Run.Manager.World.{World}
use teploy_sandbox.Run.Manager.Destroy.{get}
use teploy_sandbox.Server.Problem.{problem, write_error, status_of}
use teploy_sandbox.Server.Api.{
  Decoded, eof, malformed, decoded, ExecRequest, Outside, State, refuse, refuse_error,
}
use teploy_sandbox.Server.Api.Handlers.{with_runs}
use teploy_sandbox.Run.ExecEnv.Allowed.{IsEnv}
use teploy_sandbox.Server.Api.Exec.Checks.{WorksIn, check_exec_iff}
use teploy_sandbox.Server.Api.Exec.{
  no_cmd, check_exec, end_exec, start_exec, handle_exec_body, handle_exec,
}

abbrev pub credential : ExecRequest → LeaseCredential
credential req = record { owner = req.owner; generation = req.generation }

-- What handleExec asks for before it streams.
pub record Streams (o : Outside) (id : Text) (req : ExecRequest) (s : State) : Type 0 where
  pub run : Run
  pub known : lookup id s.world.runs ≡ some run
  pub command : is_empty (trim_space req.cmd) ≡ false
  pub dir : Text
  pub works_in : WorksIn req.cwd dir
  pub env : IsEnv req.env
  pub flushes : o.can_stream ≡ true
  pub passes : Passes run (credential req) o.now

-- The states before and after read the same runs.
unfoldable pub SameRuns : State → State → Type 0
SameRuns s s' = (asked : Text) → lookup asked s'.world.runs ≡ lookup asked s.world.runs

in_flight : Text → Run → Registry → Registry
in_flight id run m = insert id (record run { execs = run.execs + 1 }) m

-- The end of an admission takes back what it did.
finish-in_flight :
    (m : Registry) (id asked : Text) (run : Run)
    → lookup id m ≡ some run
    → lookup asked (finish_exec (in_flight id run m) id) ≡ lookup asked m
unfolding finish_exec in_flight
finish-in_flight m id asked run k =
    let busy_run : Run = record run { execs = run.execs + 1 } in
    let some_left : ltb 0 (run.execs + 1) ≡ true = ground arith in
    let back : run.execs + 1 - 1 ≡ run.execs = omega arith in
    rw (lookup-insert_self id busy_run m, finish_exec)
      (rw some_left (
        lookup-insert id asked (record busy_run { execs = run.execs + 1 - 1 })
          (insert id busy_run m)
        ∙ restored (text_eq id asked) refl back))
  where
    restored :
        (b : Bool)
        → text_eq id asked ≡ b
        → run.execs + 1 - 1 ≡ run.execs
        → (if b
            then some (record run { execs = run.execs + 1 - 1 })
            else lookup asked (in_flight id run m))
          ≡ lookup asked m
    restored false e back =
        lookup-insert id asked (record run { execs = run.execs + 1 }) m ∙ rw e refl
    restored true e back =
        let same : id ≡ asked = (text_eq_iff id asked).0 e in
        ap (λ n. some (record run { execs = n })) back ∙ sym k ∙ ap (λ key. lookup key m) same

admitted :
    (m : Registry) (id : Text) (run : Run) (cred : LeaseCredential) (now : ℕ)
    → lookup id m ≡ some run
    → check_fence run cred now ≡ ok tt
    → begin_exec m id cred now ≡ (ok run.container_id, in_flight id run m)
unfolding begin_exec in_flight
admitted m id run cred now k p = rw (k, p, begin_exec) refl

refused :
    (m : Registry) (id : Text) (run : Run) (cred : LeaseCredential) (now : ℕ) (e : Error)
    → lookup id m ≡ some run
    → check_fence run cred now ≡ err e
    → begin_exec m id cred now ≡ (err e, m)
unfolding begin_exec
refused m id run cred now e k p = rw (k, p, begin_exec) refl

start_exec-admitted :
    (o : Outside) (id : Text) (req : ExecRequest) (cwd : Text) (run : Run) (s : State)
    → lookup id s.world.runs ≡ some run
    → check_fence run (credential req) o.now ≡ ok tt
    → start_exec o id req cwd s
      ≡ end_exec o id req cwd s (ok run.container_id, in_flight id run s.world.runs)
unfolding start_exec
start_exec-admitted o id req cwd run s k f =
    ap (end_exec o id req cwd s) (admitted s.world.runs id run (credential req) o.now k f)

start_exec-refused :
    (o : Outside) (id : Text) (req : ExecRequest) (cwd : Text) (run : Run) (s : State)
    → lookup id s.world.runs ≡ some run
    → check_fence run (credential req) o.now ≡ err lease_held
    → start_exec o id req cwd s ≡ end_exec o id req cwd s (err lease_held, s.world.runs)
unfolding start_exec
start_exec-refused o id req cwd run s k f =
    ap (end_exec o id req cwd s) (refused s.world.runs id run (credential req) o.now lease_held k f)

start_exec-SameRuns :
    (o : Outside) (id : Text) (req : ExecRequest) (cwd : Text) (run : Run) (s : State)
    → ((m : Registry) → o.others m ≡ m)
    → lookup id s.world.runs ≡ some run
    → SameRuns s (start_exec o id req cwd s).1
unfolding end_exec SameRuns with_runs
start_exec-SameRuns o id req cwd run s alone k asked =
    elim (check_fence-cases run (credential req) o.now) [
      | inr f ↦ rw (start_exec-refused o id req cwd run s k f) refl
      | inl f ↦ rw (start_exec-admitted o id req cwd run s k f) (
          ap (λ m. lookup asked (finish_exec m id)) (alone (in_flight id run s.world.runs))
          ∙ finish-in_flight s.world.runs id asked run k)
    ]

get-lookup : (id : Text) (w : World) (run : Run) → get id w ≡ ok run → lookup id w.runs ≡ some run
unfolding get
get-lookup id w run h = elim (Option-cases (lookup id w.runs)) [
  | inl e ↦
      let unknown : ◌≡◌ {A = Result Run} (err not_found) (ok run) = rw (e, get) at h in absurd (cc)
  | inr (found, e) ↦ let same : ok found ≡ ok run = rw (e, get) at h in e ∙ (cc)
]

handle_exec_body-SameRuns :
    (o : Outside) (id : Text) (body : Decoded ExecRequest) (run : Run) (s : State)
    → ((m : Registry) → o.others m ≡ m)
    → lookup id s.world.runs ≡ some run
    → SameRuns s (handle_exec_body o id body s).1
unfolding handle_exec_body SameRuns
handle_exec_body-SameRuns o id eof run s alone k asked = refl
handle_exec_body-SameRuns o id malformed run s alone k asked = refl
handle_exec_body-SameRuns o id (decoded req) run s alone k asked =
    elim (Bool-cases (is_empty (trim_space req.cmd))) [
      | inl b ↦ rw (b, handle_exec_body) refl
      | inr b ↦ elim (Result-cases (check_exec req)) [
        | inl (e, c) ↦ rw (b, c, handle_exec_body) refl
        | inr (cwd, c) ↦ elim (Bool-cases o.can_stream) [
          | inr f ↦ rw (b, c, f, handle_exec_body) refl
          | inl f ↦
              rw (b, c, f, handle_exec_body) (start_exec-SameRuns o id req cwd run s alone k asked)
        ]
      ]
    ]

-- An exec request leaves the registry as it found it, whichever way it ends: a refusal changes
-- nothing, and behind an exec the run has no more calls in flight than before. Other goroutines
-- change nothing meanwhile.
pub handle_exec-SameRuns :
    (o : Outside) (id : Text) (body : Decoded ExecRequest) (s : State)
    → ((m : Registry) → o.others m ≡ m)
    → SameRuns s (handle_exec o id body s).1
unfolding handle_exec SameRuns
handle_exec-SameRuns o id body s alone asked = elim (Result-cases (get id s.world)) [
  | inl (e, g) ↦ rw (g, handle_exec) refl
  | inr (run, g) ↦
      rw (g, handle_exec)
        (handle_exec_body-SameRuns o id body run s alone (get-lookup id s.world run g) asked)
]

refuse_error-ne-ok : (o : Outside) (e : Error) → (refuse_error o e).status ≢ 200
unfolding refuse_error refuse write_error problem status_of
refuse_error-ne-ok o not_found = λ h. omega (arith, h)
refuse_error-ne-ok o bad_request = λ h. omega (arith, h)
refuse_error-ne-ok o lease_held = λ h. omega (arith, h)
refuse_error-ne-ok o lease_superseded = λ h. omega (arith, h)
refuse_error-ne-ok o busy = λ h. omega (arith, h)
refuse_error-ne-ok o internal = λ h. omega (arith, h)

refuse-ne-ok :
    (status : ℕ) (detail : Text) → 400 ≤ status → (refuse (problem status detail)).status ≢ 200
unfolding refuse problem
refuse-ne-ok status detail l = λ h. omega (arith, l, h)

Streams-if :
    (o : Outside) (id : Text) (req : ExecRequest) (s : State)
    → Streams o id req s
    → (handle_exec o id (decoded req) s).0.status ≡ 200
unfolding handle_exec handle_exec_body end_exec get
Streams-if o id req s t =
    let k = t.known in
    rw
      (
        k,
        t.command,
        (check_exec_iff req t.dir).1 (t.works_in, t.env),
        t.flushes,
        handle_exec,
        handle_exec_body,
      )
      (rw
        (start_exec-admitted o id req t.dir t.run s t.known
          (check_fence-ok t.run (credential req) o.now t.passes))
        refl)

Streams-only_if :
    (o : Outside) (id : Text) (req : ExecRequest) (s : State)
    → (handle_exec o id (decoded req) s).0.status ≡ 200
    → Streams o id req s
unfolding handle_exec handle_exec_body end_exec
Streams-only_if o id req s h = elim (Result-cases (get id s.world)) [
  | inl (e, g) ↦ absurd (refuse_error-ne-ok o e (rw (g, handle_exec) at h))
  | inr (run, g) ↦ elim (Bool-cases (is_empty (trim_space req.cmd))) [
    | inl b ↦
        absurd
          (refuse-ne-ok 400 no_cmd (omega arith) (rw (g, b, handle_exec, handle_exec_body) at h))
    | inr b ↦ elim (Result-cases (check_exec req)) [
      | inl (e, c) ↦
          absurd (refuse_error-ne-ok o e (rw (g, b, c, handle_exec, handle_exec_body) at h))
      | inr (dir, c) ↦ elim (Bool-cases o.can_stream) [
        | inr f ↦ absurd (
            refuse-ne-ok 500 (codes "Streaming unsupported.") (omega arith)
              (rw (g, b, c, f, handle_exec, handle_exec_body) at h))
        | inl f ↦
            let known = get-lookup id s.world run g in
            let begun : (start_exec o id req dir s).0.status ≡ 200 =
              rw (g, b, c, f, handle_exec, handle_exec_body) at h in
            elim (check_fence-cases run (credential req) o.now) [
              | inl p ↦ record {
                run = run;
                known = known;
                command = b;
                dir = dir;
                works_in = ((check_exec_iff req dir).0 c).0;
                env = ((check_exec_iff req dir).0 c).1;
                flushes = f;
                passes = check_fence-inv run (credential req) o.now p;
              }
              | inr p ↦ absurd (
                  refuse_error-ne-ok o lease_held
                    (rw (start_exec-refused o id req dir run s known p) at begun))
            ]
      ]
    ]
  ]
]

-- handleExec streams, with status 200, exactly if the run is tracked, the command is not blank, the
-- directory and the environment are valid, the connection can be flushed, and every lease on the
-- run that has not lapsed has the request's owner and generation.
pub handle_exec-Streams_iff :
    (o : Outside) (id : Text) (req : ExecRequest) (s : State)
    → ((handle_exec o id (decoded req) s).0.status ≡ 200) ↔ Streams o id req s
handle_exec-Streams_iff o id req s = (Streams-only_if o id req s, Streams-if o id req s)
