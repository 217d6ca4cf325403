-- ===== src/Server/Api/Exec.antt =====
-- The handlers that work inside a container, and the routes (server.go: handleExec, handlePutFile,
-- handleGetFile, Handler).
pub mod Checks
pub mod Settled
pub mod Answers
use teploy_sandbox.Prelude.{
  ℕ, ◌*◌, Bool, true, false, not, none, some, List, [], ◌∷◌, ◌++◌, if◌then◌else◌, Text, codes,
  trim_space, is_empty, CaseTable, ℤ, pos, negsuc, is_positive, second, seconds, Result, ok, err,
}
use teploy_sandbox.Run.Types.{Run, Registry, LeaseCredential}
use teploy_sandbox.Run.Paths.{validate_work_path}
use teploy_sandbox.Run.ExecEnv.{validate_exec_env}
use teploy_sandbox.Run.Lease.{begin_exec, finish_exec, write_file, read_file}
use teploy_sandbox.Run.Manager.Request.{CreateRequest}
use teploy_sandbox.Run.Manager.World.{World}
use teploy_sandbox.Run.Manager.Destroy.{get}
use teploy_sandbox.Server.Problem.{problem, auth}
use teploy_sandbox.Server.Sse.{SseWriter, frame, channel_write}
use teploy_sandbox.Server.Api.{
  Decoded, eof, malformed, decoded, ExecRequest, LeaseRequest, Command, Ended, Outside, State,
  Payload, nothing, health_body, file_body, stream, Response, refuse, refuse_error,
  lease_cred_from_query,
}
use teploy_sandbox.Server.Api.Handlers.{
  answer, with_runs, handle_create, handle_list, handle_destroy, handle_snapshot,
  handle_delete_snapshot, handle_lease_acquire, handle_lease_renew, handle_lease_release,
  handle_warm_commit, handle_warm_info, handle_warm_get, handle_warm_drop,
}

-- The checks of handleExec on a decoded request: the directory to work in.
unfoldable pub check_exec : ExecRequest → Result Text
unfolding validate_work_path validate_exec_env
check_exec req =
    elim (if is_empty req.cwd then ok [] else validate_work_path req.cwd) as (λ x. Result Text) [
      | err e ↦ err e
      | ok cwd ↦ elim (validate_exec_env req.env) [ err e ↦ err e | ok x ↦ ok cwd ]
    ]

unfoldable pub exec_timeout : ℤ → ℤ
exec_timeout n = if is_positive n then seconds n else pos (120 * second)

-- The output of the exec, as the two channels pass it on. A channel that fails ends the copying.
unfoldable pub send_output : (ℕ → Bool) → List (Text × Text) → SseWriter → SseWriter
unfolding channel_write
send_output sends [] w = w
send_output sends (part ∷ rest) w = elim (channel_write sends part.0 part.1 w).0 [
  | err e ↦ (channel_write sends part.0 part.1 w).1
  | ok n ↦ send_output sends rest (channel_write sends part.0 part.1 w).1
]

-- What is streamed of an exec.
unfoldable pub send_exec : Outside → Ended → List Text
unfolding send_output frame
send_exec o ended =
    let sent = send_output o.sends ended.output (record { written = []; failed = false }) in
    let reported : SseWriter = elim ended.failure [
      | none ↦ sent
      | some text ↦ frame o.sends (codes "stderr") (codes "sandbox: " ++ text) sent
    ] in
    let code : ℤ = elim ended.failure [ none ↦ ended.exit_code | some text ↦ negsuc 0 ] in
    (frame o.sends (codes "exit") (o.exit_text code ended.timed_out) reported).written

abbrev pub no_cmd : Text
no_cmd = codes "Body must be JSON with a non-empty `cmd`."

-- handleExec behind the admission.
unfoldable pub end_exec :
    Outside → Text → ExecRequest → Text → State → Result Text × Registry → Response × State
unfolding finish_exec send_exec exec_timeout with_runs refuse_error
end_exec o id req cwd s (err e, runs) = (refuse_error o e, with_runs runs s)
end_exec o id req cwd s (ok container, runs) =
    let command : Command = record {
      cmd = req.cmd;
      cwd = cwd;
      env = req.env;
      timeout = exec_timeout req.timeout_sec;
    } in
    (
      record { status = 200; payload = stream (send_exec o (o.runs container command)) },
      with_runs (finish_exec (o.others runs) id) s,
    )

-- handleExec behind its checks.
unfoldable pub start_exec : Outside → Text → ExecRequest → Text → State → Response × State
unfolding begin_exec end_exec
start_exec o id req cwd s =
    let cred : LeaseCredential = record { owner = req.owner; generation = req.generation } in
    end_exec o id req cwd s (begin_exec s.world.runs id cred o.now)

-- handleExec once the run is known.
unfoldable pub handle_exec_body : Outside → Text → Decoded ExecRequest → State → Response × State
unfolding start_exec check_exec refuse_error refuse problem
handle_exec_body o id eof s = (refuse (problem 400 no_cmd), s)
handle_exec_body o id malformed s = (refuse (problem 400 no_cmd), s)
handle_exec_body o id (decoded req) s =
    if is_empty (trim_space req.cmd)
    then (refuse (problem 400 no_cmd), s)
    else elim (check_exec req) [
      | err e ↦ (refuse_error o e, s)
      | ok cwd ↦
          if not o.can_stream
          then (refuse (problem 500 (codes "Streaming unsupported.")), s)
          else start_exec o id req cwd s
    ]

-- handleExec.
unfoldable pub handle_exec : Outside → Text → Decoded ExecRequest → State → Response × State
unfolding handle_exec_body refuse_error get
handle_exec o id body s = elim (get id s.world) [
  | err e ↦ (refuse_error o e, s)
  | ok run ↦ handle_exec_body o id body s
]

-- handlePutFile. The bound on the body is net/http's, and part of what the runtime answers.
unfoldable pub handle_put_file :
    Outside → Text → Text → Text → Text → Text → State → Response × State
unfolding write_file validate_work_path lease_cred_from_query answer refuse_error refuse problem
    with_runs get
handle_put_file o id path owner generation content s = elim (get id s.world) [
  | err e ↦ (refuse_error o e, s)
  | ok run ↦ elim (validate_work_path path) [
    | err e ↦ (refuse_error o e, s)
    | ok target ↦ elim (lease_cred_from_query owner generation) [
      | none ↦ (refuse (problem 400 (codes "generation must be a number, got " ++ generation)), s)
      | some cred ↦
          let (result, runs) =
            write_file s.world.runs id cred o.now o.others
              (λ container. o.writes_file container target content) in
          (answer o 204 (λ x. nothing) result, with_runs runs s)
    ]
  ]
]

-- handleGetFile.
unfoldable pub handle_get_file : Outside → Text → Text → State → Response
unfolding read_file validate_work_path refuse_error refuse problem get
handle_get_file o id path s = elim (get id s.world) [
  | err e ↦ refuse_error o e
  | ok run ↦ elim (validate_work_path path) [
    | err e ↦ refuse_error o e
    | ok target ↦ elim (read_file s.world.runs id (λ container. o.reads_file container target)) [
      | err e ↦ refuse (problem 404 (codes "No such file: " ++ path))
      | ok data_ ↦ record { status = 200; payload = file_body data_ }
    ]
  ]
]

-- A request that the mux passes on, with its path values, its query and its body. What the mux
-- answers itself, 404 where no pattern matches, 405 where only the method does not and the redirect
-- to a cleaned path, is left out.
pub data Request : Type 0 where
  gets_health lists : Request
  creates : Decoded CreateRequest → Request
  destroys snapshots gets_warm : Text → Request
  execs : Text → Decoded ExecRequest → Request
  acquires renews releases : Text → Decoded LeaseRequest → Request
  deletes_snapshot gets_template drops_template : Text → Request
  commits_warm : Text → Decoded Text → Request
  puts_file : Text → Text → Text → Text → Text → Request
  gets_file : Text → Text → Request

-- The handlers that are wrapped in auth.
abbrev pub needs_token : Request → Bool
needs_token gets_health = false
needs_token request = true

module _ ⦃u : CaseTable⦄ where
  -- The routes behind auth, and `GET /health`.
  unfoldable pub route : Outside → Request → State → Response × State
  unfolding handle_create handle_list handle_destroy handle_snapshot handle_delete_snapshot
      handle_lease_acquire handle_lease_renew handle_lease_release handle_warm_commit
      handle_warm_info handle_warm_get handle_warm_drop handle_exec handle_put_file handle_get_file
  route o gets_health s = (record { status = 200; payload = health_body }, s)
  route o lists s = (handle_list s, s)
  route o (creates body) s = handle_create o body s
  route o (destroys id) s = handle_destroy o id s
  route o (snapshots id) s = handle_snapshot o id s
  route o (gets_warm id) s = (handle_warm_info o id s, s)
  route o (execs id body) s = handle_exec o id body s
  route o (acquires id body) s = handle_lease_acquire o id body s
  route o (renews id body) s = handle_lease_renew o id body s
  route o (releases id body) s = handle_lease_release o id body s
  route o (deletes_snapshot image) s = handle_delete_snapshot o image s
  route o (gets_template repo) s = (handle_warm_get o repo, s)
  route o (drops_template repo) s = (handle_warm_drop o repo, s)
  route o (commits_warm id body) s = handle_warm_commit o id body s
  route o (puts_file id path owner generation content) s =
      handle_put_file o id path owner generation content s
  route o (gets_file id path) s = (handle_get_file o id path s, s)

  -- Handler, for the daemon's token and a request's Authorization header.
  unfoldable pub serve : Outside → Text → Text → Request → State → Response × State
  unfolding route auth refuse
  serve o token header request s =
      if not (needs_token request)
      then route o request s
      else elim (auth token header) [ some p ↦ (refuse p, s) | none ↦ route o request s ]
