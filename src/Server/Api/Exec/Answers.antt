-- ===== src/Server/Api/Exec/Answers.antt =====
-- Every answer of the HTTP API (server.go: Handler, the handle methods, writeError, writeProblem).
use teploy_sandbox.Prelude.{
  ℕ, ◌≤◌, ◌<◌, ◌≡◌, refl, ◌≢◌, inl, inr, true, Option, none, some, ◌++◌, arith, Bool-cases,
  Option-cases, Text, codes, trim_space, is_empty, CaseTable, Result, ok, err, Error, not_found,
  bad_request, lease_held, lease_superseded, busy, internal, Result-cases,
}
use teploy_sandbox.Run.Types.{Registry}
use teploy_sandbox.Run.Paths.{validate_work_path}
use teploy_sandbox.Run.Lease.{read_file}
use teploy_sandbox.Run.Manager.Destroy.{get}
use teploy_sandbox.Server.Problem.{Problem, problem, auth, status_of, write_error}
use teploy_sandbox.Server.Problem.Statuses.{auth_iff}
use teploy_sandbox.Server.Api.{
  Decoded, eof, malformed, decoded, ExecRequest, Outside, State, Payload, nothing, health_body,
  problem_body, created_run, run_list, image_body, lease_body, warm_body, manifest_body, file_body,
  stream, Response, refuse, refuse_error, lease_cred_from_query,
}
use teploy_sandbox.Server.Api.Handlers.{
  answer, handle_create, handle_list, handle_destroy, handle_snapshot, handle_delete_snapshot,
  handle_lease_acquire, handle_lease_renew, handle_lease_release, handle_warm_commit,
  handle_warm_info, handle_warm_get, handle_warm_drop,
}
use teploy_sandbox.Server.Api.Exec.{
  check_exec, end_exec, start_exec, handle_exec_body, handle_exec, handle_put_file, handle_get_file,
  Request, gets_health, lists, creates, destroys, snapshots, gets_warm, execs, acquires, renews,
  releases, deletes_snapshot, gets_template, drops_template, commits_warm, puts_file, gets_file,
  route, serve, needs_token,
}

pub is_problem : Payload → Option Problem
is_problem (problem_body p) = some p
is_problem nothing = none
is_problem health_body = none
is_problem (created_run run) = none
is_problem (run_list runs) = none
is_problem (image_body ref) = none
is_problem (lease_body lease) = none
is_problem (warm_body warm) = none
is_problem (manifest_body mf) = none
is_problem (file_body content) = none
is_problem (stream texts) = none

-- An answer is a success without a problem, or a failure whose body is the problem of its status.
pub data IsAnswer (r : Response) : Type 0 where
  succeeds : is_problem r.payload ≡ none → r.status < 300 → IsAnswer r
  fails :
      (p : Problem) → r.payload ≡ problem_body p → p.status ≡ r.status → 400 ≤ r.status → IsAnswer r

refuse-IsAnswer :
    (status : ℕ) (detail : Text) → 400 ≤ status → IsAnswer (refuse (problem status detail))
unfolding refuse problem
refuse-IsAnswer status detail h = fails (problem status detail) refl refl h

refuse_error-IsAnswer : (o : Outside) (e : Error) → IsAnswer (refuse_error o e)
unfolding refuse_error write_error status_of
refuse_error-IsAnswer o not_found = refuse-IsAnswer 404 _ (omega arith)
refuse_error-IsAnswer o bad_request = refuse-IsAnswer 400 _ (omega arith)
refuse_error-IsAnswer o lease_held = refuse-IsAnswer 409 _ (omega arith)
refuse_error-IsAnswer o lease_superseded = refuse-IsAnswer 409 _ (omega arith)
refuse_error-IsAnswer o busy = refuse-IsAnswer 409 _ (omega arith)
refuse_error-IsAnswer o internal = refuse-IsAnswer 500 _ (omega arith)

answer-IsAnswer {ℓ} :
    {A : Type ℓ} (o : Outside) (status : ℕ) (body : A → Payload) (r : Result A)
    → ((a : A) → is_problem (body a) ≡ none)
    → status < 300
    → IsAnswer (answer o status body r)
unfolding answer
answer-IsAnswer o status body (err e) h l = refuse_error-IsAnswer o e
answer-IsAnswer o status body (ok a) h l = succeeds (h a) l

auth-IsAnswer :
    (token header : Text) (p : Problem) → auth token header ≡ some p → IsAnswer (refuse p)
unfolding refuse
auth-IsAnswer token header p h =
    let e : p.status ≡ 401 = (auth_iff token header).1 p h in fails p refl refl (omega (arith, e))

end_exec-IsAnswer :
    (o : Outside) (id : Text) (req : ExecRequest) (cwd : Text) (s : State)
    (a : Result Text × Registry)
    → IsAnswer (end_exec o id req cwd s a).0
unfolding end_exec is_problem
end_exec-IsAnswer o id req cwd s (err e, runs) = refuse_error-IsAnswer o e
end_exec-IsAnswer o id req cwd s (ok container, runs) = succeeds refl (omega arith)

handle_exec_body-IsAnswer :
    (o : Outside) (id : Text) (body : Decoded ExecRequest) (s : State)
    → IsAnswer (handle_exec_body o id body s).0
unfolding handle_exec_body start_exec
handle_exec_body-IsAnswer o id eof s = refuse-IsAnswer 400 _ (omega arith)
handle_exec_body-IsAnswer o id malformed s = refuse-IsAnswer 400 _ (omega arith)
handle_exec_body-IsAnswer o id (decoded req) s = elim (Bool-cases (is_empty (trim_space req.cmd))) [
  | inl b ↦ rw (b, handle_exec_body) (refuse-IsAnswer 400 _ (omega arith))
  | inr b ↦ elim (Result-cases (check_exec req)) [
    | inl (e, c) ↦ rw (b, c, handle_exec_body) (refuse_error-IsAnswer o e)
    | inr (cwd, c) ↦ elim (Bool-cases o.can_stream) [
      | inr f ↦ rw (b, c, f, handle_exec_body) (refuse-IsAnswer 500 _ (omega arith))
      | inl f ↦ rw (b, c, f, handle_exec_body) (end_exec-IsAnswer o id req cwd s _)
    ]
  ]
]

handle_exec-IsAnswer :
    (o : Outside) (id : Text) (body : Decoded ExecRequest) (s : State)
    → IsAnswer (handle_exec o id body s).0
unfolding handle_exec
handle_exec-IsAnswer o id body s = elim (Result-cases (get id s.world)) [
  | inl (e, g) ↦ rw (g, handle_exec) (refuse_error-IsAnswer o e)
  | inr (run, g) ↦ rw (g, handle_exec) (handle_exec_body-IsAnswer o id body s)
]

handle_put_file-IsAnswer :
    (o : Outside) (id path owner generation content : Text) (s : State)
    → IsAnswer (handle_put_file o id path owner generation content s).0
unfolding handle_put_file is_problem
handle_put_file-IsAnswer o id path owner generation content s =
    elim (Result-cases (get id s.world)) [
      | inl (e, g) ↦ rw (g, handle_put_file) (refuse_error-IsAnswer o e)
      | inr (run, g) ↦ elim (Result-cases (validate_work_path path)) [
        | inl (e, v) ↦ rw (g, v, handle_put_file) (refuse_error-IsAnswer o e)
        | inr (target, v) ↦ elim (Option-cases (lease_cred_from_query owner generation)) [
          | inl c ↦ rw (g, v, c, handle_put_file) (refuse-IsAnswer 400 _ (omega arith))
          | inr (cred, c) ↦
              rw (g, v, c, handle_put_file)
                (answer-IsAnswer o 204 (λ x. nothing) _ (λ x. refl) (omega arith))
        ]
      ]
    ]

handle_get_file-IsAnswer :
    (o : Outside) (id path : Text) (s : State) → IsAnswer (handle_get_file o id path s)
unfolding handle_get_file is_problem
handle_get_file-IsAnswer o id path s = elim (Result-cases (get id s.world)) [
  | inl (e, g) ↦ rw (g, handle_get_file) (refuse_error-IsAnswer o e)
  | inr (run, g) ↦ elim (Result-cases (validate_work_path path)) [
    | inl (e, v) ↦ rw (g, v, handle_get_file) (refuse_error-IsAnswer o e)
    | inr (target, v) ↦
        elim (Result-cases
          (read_file s.world.runs id (λ container. o.reads_file container target))) [
            | inl (e, r) ↦ rw (g, v, r, handle_get_file) (refuse-IsAnswer 404 _ (omega arith))
            | inr (content, r) ↦ rw (g, v, r, handle_get_file) (succeeds refl (omega arith))
          ]
  ]
]

handle_delete_snapshot-IsAnswer :
    (o : Outside) (image : Text) (s : State) → IsAnswer (handle_delete_snapshot o image s).0
unfolding handle_delete_snapshot is_problem
handle_delete_snapshot-IsAnswer o image s = elim (Bool-cases (is_empty image)) [
  | inl e ↦ rw (e, handle_delete_snapshot) (refuse-IsAnswer 400 _ (omega arith))
  | inr e ↦
      rw (e, handle_delete_snapshot)
        (answer-IsAnswer o 204 (λ x. nothing) _ (λ x. refl) (omega arith))
]

-- Every request but the health check is wrapped in auth.
needs_token_but_health : (request : Request) → request ≢ gets_health → needs_token request ≡ true
needs_token_but_health gets_health h = absurd (h refl)
needs_token_but_health lists h = refl
needs_token_but_health (creates body) h = refl
needs_token_but_health (destroys id) h = refl
needs_token_but_health (snapshots id) h = refl
needs_token_but_health (gets_warm id) h = refl
needs_token_but_health (execs id body) h = refl
needs_token_but_health (acquires id body) h = refl
needs_token_but_health (renews id body) h = refl
needs_token_but_health (releases id body) h = refl
needs_token_but_health (deletes_snapshot image) h = refl
needs_token_but_health (gets_template repo) h = refl
needs_token_but_health (drops_template repo) h = refl
needs_token_but_health (commits_warm id body) h = refl
needs_token_but_health (puts_file id path owner generation content) h = refl
needs_token_but_health (gets_file id path) h = refl

module _ ⦃u : CaseTable⦄ where
  route-IsAnswer : (o : Outside) (request : Request) (s : State) → IsAnswer (route o request s).0
  unfolding route handle_create handle_list handle_destroy handle_snapshot handle_lease_acquire
      handle_lease_renew handle_lease_release handle_warm_commit handle_warm_info handle_warm_get
      handle_warm_drop is_problem
  route-IsAnswer o gets_health s = succeeds refl (omega arith)
  route-IsAnswer o lists s = succeeds refl (omega arith)
  route-IsAnswer o (creates eof) s = refuse-IsAnswer 400 _ (omega arith)
  route-IsAnswer o (creates malformed) s = refuse-IsAnswer 400 _ (omega arith)
  route-IsAnswer o (creates (decoded req)) s =
      answer-IsAnswer o 201 created_run _ (λ x. refl) (omega arith)
  route-IsAnswer o (destroys id) s =
      answer-IsAnswer o 204 (λ x. nothing) _ (λ x. refl) (omega arith)
  route-IsAnswer o (snapshots id) s = answer-IsAnswer o 201 image_body _ (λ x. refl) (omega arith)
  route-IsAnswer o (gets_warm id) s = answer-IsAnswer o 200 warm_body _ (λ x. refl) (omega arith)
  route-IsAnswer o (execs id body) s = handle_exec-IsAnswer o id body s
  route-IsAnswer o (acquires id eof) s = refuse-IsAnswer 400 _ (omega arith)
  route-IsAnswer o (acquires id malformed) s = refuse-IsAnswer 400 _ (omega arith)
  route-IsAnswer o (acquires id (decoded req)) s =
      answer-IsAnswer o 200 _ _ (λ x. refl) (omega arith)
  route-IsAnswer o (renews id eof) s = refuse-IsAnswer 400 _ (omega arith)
  route-IsAnswer o (renews id malformed) s = refuse-IsAnswer 400 _ (omega arith)
  route-IsAnswer o (renews id (decoded req)) s = answer-IsAnswer o 200 _ _ (λ x. refl) (omega arith)
  route-IsAnswer o (releases id eof) s =
      answer-IsAnswer o 204 (λ x. nothing) _ (λ x. refl) (omega arith)
  route-IsAnswer o (releases id malformed) s = refuse-IsAnswer 400 _ (omega arith)
  route-IsAnswer o (releases id (decoded req)) s =
      answer-IsAnswer o 204 (λ x. nothing) _ (λ x. refl) (omega arith)
  route-IsAnswer o (deletes_snapshot image) s = handle_delete_snapshot-IsAnswer o image s
  route-IsAnswer o (gets_template repo) s =
      answer-IsAnswer o 200 manifest_body _ (λ x. refl) (omega arith)
  route-IsAnswer o (drops_template repo) s =
      answer-IsAnswer o 204 (λ x. nothing) _ (λ x. refl) (omega arith)
  route-IsAnswer o (commits_warm id eof) s =
      answer-IsAnswer o 201 warm_body _ (λ x. refl) (omega arith)
  route-IsAnswer o (commits_warm id malformed) s = refuse-IsAnswer 400 _ (omega arith)
  route-IsAnswer o (commits_warm id (decoded repo)) s =
      answer-IsAnswer o 201 warm_body _ (λ x. refl) (omega arith)
  route-IsAnswer o (puts_file id path owner generation content) s =
      handle_put_file-IsAnswer o id path owner generation content s
  route-IsAnswer o (gets_file id path) s = handle_get_file-IsAnswer o id path s

  -- Every answer of the API is either a success, with a status below 300 and no problem, or a
  -- failure, with a status of at least 400 and the problem of that status as its body.
  pub serve-IsAnswer :
      (o : Outside) (token header : Text) (request : Request) (s : State)
      → IsAnswer (serve o token header request s).0
  unfolding serve
  serve-IsAnswer o token header request s = elim (Bool-cases (needs_token request)) [
    | inr n ↦ rw (n, serve) (route-IsAnswer o request s)
    | inl n ↦ elim (Option-cases (auth token header)) [
      | inl a ↦ rw (n, a, serve) (route-IsAnswer o request s)
      | inr (p, a) ↦ rw (n, a, serve) (auth-IsAnswer token header p a)
    ]
  ]

  -- Without "Bearer " and the daemon's token as its Authorization header, a request other than the
  -- health check is answered with status 401 and changes nothing.
  pub serve-unauthorized :
      (o : Outside) (token header : Text) (request : Request) (s : State)
      → request ≢ gets_health
      → header ≢ codes "Bearer " ++ token
      → ((serve o token header request s).0.status ≡ 401) × ((serve o token header request s).1 ≡ s)
  unfolding serve refuse
  serve-unauthorized o token header request s other h =
      let n = needs_token_but_health request other in
      elim (Option-cases (auth token header)) [
        | inl a ↦ absurd (h ((auth_iff token header).0.0 a))
        | inr (p, a) ↦ rw (n, a, serve) ((auth_iff token header).1 p a, refl)
      ]
