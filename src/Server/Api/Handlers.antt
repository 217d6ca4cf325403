-- ===== src/Server/Api/Handlers.antt =====
-- The handlers that work on runs, leases, snapshots and templates (server.go: handleCreate,
-- handleList, handleDestroy, handleSnapshot, handleDeleteSnapshot, handleLeaseAcquire,
-- handleLeaseRenew, handleLeaseRelease, handleWarmCommit, handleWarmInfo, handleWarmGet,
-- handleWarmDrop).
use teploy_sandbox.Prelude.{
  ℕ, [], if◌then◌else◌, Text, codes, is_empty, CaseTable, seconds, Result, ok, err,
}
use teploy_sandbox.Run.Types.{Registry}
use teploy_sandbox.Run.Lease.{acquire_lease, renew_lease, release_lease}
use teploy_sandbox.Run.Manager.Request.{CreateRequest}
use teploy_sandbox.Run.Manager.Create.{create}
use teploy_sandbox.Run.Manager.Destroy.{destroy}
use teploy_sandbox.Run.Manager.Snapshots.{snapshot, delete_snapshot}
use teploy_sandbox.Run.Manager.Warm.{commit_warm, warm_hash, warm_manifest, drop_warm}
use teploy_sandbox.Server.Problem.{problem}
use teploy_sandbox.Server.Api.{
  Decoded, eof, malformed, decoded, LeaseRequest, Outside, State, Payload, nothing, created_run,
  run_list, image_body, lease_body, warm_body, manifest_body, Response, refuse, refuse_error,
  body_must_be_json,
}

-- The answer to a result: an error's, or the status and the body for a value.
unfoldable pub answer {ℓ} : {A : Type ℓ} → Outside → ℕ → (A → Payload) → Result A → Response
unfolding refuse_error
answer o status body (err e) = refuse_error o e
answer o status body (ok a) = record { status = status; payload = body a }

unfoldable pub with_runs : Registry → State → State
with_runs runs s = record s { world = record s.world { runs = runs } }

abbrev bad_json : Response
bad_json = refuse (problem 400 body_must_be_json)

module _ ⦃u : CaseTable⦄ where
  -- handleCreate. The run's id is drawn by Manager.Create.
  unfoldable pub handle_create : Outside → Decoded CreateRequest → State → Response × State
  unfolding create answer refuse problem
  handle_create o eof s = (bad_json, s)
  handle_create o malformed s = (bad_json, s)
  handle_create o (decoded req) s =
      let (result, w) = create o.config o.answers req o.now o.ulid s.world in
      (answer o 201 created_run result, record s { world = w })

  -- handleSnapshot.
  unfoldable pub handle_snapshot : Outside → Text → State → Response × State
  unfolding snapshot answer
  handle_snapshot o id s =
      let (result, images) = snapshot o.images o.ulid id s.world s.images in
      (answer o 201 image_body result, record s { images = images })

  -- handleWarmCommit. An empty body names no repository.
  unfoldable pub handle_warm_commit : Outside → Text → Decoded Text → State → Response × State
  unfolding commit_warm answer refuse problem
  handle_warm_commit o id malformed s = (bad_json, s)
  handle_warm_commit o id eof s =
      let (result, w) = commit_warm o.config o.answers o.cache id [] o.during_copy s.world in
      (answer o 201 warm_body result, record s { world = w })
  handle_warm_commit o id (decoded repo) s =
      let (result, w) = commit_warm o.config o.answers o.cache id repo o.during_copy s.world in
      (answer o 201 warm_body result, record s { world = w })

  -- handleWarmGet.
  unfoldable pub handle_warm_get : Outside → Text → Response
  unfolding warm_manifest answer
  handle_warm_get o repo = answer o 200 manifest_body (warm_manifest o.config o.cache repo)

  -- handleWarmDrop.
  unfoldable pub handle_warm_drop : Outside → Text → Response
  unfolding drop_warm answer
  handle_warm_drop o repo = answer o 204 (λ x. nothing) (drop_warm o.config o.cache repo)

-- handleList.
unfoldable pub handle_list : State → Response
handle_list s = record { status = 200; payload = run_list s.world.runs }

-- handleDestroy.
unfoldable pub handle_destroy : Outside → Text → State → Response × State
unfolding destroy answer
handle_destroy o id s =
    let (result, w) = destroy o.config o.answers id s.world in
    (answer o 204 (λ x. nothing) result, record s { world = w })

-- handleDeleteSnapshot.
unfoldable pub handle_delete_snapshot : Outside → Text → State → Response × State
unfolding delete_snapshot answer refuse problem
handle_delete_snapshot o image s =
    if is_empty image
    then (refuse (problem 400 (codes "Provide ?image=<snapshot ref>.")), s)
    else let (result, images) = delete_snapshot o.images image s.images in
      (answer o 204 (λ x. nothing) result, record s { images = images })

-- handleLeaseAcquire.
unfoldable pub handle_lease_acquire :
    Outside → Text → Decoded LeaseRequest → State → Response × State
unfolding acquire_lease answer with_runs refuse problem
handle_lease_acquire o id eof s = (bad_json, s)
handle_lease_acquire o id malformed s = (bad_json, s)
handle_lease_acquire o id (decoded req) s =
    let (result, runs) = acquire_lease s.world.runs id req.owner (seconds req.ttl_sec) o.now in
    (
      answer o 200
          (λ (granted : ℕ × ℕ).
            lease_body
              (record { holder = req.owner; generation = granted.0; expires_at = granted.1 }))
          result,
      with_runs runs s,
    )

-- handleLeaseRenew.
unfoldable pub handle_lease_renew : Outside → Text → Decoded LeaseRequest → State → Response × State
unfolding renew_lease answer with_runs refuse problem
handle_lease_renew o id eof s = (bad_json, s)
handle_lease_renew o id malformed s = (bad_json, s)
handle_lease_renew o id (decoded req) s =
    let (result, runs) =
      renew_lease s.world.runs id req.owner req.generation (seconds req.ttl_sec) o.now o.later in
    (
      answer o 200
          (λ until.
            lease_body
              (record { holder = req.owner; generation = req.generation; expires_at = until }))
          result,
      with_runs runs s,
    )

-- handleLeaseRelease. An empty body has a blank owner.
unfoldable pub handle_lease_release :
    Outside → Text → Decoded LeaseRequest → State → Response × State
unfolding release_lease answer with_runs refuse problem
handle_lease_release o id malformed s = (bad_json, s)
handle_lease_release o id eof s =
    let (result, runs) = release_lease s.world.runs id [] 0 in
    (answer o 204 (λ x. nothing) result, with_runs runs s)
handle_lease_release o id (decoded req) s =
    let (result, runs) = release_lease s.world.runs id req.owner req.generation in
    (answer o 204 (λ x. nothing) result, with_runs runs s)

-- handleWarmInfo.
unfoldable pub handle_warm_info : Outside → Text → State → Response
unfolding warm_hash answer
handle_warm_info o id s = answer o 200 warm_body (warm_hash o.config o.cache id s.world)
