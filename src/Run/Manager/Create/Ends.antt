-- ===== src/Run/Manager/Create/Ends.antt =====
-- What a create leaves on either end, from the stages' lemmas (manager.go: Create).
use mathlib.Core.Path.{subst}
use teploy_sandbox.Prelude.{
  ℕ, ◌+◌, ◌≤◌, ◌<◌, ◌≡◌, refl, sym, ap, ◌∙◌, inl, inr, false, arith, Text, CaseTable, pos, exceeds,
  add_duration, Result, ok, err, Error, Result-cases,
}
use teploy_sandbox.Run.Types.{Run, max_ttl}
use teploy_sandbox.Run.Manager.Request.{CreateRequest, Config, Plan, ttl_of, check_request}
use teploy_sandbox.Run.Manager.Request.Checks.{
  Kept, check_request-Kept, ttl_of-small, ttl_of-wrapped,
}
use teploy_sandbox.Run.Manager.World.{World, Answers}
use teploy_sandbox.Run.Manager.Create.{create}
use teploy_sandbox.Run.Manager.Create.Undo.{Undone, restored, Fresh}
use teploy_sandbox.Run.Manager.Create.Stages.{Same-refl, Outcome, planned-Outcome}

module _ ⦃u : CaseTable⦄ (config : Config) (a : Answers) (req : CreateRequest) (now : ℕ) (id : Text)
    (w : World) where
  create-Outcome :
      (plan : Plan) (result : Result Run) (v : World)
      → Fresh a id w
      → check_request config req ≡ ok plan
      → create config a req now id w ≡ (result, v)
      → Outcome config a now id req plan w result v
  unfolding Kept
  create-Outcome plan result v fresh h e =
      let proxied = (check_request-Kept config req plan h).3 in
      let outcome = planned-Outcome config a req now id w plan h proxied fresh in
      subst (λ r. Outcome config a now id req plan w r.0 r.1) e outcome

  create_refused :
      (e : Error) → check_request config req ≡ err e → create config a req now id w ≡ (err e, w)
  unfolding create
  create_refused e h = rw (h, create) refl

  -- A create that fails leaves the runs, the volumes and the proxies as they were, at whatever
  -- point it fails, and the containers too, but for one that a Runtime.Create that failed has left:
  -- it is the create of a run id that owns nothing, whose volume is not in use, with container ids
  -- that are not taken, a container that must go can be removed, and a boot or an open that fails
  -- leaves nothing itself.
  pub create-Undone :
      (e : Error) (v : World)
      → Fresh a id w
      → create config a req now id w ≡ (err e, v)
      → Undone a v w
  unfolding Outcome
  create-Undone e v fresh h = elim (Result-cases (check_request config req)) [
    | inl (f, k) ↦
        let same : w ≡ v = ap (λ r. r.1) (sym (create_refused f k) ∙ h) in
        rw (sym same) (restored (Same-refl w))
    | inr (plan, k) ↦ create-Outcome plan (err e) v fresh k h
  ]

  -- A create that succeeds does so on a request that passed every check, and what it adds to the
  -- world is the run under its id, its container, a volume exactly if the request asked for one,
  -- and a proxy exactly if it named extra hosts, under the same conditions on the id and the
  -- container. The run expires after the time to live that the checks allowed, and has no lease;
  -- its volume is that of the request's repository, as NormalizeSlug has it, at the mount point
  -- that ValidateWarmPath allowed, on a daemon with a cache store.
  pub create-registers :
      (run : Run) (v : World)
      → Fresh a id w
      → create config a req now id w ≡ (ok run, v)
      → (plan : Plan) × Kept config req plan × Outcome config a now id req plan w (ok run) v
  create-registers run v fresh h = elim (Result-cases (check_request config req)) [
    | inl (f, k) ↦
        let refused : (err f) ≡ (ok run) = ap (λ r. r.0) (sym (create_refused f k) ∙ h) in
        ground arith
    | inr (plan, k) ↦
        (plan, check_request-Kept config req plan k, create-Outcome plan (ok run) v fresh k h)
  ]

  run_ttl :
      (run : Run) (v : World)
      → Fresh a id w
      → create config a req now id w ≡ (ok run, v)
      → (exceeds (ttl_of req.ttl_sec) max_ttl ≡ false)
        × (run.expires_at ≡ add_duration now (ttl_of req.ttl_sec))
  unfolding Kept Outcome
  run_ttl run v fresh h =
      let (plan, kept, outcome) = create-registers run v fresh h in
      let same = kept.5 in
      (ap (λ t. exceeds t max_ttl) (sym same) ∙ kept.6, outcome.2 ∙ ap (add_duration now) same)

  -- If the time to live that was asked for, in seconds, is at most 9223372036, a run that was
  -- created expires after now and no later than MaxTTL from now; the conditions on the id and the
  -- container are those of create-Undone.
  pub create_ttl :
      (run : Run) (v : World)
      → Fresh a id w
      → create config a req now id w ≡ (ok run, v)
      → exceeds req.ttl_sec 9223372036 ≡ false
      → (now < run.expires_at) × (run.expires_at ≤ now + max_ttl)
  create_ttl run v fresh h small =
      let (bound, expires) = run_ttl run v fresh h in
      rw expires (ttl_of-small req.ttl_sec now small bound)

  -- A time to live between 9223372037 and 18446744073 seconds wraps around: a run that was created
  -- with one has expired when it is created; the conditions on the id and the container are those
  -- of create-Undone.
  pub create_wrapped :
      (run : Run) (v : World) (n : ℕ)
      → Fresh a id w
      → create config a req now id w ≡ (ok run, v)
      → req.ttl_sec ≡ pos n
      → 9223372037 ≤ n
      → n ≤ 18446744073
      → run.expires_at ≤ now
  create_wrapped run v n fresh h is_n low high =
      rw ((run_ttl run v fresh h).1, is_n) (ttl_of-wrapped n now low high)
