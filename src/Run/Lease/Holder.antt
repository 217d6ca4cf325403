-- ===== src/Run/Lease/Holder.antt =====
-- What the holder of a lease may do with it, and what a former holder learns (lease.go: RenewLease,
-- ReleaseLease).
use teploy_sandbox.Prelude.{
  ℕ, ◌+◌, ◌≤◌, ◌<◌, ◌≡◌, sym, ap, ◌∙◌, ◌≢◌, ◌↔◌, inl, inr, true, false, none, some, arith,
  Bool-cases, Option-cases, Text, text_eq_iff, trim_space, is_empty, lookup, insert,
  lookup-insert_self, ℤ, pos, ok, err, lease_superseded,
}
use teploy_sandbox.Run.Types.{Run, LeaseState, LeaseCredential, Registry, max_ttl}
use teploy_sandbox.Run.Lease.{
  active_lease, next_gen, grant, acquire_lease, renewable, is_grant, extend, renew_lease,
  releasable, release_lease, begin_exec,
}
use teploy_sandbox.Run.Lease.Fence.{
  Passes, begin_exec-fenced, active_lease-inv, active_lease-eq_some,
}
use teploy_sandbox.Run.Lease.Grant.{
  acquire_lease-Grantable, acquire_lease-grants, bad_lease_args-false, credential,
}

-- The run's lease is the one that was granted to an owner under a generation.
abbrev pub Holds : Run → Text → ℕ → LeaseState → Type 0
Holds run owner generation lease =
    (run.lease ≡ some lease) × (lease.holder ≡ owner) × (lease.generation ≡ generation)

is_grant_iff :
    (lease : LeaseState) (owner : Text) (generation : ℕ)
    → (is_grant lease owner generation ≡ true)
      ↔ ((lease.holder ≡ owner) × (lease.generation ≡ generation))
unfolding is_grant
is_grant_iff lease owner generation = ground (arith, text_eq_iff lease.holder owner)

pub renewable_iff :
    (run : Run) (owner : Text) (generation now : ℕ)
    → (renewable run owner generation now ≡ true)
      ↔ ((lease : LeaseState) × Holds run owner generation lease × (now < lease.expires_at))
unfolding renewable
renewable_iff run owner generation now = (to, from)
  where
    to :
        renewable run owner generation now ≡ true
        → (lease : LeaseState) × Holds run owner generation lease × (now < lease.expires_at)
    to h = elim (Option-cases (active_lease run now)) [
      | inl e ↦ absurd (ground arith)
      | inr (lease, e) ↦
          let (held, live) = active_lease-inv run now lease e in
          let fits : is_grant lease owner generation ≡ true = ground arith in
          let (same, current) = (is_grant_iff lease owner generation).0 fits in
          (lease, (held, same, current), live)
    ]

    from :
        (lease : LeaseState) × Holds run owner generation lease × (now < lease.expires_at)
        → renewable run owner generation now ≡ true
    from (lease, (held, same, current), live) =
        rw (active_lease-eq_some run now lease held live, renewable)
          ((is_grant_iff lease owner generation).1 (same, current))

releasable_iff :
    (run : Run) (owner : Text) (generation : ℕ)
    → (releasable run owner generation ≡ true)
      ↔ ((lease : LeaseState) × Holds run owner generation lease)
unfolding releasable
releasable_iff run owner generation = (to, from)
  where
    to :
        releasable run owner generation ≡ true
        → (lease : LeaseState) × Holds run owner generation lease
    to h = elim (Option-cases run.lease) [
      | inl e ↦ absurd (ground arith)
      | inr (lease, e) ↦
          let fits : is_grant lease owner generation ≡ true = ground arith in
          let (same, current) = (is_grant_iff lease owner generation).0 fits in
          (lease, (e, same, current))
    ]

    from :
        (lease : LeaseState) × Holds run owner generation lease
        → releasable run owner generation ≡ true
    from (lease, (held, same, current)) =
        rw (held, releasable) ((is_grant_iff lease owner generation).1 (same, current))

module _ (m : Registry) (id : Text) (run : Run) (owner : Text) (generation : ℕ)
    (known : lookup id m ≡ some run) (named : is_empty (trim_space owner) ≡ false) where
  -- RenewLease with a positive time to live up to MaxTTL extends the lease of a known run, by a
  -- caller whose owner and generation are those of the lease, if it has not lapsed: the lease then
  -- runs from the second reading of the clock. Any other caller gets ErrLeaseSuperseded, and
  -- nothing changes.
  pub renew_lease_lem :
      (d now later : ℕ)
      → 0 < d
      → d ≤ max_ttl
      → ((lease : LeaseState)
          → Holds run owner generation lease
          → now < lease.expires_at
          → renew_lease m id owner generation (pos d) now later
            ≡ (ok (later + d), insert id (extend run owner generation (later + d)) m))
        × (¬ ((lease : LeaseState) × Holds run owner generation lease × (now < lease.expires_at))
            → renew_lease m id owner generation (pos d) now later ≡ (err lease_superseded, m))
  unfolding renew_lease
  renew_lease_lem d now later positive bounded =
      let args = bad_lease_args-false owner d named positive bounded in
      (
        λ lease holds live. rw (
          args,
          known,
          renew_lease,
          (renewable_iff run owner generation now).1 (lease, holds, live),
        ),
        λ lost. elim (Bool-cases (renewable run owner generation now)) [
          | inl e ↦ absurd (lost ((renewable_iff run owner generation now).0 e))
          | inr e ↦ rw (args, known, renew_lease, e)
        ],
      )

  -- ReleaseLease clears the lease of a known run, lapsed or not, for a caller whose owner and
  -- generation are those of the lease. Any other caller gets ErrLeaseSuperseded, and nothing
  -- changes.
  pub release_lease_lem :
      ((lease : LeaseState)
        → Holds run owner generation lease
        → release_lease m id owner generation ≡ (ok tt, insert id (record run { lease = none }) m))
      × (¬ ((lease : LeaseState) × Holds run owner generation lease)
          → release_lease m id owner generation ≡ (err lease_superseded, m))
  unfolding release_lease
  release_lease_lem = (
    λ lease holds.
        rw (named, known, release_lease, (releasable_iff run owner generation).1 (lease, holds)),
    λ lost. elim (Bool-cases (releasable run owner generation)) [
      | inl e ↦ absurd (lost ((releasable_iff run owner generation).0 e))
      | inr e ↦ rw (named, known, release_lease, e)
    ],
  )

-- A grant under another credential leaves the former one nothing.
granted-Holds :
    (run : Run) (owner former : Text) (d now g : ℕ) (lease : LeaseState)
    → Holds (grant run owner (pos d) now) former g lease
    → credential former g ≡ credential owner (next_gen run)
unfolding grant
granted-Holds run owner former d now g lease (held, same, current) = ground arith

-- After AcquireLease has granted a lease under generation `g`, whoever comes with another credential,
-- a former holder's included, gets ErrLeaseSuperseded from RenewLease (with a time to live between
-- 1 and MaxTTL) and from ReleaseLease, and changes nothing.
pub former_holder_superseded :
    (m : Registry) (id : Text) (owner : Text) (ttl : ℤ) (now : ℕ) (g e : ℕ)
    → (acquire_lease m id owner ttl now).0 ≡ ok (g, e)
    → (former : Text) (g' d t later : ℕ) → is_empty (trim_space former) ≡ false
    → 0 < d
    → d ≤ max_ttl
    → credential former g' ≢ credential owner g
    → (renew_lease (acquire_lease m id owner ttl now).1 id former g' (pos d) t later
        ≡ (err lease_superseded, (acquire_lease m id owner ttl now).1))
      × (release_lease (acquire_lease m id owner ttl now).1 id former g'
          ≡ (err lease_superseded, (acquire_lease m id owner ttl now).1))
former_holder_superseded m id owner ttl now g e h former g' d t later named positive bounded other =
    let (run, ttl', shape, ready) = acquire_lease-Grantable m id owner ttl now h in
    let granted : acquire_lease m id owner ttl now
        ≡ (ok (next_gen run, now + ttl'), insert id (grant run owner (pos ttl') now) m) =
      rw shape (acquire_lease-grants m id run owner ttl' now ready) in
    let same : g ≡ next_gen run = ground arith in
    let next = grant run owner (pos ttl') now in
    let known = lookup-insert_self id next m in
    let lost : (lease : LeaseState) → ¬ Holds next former g' lease =
      λ lease holds. other (rw same (granted-Holds run owner former ttl' now g' lease holds)) in
    rw granted (
      (renew_lease_lem _ id next former g' known named d t later positive bounded).1
          (λ s. lost s.0 s.1),
      (release_lease_lem _ id next former g' known named).1 (λ s. lost s.0 s.1),
    )

-- A lease that has lapsed and was not granted anew: its holder's RenewLease (with a time to live
-- between 1 and MaxTTL) gets ErrLeaseSuperseded, but ReleaseLease still succeeds, and an exec is
-- admitted with whatever credential, the lapsed one included.
pub lapsed_lease_open :
    (m : Registry) (id : Text) (run : Run) (owner : Text) (generation : ℕ) (lease : LeaseState)
    (d now later : ℕ) (cred : LeaseCredential)
    → lookup id m ≡ some run
    → is_empty (trim_space owner) ≡ false
    → 0 < d
    → d ≤ max_ttl
    → Holds run owner generation lease
    → lease.expires_at ≤ now
    → ((renew_lease m id owner generation (pos d) now later).0 ≡ err lease_superseded)
      × ((release_lease m id owner generation).0 ≡ ok tt)
      × ((begin_exec m id cred now).0 ≡ ok run.container_id)
lapsed_lease_open m id run owner generation lease d now later cred known named positive bounded
      holds lapsed =
    let stuck : ¬ ((l : LeaseState) × Holds run owner generation l × (now < l.expires_at)) = λ s.
      let same : some lease ≡ some s.0 = sym holds.0 ∙ s.1.0 in
      let is : lease ≡ s.0 = cc in
      let late : s.0.expires_at ≤ now = rw (← is) lapsed in omega (arith, late, s.2) in
    let free : Passes run cred now = λ l held live.
      let same : some lease ≡ some l = sym holds.0 ∙ held in
      let is : lease ≡ l = cc in
      let late : l.expires_at ≤ now = rw (← is) lapsed in absurd (omega (arith, late, live)) in
    (
      ap (λ r. r.0)
          ((renew_lease_lem m id run owner generation known named d now later positive bounded).1
            stuck),
      ap (λ r. r.0) ((release_lease_lem m id run owner generation known named).0 lease holds),
      ap (λ r. r.0) ((begin_exec-fenced m id run cred now known).0 free),
    )
