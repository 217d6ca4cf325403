-- ===== src/Run/Lease/Grant.antt =====
-- What AcquireLease, RenewLease and ReleaseLease grant, and what they refuse.
use teploy_sandbox.Prelude.{
  ℕ, ◌+◌, ◌<◌, ◌≤◌, ◌≡◌, refl, ap, ◌↔◌, inl, inr, false, some, Text, text_eq_iff, lookup, insert,
  lookup-insert_self, ok, arith, Option-cases, Bool-cases, ℤ, pos, is_empty, trim_space,
}
use teploy_sandbox.Run.Types.{Run, LeaseState, LeaseCredential, Registry, max_ttl}
use teploy_sandbox.Run.Lease.{
  active_lease, held_by_other, bad_lease_args, next_gen, grant, acquire_lease, begin_exec,
}
use teploy_sandbox.Run.Lease.Fence.{
  Fits, Passes, active_lease-inv, active_lease-eq_some, begin_exec-fenced, begin_exec-Passes,
}

-- Nobody else holds a lease on the run that has not lapsed.
abbrev pub FreeFor : Text → Run → ℕ → Type 0
FreeFor owner run now =
    (lease : LeaseState) → run.lease ≡ some lease → now < lease.expires_at → lease.holder ≡ owner

held_by_other-false :
    (run : Run) (owner : Text) (now : ℕ)
    → FreeFor owner run now
    → held_by_other run owner now ≡ false
unfolding held_by_other
held_by_other-false run owner now free = elim (Option-cases (active_lease run now)) [
  | inl e ↦ rw (e, held_by_other)
  | inr (lease, e) ↦
      let (held, live) = active_lease-inv run now lease e in
      rw (e, held_by_other, (text_eq_iff lease.holder owner).1 (free lease held live))
]

held_by_other-inv :
    (run : Run) (owner : Text) (now : ℕ)
    → held_by_other run owner now ≡ false
    → FreeFor owner run now
unfolding held_by_other
held_by_other-inv run owner now h lease held live =
    ground (arith, active_lease-eq_some run now lease held live, text_eq_iff lease.holder owner)

pub bad_lease_args-false :
    (owner : Text) (d : ℕ)
    → is_empty (trim_space owner) ≡ false
    → 0 < d
    → d ≤ max_ttl
    → bad_lease_args owner (pos d) ≡ false
unfolding bad_lease_args
bad_lease_args-false owner d h p q = ground arith

pub bad_lease_args-inv :
    (owner : Text) (ttl : ℤ)
    → bad_lease_args owner ttl ≡ false
    → (is_empty (trim_space owner) ≡ false) × (d : ℕ) × (ttl ≡ pos d) × (0 < d) × (d ≤ max_ttl)
unfolding bad_lease_args
bad_lease_args-inv owner (pos d) h = (ground arith, d, refl, ground arith, ground arith)
bad_lease_args-inv owner (ℤ.negsuc d) h = absurd (ground arith)

-- A grant is given for a positive time up to MaxTTL, to a caller with a name, on a known run that
-- nobody else holds and where nothing is in flight.
pub record Grantable (m : Registry) (id : Text) (run : Run) (owner : Text) (ttl now : ℕ)
    : Type 0 where
  pub named : is_empty (trim_space owner) ≡ false
  pub positive : 0 < ttl
  pub bounded : ttl ≤ max_ttl
  pub known : lookup id m ≡ some run
  pub free : FreeFor owner run now
  pub quiet : run.execs ≡ 0

pub acquire_lease-grants :
    (m : Registry) (id : Text) (run : Run) (owner : Text) (ttl now : ℕ)
    → Grantable m id run owner ttl now
    → acquire_lease m id owner (pos ttl) now
      ≡ (ok (next_gen run, now + ttl), insert id (grant run owner (pos ttl) now) m)
unfolding acquire_lease
acquire_lease-grants m id run owner ttl now g =
    rw
      (
        bad_lease_args-false owner ttl g.named g.positive g.bounded,
        g.known,
        acquire_lease,
        held_by_other-false run owner now g.free,
      )
      (rw g.quiet)

acquire_lease-parts :
    (m : Registry) (id : Text) (run : Run) (owner : Text) (ttl : ℤ) (now : ℕ) {g : ℕ × ℕ}
    → lookup id m ≡ some run
    → (acquire_lease m id owner ttl now).0 ≡ ok g
    → (bad_lease_args owner ttl ≡ false) × (held_by_other run owner now ≡ false) × (run.execs ≡ 0)
unfolding acquire_lease
acquire_lease-parts m id run owner ttl now known h =
    ground (arith, Bool-cases (bad_lease_args owner ttl), Bool-cases (held_by_other run owner now))

acquire_lease-known :
    (m : Registry) (id : Text) (owner : Text) (ttl : ℤ) (now : ℕ) {g : ℕ × ℕ}
    → (acquire_lease m id owner ttl now).0 ≡ ok g
    → (run : Run) × (lookup id m ≡ some run)
unfolding acquire_lease
acquire_lease-known m id owner ttl now h = elim (Option-cases (lookup id m)) [
  | inl e ↦ absurd (ground arith)
  | inr found ↦ found
]

pub acquire_lease-Grantable :
    (m : Registry) (id : Text) (owner : Text) (ttl : ℤ) (now : ℕ) {g : ℕ × ℕ}
    → (acquire_lease m id owner ttl now).0 ≡ ok g
    → (run : Run) × (d : ℕ) × (ttl ≡ pos d) × Grantable m id run owner d now
acquire_lease-Grantable m id owner ttl now h =
    let (run, known) = acquire_lease-known m id owner ttl now h in
    let (args, other, quiet) = acquire_lease-parts m id run owner ttl now known h in
    let (named, d, e, positive, bounded) = bad_lease_args-inv owner ttl args in
    (
      run,
      d,
      e,
      record {
        named = named;
        positive = positive;
        bounded = bounded;
        known = known;
        free = held_by_other-inv run owner now other;
        quiet = quiet;
      },
    )

-- The credential of a grant.
abbrev pub credential : Text → ℕ → LeaseCredential
credential owner generation = record { owner = owner; generation = generation }

-- AcquireLease succeeds exactly if the owner is not blank, the time to live is positive and at most
-- MaxTTL, the run is known, nobody else holds a lease on it that has not lapsed, and no exec or
-- write is in flight on it (`Grantable`).
pub acquire_lease-ok_iff :
    (m : Registry) (id : Text) (owner : Text) (ttl : ℤ) (now : ℕ)
    → ((g : ℕ × ℕ) × ((acquire_lease m id owner ttl now).0 ≡ ok g))
      ↔ ((run : Run) × (d : ℕ) × (ttl ≡ pos d) × Grantable m id run owner d now)
acquire_lease-ok_iff m id owner ttl now = (
  λ s. acquire_lease-Grantable m id owner ttl now s.1,
  λ s.
      let (run, d, e, ready) = s in
      (
        (next_gen run, now + d),
        rw e (ap (λ r. r.0) (acquire_lease-grants m id run owner d now ready)),
      ),
)

pub granted-Passes :
    (run : Run) (owner : Text) (d now t : ℕ) (cred : LeaseCredential)
    → t < now + d
    → Passes (grant run owner (pos d) now) cred t ↔ (cred ≡ credential owner (next_gen run))
unfolding grant
granted-Passes run owner d now t cred before = (
  λ p.
      let fits : Fits cred
          (record { holder = owner; generation = next_gen run; expires_at = now + d }) =
        p _ refl before in
      ground arith,
  λ e lease held live. ground arith,
)

pub fenced_after :
    (m : Registry) (id : Text) (run : Run) (cred : LeaseCredential) (t : ℕ)
    → ((c : Text) × ((begin_exec (insert id run m) id cred t).0 ≡ ok c)) ↔ Passes run cred t
fenced_after m id run cred t =
    let known = lookup-insert_self id run m in
    (
      λ s. begin_exec-Passes (insert id run m) id run cred t known s.1,
      λ p. (
        run.container_id,
        ap (λ r. r.0) ((begin_exec-fenced (insert id run m) id run cred t known).0 p),
      ),
    )

-- Once AcquireLease has granted a lease, an exec that comes before the lease's expiry is admitted
-- exactly with the owner and the generation of the grant.
pub acquire_lease-excludes :
    (m : Registry) (id : Text) (owner : Text) (ttl : ℤ) (now : ℕ) (g e : ℕ)
    → (acquire_lease m id owner ttl now).0 ≡ ok (g, e)
    → (cred : LeaseCredential) (t : ℕ) → t < e
    → ((c : Text) × ((begin_exec (acquire_lease m id owner ttl now).1 id cred t).0 ≡ ok c))
      ↔ (cred ≡ credential owner g)
acquire_lease-excludes m id owner ttl now g e h cred t before =
    let (run, d, positive, ready) = acquire_lease-Grantable m id owner ttl now h in
    let granted : acquire_lease m id owner ttl now
        ≡ (ok (next_gen run, now + d), insert id (grant run owner (pos d) now) m) =
      rw positive (acquire_lease-grants m id run owner d now ready) in
    let same : (g ≡ next_gen run) × (e ≡ now + d) = ground arith in
    let fence = fenced_after m id (grant run owner (pos d) now) cred t in
    let passes = granted-Passes run owner d now t cred (ground arith) in
    rw (granted, same.0) (λ s. passes.0 (fence.0 s), λ c. fence.1 (passes.1 c))
