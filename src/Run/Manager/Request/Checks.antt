-- ===== src/Run/Manager/Request/Checks.antt =====
-- What the checks of Create let through (manager.go: Create, up to NewULID).
use teploy_sandbox.Prelude.{
  ℕ, zero, suc, ◌+◌, ◌*◌, ◌≤◌, ◌<◌, ◌≡◌, refl, sym, ap, ◌∙◌, ◌⊎◌, inl, inr, true, false, arith,
  Bool-cases, Option-cases, trim_space, is_empty, CaseTable, ℤ, pos, negsuc, is_positive, exceeds,
  second, seconds-exact, seconds-wrapped, add_duration, ok, Result-cases,
}
use teploy_sandbox.Run.Types.{Network, network_none, network_allowlist, network_open, max_ttl}
use teploy_sandbox.Run.Paths.{parse_network}
use teploy_sandbox.Egress.Allowlist.{Allowlist}
use teploy_sandbox.Egress.Entry.{EntryError, Checked, accepted, refused, validate_allowlist}
use teploy_sandbox.Run.Manager.Request.{
  CreateRequest, Config, Plan, is_none, plan_for, wants_proxy, ttl_of, check_request, is_allowlist,
  limited, spec_of,
}

plan_for-Kept :
    (config : Config) (req : CreateRequest) (network : Network) (extra : Allowlist) (plan : Plan)
    → plan_for config req network extra ≡ ok plan
    → (wants_proxy plan ≡ true → config.has_egress ≡ true)
      × (wants_proxy plan ≡ true → is_allowlist network ≡ true)
      × (plan.spec ≡ spec_of config req network)
      × (plan.extra ≡ extra)
      × (plan.ttl ≡ ttl_of req.ttl_sec)
      × (exceeds plan.ttl max_ttl ≡ false)
unfolding plan_for wants_proxy
plan_for-Kept config req network extra plan h = ground (
  arith,
  Bool-cases (is_none extra),
  Bool-cases config.has_egress,
  Bool-cases (is_allowlist network),
  Bool-cases (exceeds (ttl_of req.ttl_sec) max_ttl),
)

spec_of-network :
    (config : Config) (req : CreateRequest) (network : Network)
    → (spec_of config req network).network ≡ network
unfolding spec_of limited
spec_of-network config req network = elim (Option-cases req.limits) [
  | inl absent ↦ rw (absent, spec_of) refl
  | inr (limits, e) ↦ rw (e, spec_of) refl
]

is_allowlist-only : (network : Network) → is_allowlist network ≡ true → network ≡ network_allowlist
unfolding is_allowlist
is_allowlist-only network_none h = ground arith
is_allowlist-only network_allowlist h = refl
is_allowlist-only network_open h = ground arith

Checked-cases {ℓ} :
    {T : Type ℓ} (c : Checked T)
    → ((e : EntryError) × (c ≡ refused e)) ⊎ ((l : T) × (c ≡ accepted l))
Checked-cases (refused e) = inl (e, refl)
Checked-cases (accepted l) = inr (l, refl)

module _ ⦃u : CaseTable⦄ where
  -- What a plan promises.
  unfoldable pub Kept : Config → CreateRequest → Plan → Type 0
  Kept config req plan =
      (is_empty (trim_space req.image) ≡ false)
      × (parse_network req.network ≡ ok plan.spec.network)
      × (validate_allowlist req.egress_allow ≡ accepted plan.extra)
      × (wants_proxy plan ≡ true → config.has_egress ≡ true)
      × (wants_proxy plan ≡ true → plan.spec.network ≡ network_allowlist)
      × (plan.ttl ≡ ttl_of req.ttl_sec)
      × (exceeds plan.ttl max_ttl ≡ false)

  pub check_request-Kept :
      (config : Config) (req : CreateRequest) (plan : Plan)
      → check_request config req ≡ ok plan
      → Kept config req plan
  unfolding check_request Kept
  check_request-Kept config req plan h = elim (Bool-cases (is_empty (trim_space req.image))) [
    | inl blank ↦ ground (arith, blank, h)
    | inr named ↦ elim (Result-cases (parse_network req.network)) [
      | inl (e, k) ↦ ground (arith, named, k, h)
      | inr (network, k) ↦ elim (Checked-cases (validate_allowlist req.egress_allow)) [
        | inl (e, l) ↦ ground (arith, named, k, l, h)
        | inr (extra, l) ↦
            let made : plan_for config req network extra ≡ ok plan =
              ground (arith, named, k, l, h) in
            let (proxied, tier, spec, same, ttl, bound) =
              plan_for-Kept config req network extra plan made in
            let net : plan.spec.network ≡ network =
              ap (λ s. s.network) spec ∙ spec_of-network config req network in
            (
              named,
              k ∙ ap ok (sym net),
              l ∙ ap accepted (sym same),
              proxied,
              λ w. net ∙ is_allowlist-only network (tier w),
              ttl,
              bound,
            )
      ]
    ]
  ]

pub ttl_of-small :
    (ttl_sec : ℤ) (now : ℕ)
    → exceeds ttl_sec 9223372036 ≡ false
    → exceeds (ttl_of ttl_sec) max_ttl ≡ false
    → (now < add_duration now (ttl_of ttl_sec))
      × (add_duration now (ttl_of ttl_sec) ≤ now + max_ttl)
unfolding ttl_of
ttl_of-small (negsuc n) now h k = (ground arith, ground arith)
ttl_of-small (pos zero) now h k = (ground arith, ground arith)
ttl_of-small (pos (suc n)) now h k =
    let given : is_positive (pos (suc n)) ≡ true = ground arith in
    let e : ttl_of (pos (suc n)) ≡ pos (suc n * second) =
      rw (given, ttl_of) (seconds-exact (suc n) (ground arith)) in
    let bound : exceeds (pos (suc n * second)) max_ttl ≡ false =
      ap (λ t. exceeds t max_ttl) (sym e) ∙ k in
    rw e (ground arith, ground arith)

pub ttl_of-wrapped :
    (n now : ℕ) → 9223372037 ≤ n → n ≤ 18446744073 → add_duration now (ttl_of (pos n)) ≤ now
unfolding ttl_of
ttl_of-wrapped n now low high =
    let some_seconds : is_positive (pos n) ≡ true = ground arith in
    rw (some_seconds, ttl_of) (rw (seconds-wrapped n low high) (ground arith))
