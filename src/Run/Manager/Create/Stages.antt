-- ===== src/Run/Manager/Create/Stages.antt =====
-- What each stage of a create leaves (manager.go: Create).
use mathlib.Core.Path.{subst}
use teploy_sandbox.Prelude.{
  ℕ, ◌≡◌, refl, sym, ap, ◌∙◌, inl, inr, Bool, true, false, not, ◌&&◌, Option, none, some, [], ◌∷◌,
  if◌then◌else◌, Bool-cases, Option-cases, Text, CaseTable, insert, add_duration, Result, ok, err,
  Error, Result-cases,
}
use teploy_sandbox.Run.Types.{Run, WarmState}
use teploy_sandbox.Run.Paths.{normalize_slug, validate_warm_path}
use teploy_sandbox.Run.Manager.Request.{
  WarmRequest, CreateRequest, Config, Plan, wants_volume, wants_proxy, is_none, check_request,
}
use teploy_sandbox.Run.Manager.World.{World, with_member, without_member, Answers, remove_container}
use teploy_sandbox.Run.Manager.Create.{
  left_behind, Draft, with_volume, boot_volume, warm_volume, prepare_volume, open_proxy,
  start_container, register, first_draft, carry, create,
}
use teploy_sandbox.Run.Manager.Create.Undo.{
  Undone, restored, with_leftover, Same, is_warm, holding, added-removed, Fresh,
  release_draft-holding, undo-Same,
}

-- What holds of a stage's outcome, and is handed on by the next stage.
carry_rule {ℓ κ} :
    {S : Type ℓ} {T : Type κ} (P : Result S → World → Type 0) (Q : Result T → World → Type 0)
    (r : Result S × World) (next : S → World → Result T × World)
    → P r.0 r.1
    → ((e : Error) (v : World) → P (err e) v → Q (err e) v)
    → ((s : S) (v : World) → P (ok s) v → Q (next s v).0 (next s v).1)
    → Q (carry r next).0 (carry r next).1
unfolding carry
carry_rule P Q (err e, v) next p stop go = stop e v p
carry_rule P Q (ok s, v) next p stop go = go s v p

-- The volume of a run by the request: none, or, on a daemon with a cache store, that of the slug that
-- NormalizeSlug makes of the request's repository, at the mount point that ValidateWarmPath allows.
pub data WarmsAs ⦃u : CaseTable⦄ (config : Config) (req : CreateRequest) (volume : Option WarmState)
    (mount : Text) : Type 0 where
  without_volume : req.warm ≡ none → volume ≡ none → WarmsAs config req volume mount
  has_volume :
      (warm : WarmRequest) (state : WarmState)
      → req.warm ≡ some warm
      → config.has_cache ≡ true
      → volume ≡ some state
      → normalize_slug warm.repo ≡ ok state.repo
      → validate_warm_path warm.path ≡ ok mount
      → WarmsAs config req volume mount

-- What prepare_volume leaves.
Prepared :
    ⦃u : CaseTable⦄ → Config → CreateRequest → Text → World → Bool → Result Draft → World → Type 0
Prepared config req id w volume (err e) v = v ≡ w
Prepared config req id w volume (ok d) v =
    (v ≡ holding id w volume false)
    × (is_warm d ≡ volume)
    × WarmsAs config req d.warm d.spec.cache_path

module _ ⦃u : CaseTable⦄ (config : Config) (a : Answers) (id : Text) (req : CreateRequest) where
  boot_volume-Prepared :
      (d : Draft) (warm : WarmRequest) (slug path : Text) (w : World)
      → req.warm ≡ some warm
      → config.has_cache ≡ true
      → normalize_slug warm.repo ≡ ok slug
      → validate_warm_path warm.path ≡ ok path
      → let r = boot_volume a id req d slug path w in Prepared config req id w true r.0 r.1
  unfolding boot_volume Prepared holding is_warm with_volume
  boot_volume-Prepared d warm slug path w asked has s p =
      elim (Result-cases (a.image_is_snapshot req.image)) [
        | inl (e, h) ↦ rw (h, Prepared, boot_volume) refl
        | inr (true, h) ↦
            rw (h, Prepared, boot_volume)
              (elim (Result-cases (a.boot_empty id)) [
                | inl (e, k) ↦ rw (k, Prepared, boot_volume) refl
                | inr (dir, k) ↦
                    rw (k, Prepared, boot_volume) (refl, refl, has_volume warm _ asked has refl s p)
              ])
        | inr (false, h) ↦
            rw (h, Prepared, boot_volume)
              (elim (Result-cases (a.boot id slug)) [
                | inl (e, k) ↦ rw (k, Prepared, boot_volume) refl
                | inr (b, k) ↦
                    rw (k, Prepared, boot_volume) (refl, refl, has_volume warm _ asked has refl s p)
              ])
      ]

  warm_volume-Prepared :
      (warm : WarmRequest) (d : Draft) (w : World)
      → req.warm ≡ some warm
      → let r = warm_volume config a id req warm d w in Prepared config req id w true r.0 r.1
  unfolding warm_volume Prepared
  warm_volume-Prepared warm d w asked = elim (Bool-cases config.has_cache) [
    | inr lacks ↦ rw (lacks, Prepared, warm_volume) refl
    | inl has ↦ elim (Result-cases (normalize_slug warm.repo)) [
      | inl (f, k) ↦ rw (has, k, Prepared, warm_volume) refl
      | inr (slug, k) ↦ elim (Result-cases (validate_warm_path warm.path)) [
        | inl (f, l) ↦ rw (has, k, l, Prepared, warm_volume) refl
        | inr (path, l) ↦
            let boots : warm_volume config a id req warm d w ≡ boot_volume a id req d slug path w =
              rw (has, k, l, warm_volume) refl in
            subst (λ r. Prepared config req id w true r.0 r.1) (sym boots)
              (boot_volume-Prepared d warm slug path w asked has k l)
      ]
    ]
  ]

  prepare_volume-Prepared :
      (d : Draft) (w : World)
      → d.warm ≡ none
      → let r = prepare_volume config a id req d w in
        Prepared config req id w (wants_volume req) r.0 r.1
  unfolding prepare_volume Prepared holding wants_volume is_warm
  prepare_volume-Prepared d w h = elim (Option-cases req.warm) [
    | inl absent ↦
        let off : wants_volume req ≡ false = rw (absent, wants_volume) refl in
        let cold : is_warm d ≡ false = rw (h, is_warm) refl in
        rw (absent, Prepared, prepare_volume)
          (rw (off, holding) refl, cold ∙ sym off, without_volume absent h)
    | inr (warm, e) ↦
        let on : wants_volume req ≡ true = rw (e, wants_volume) refl in
        let asks : prepare_volume config a id req d w ≡ warm_volume config a id req warm d w =
          rw (e, prepare_volume) refl in
        rw on (
          subst (λ r. Prepared config req id w true r.0 r.1) (sym asks)
            (warm_volume-Prepared warm d w e))
  ]

Started : Answers → Text → World → Bool → Bool → Result Text → World → Type 0
Started a id w volume proxy (err e) v = Undone a v w
Started a id w volume proxy (ok c) v =
    v ≡ record (holding id w volume proxy) { containers = with_member c w.containers }

start_container-Started :
    (config : Config) (a : Answers) (id : Text) (req : CreateRequest) (d : Draft)
    (volume proxy : Bool) (w : World)
    → Fresh a id w
    → is_warm d ≡ volume
    → (proxy ≡ true → config.has_egress ≡ true)
    → let r = start_container config a id req d (holding id w volume proxy) in
      Started a id w volume proxy r.0 r.1
unfolding start_container Started Fresh Same holding remove_container left_behind
start_container-Started config a id req d volume proxy w (no_volume, no_proxy, free, new, gone) v
      k =
    elim (Result-cases (a.create d.spec)) [
      | inl (e, h) ↦
          rw (h, Started, start_container)
            (elim (Option-cases (a.leftover d.spec)) [
              | inl clean ↦
                  rw (clean, left_behind)
                    (restored (undo-Same config a id d volume proxy w no_volume no_proxy free v k))
              | inr (c, behind) ↦
                  let left = record w { containers = with_member c w.containers } in
                  rw (behind, left_behind)
                    (with_leftover d.spec e c h behind
                      (undo-Same config a id d volume proxy left no_volume no_proxy free v k))
            ])
      | inr (c, h) ↦
          elim (Bool-cases (d.seed && not (a.seed_volume c req.image d.spec.cache_path))) [
            | inl failed ↦
                let left = record w {
                  containers = without_member c (with_member c w.containers);
                } in
                let (runs, containers, volumes, proxies) =
                  undo-Same config a id d volume proxy left no_volume no_proxy free v k in
                rw (h, Started, start_container)
                  (rw (failed, Started, start_container)
                    (rw (gone c, remove_container)
                      (restored (
                        runs,
                        λ b. containers b ∙ added-removed c w.containers true b (new d.spec c h),
                        volumes,
                        proxies,
                      ))))
            | inr seeded ↦
                rw (h, Started, start_container) (rw (seeded, Started, start_container) refl)
          ]
    ]

Opened :
    ⦃u : CaseTable⦄
    → Config
    → CreateRequest
    → Text
    → World
    → Bool
    → Bool
    → Result Draft
    → World
    → Type 0
Opened config req id w volume proxy (err e) v = Same v w
Opened config req id w volume proxy (ok d) v =
    (v ≡ holding id w volume proxy)
    × (is_warm d ≡ volume)
    × WarmsAs config req d.warm d.spec.cache_path

open_proxy-Opened :
    ⦃u : CaseTable⦄ (config : Config) (req : CreateRequest) (a : Answers) (id : Text) (plan : Plan)
    (d : Draft) (volume : Bool) (w : World)
    → w.volumes id ≡ false
    → a.volume_in_use id ≡ false
    → is_warm d ≡ volume
    → WarmsAs config req d.warm d.spec.cache_path
    → let r = open_proxy a id plan.extra d (holding id w volume false) in
      Opened config req id w volume (wants_proxy plan) r.0 r.1
unfolding open_proxy Opened Same holding is_warm wants_proxy is_none
open_proxy-Opened config req a id plan d volume w no_volume free v as_asked =
    elim plan.extra
      as (λ extra.
        let r = open_proxy a id extra d (holding id w volume false) in
        Opened config req id w volume (not (is_none extra)) r.0 r.1) [
          | [] ↦ (refl, v, as_asked)
          | x ∷ xs ↦ elim (Result-cases (a.open_for id (x ∷ xs))) [
            | inl (e, h) ↦
                let (runs, containers, volumes, proxies) =
                  release_draft-holding a id d volume false w v no_volume free in
                rw (h, Opened, open_proxy)
                  (runs, λ c. ap (λ f. f c) containers, volumes, λ b. ap (λ f. f b) proxies)
            | inr (url, h) ↦ rw (h, Opened, open_proxy) (refl, v, as_asked)
          ]
        ]

-- What a create leaves: on an error the world as it was, but for the container that a failing
-- Runtime.Create leaves, and otherwise the world with the run, its
-- container, and the volume and the proxy that the request asked for.
unfoldable pub Outcome :
    ⦃u : CaseTable⦄
    → Config
    → Answers
    → ℕ
    → Text
    → CreateRequest
    → Plan
    → World
    → Result Run
    → World
    → Type 0
Outcome config a now id req plan w (err e) v = Undone a v w
Outcome config a now id req plan w (ok run) v =
    (v ≡ record w {
      runs = insert id run w.runs;
      containers = with_member run.container_id w.containers;
      volumes = if wants_volume req then with_member id w.volumes else w.volumes;
      proxies = if wants_proxy plan then with_member id w.proxies else w.proxies;
    })
    × (run.id ≡ id)
    × (run.expires_at ≡ add_duration now plan.ttl)
    × (run.lease ≡ none)
    × WarmsAs config req run.warm run.cache_path

pub Same-refl : (w : World) → Same w w
unfolding Same
Same-refl w = (refl, λ c. refl, λ b. refl, λ b. refl)

module _ ⦃u : CaseTable⦄ (config : Config) (a : Answers) (req : CreateRequest) (now : ℕ) (id : Text)
    (w : World) where
  registered-Outcome :
      (plan : Plan) (d : Draft) (container : Text) (v : World)
      → Started a id w (wants_volume req) (wants_proxy plan) (ok container) v
      → WarmsAs config req d.warm d.spec.cache_path
      → let r = register id req plan d now container v in Outcome config a now id req plan w r.0 r.1
  unfolding register Outcome Started holding
  registered-Outcome plan d container v e as_asked = (rw e refl, refl, refl, refl, as_asked)

  pub planned-Outcome :
      (plan : Plan)
      → check_request config req ≡ ok plan
      → (wants_proxy plan ≡ true → config.has_egress ≡ true)
      → Fresh a id w
      → let r = create config a req now id w in Outcome config a now id req plan w r.0 r.1
  unfolding create Prepared Opened Started Fresh holding Outcome is_warm
  planned-Outcome plan h k fresh =
      let volume = wants_volume req in
      let proxy = wants_proxy plan in
      let first = first_draft id plan in
      rw (h, create)
        (carry_rule (Prepared config req id w volume) (Outcome config a now id req plan w)
          (prepare_volume config a id req first w) _
          (prepare_volume-Prepared config a id req first w refl)
          (λ e v same. rw same (restored (Same-refl w)))
          (λ d₁ v₁ p₁. rw p₁.0 (
            carry_rule (Opened config req id w volume proxy) (Outcome config a now id req plan w)
              (open_proxy a id plan.extra d₁ (holding id w volume false)) _
              (open_proxy-Opened config req a id plan d₁ volume w fresh.0 fresh.2 p₁.1 p₁.2)
              (λ e v same. restored same)
              (λ d₂ v₂ p₂. rw p₂.0 (
                carry_rule (Started a id w volume proxy) (Outcome config a now id req plan w)
                  (start_container config a id req d₂ (holding id w volume proxy)) _
                  (start_container-Started config a id req d₂ volume proxy w fresh p₂.1 k)
                  (λ e v same. same)
                  (λ container v₃ p₃. registered-Outcome plan d₂ container v₃ p₃ p₂.2))))))
