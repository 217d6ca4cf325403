-- ===== src/Run/Manager/Create.antt =====
-- Manager.Create, from NewULID on (manager.go).
pub mod Undo
pub mod Stages
pub mod Ends
use teploy_sandbox.Prelude.{
  ℕ, Bool, true, false, not, ◌&&◌, Option, none, some, List, [], ◌∷◌, ◌++◌, if◌then◌else◌, Text,
  codes, CaseTable, to_lower, insert, add_duration, Result, ok, err, bad_request, internal,
}
use teploy_sandbox.Run.Types.{Run, WarmState, Network}
use teploy_sandbox.Run.Paths.{normalize_slug, validate_warm_path}
use teploy_sandbox.Run.Manager.Request.{
  WarmRequest, CreateRequest, CreateSpec, Config, Plan, check_request,
}
use teploy_sandbox.Run.Manager.World.{
  World, with_member, without_member, Booted, Answers, release, close_egress, remove_container,
}

-- The variables `spec`, `warmState` and `seedFromSnapshot` of Create.
pub record Draft : Type 0 where
  pub spec : CreateSpec
  pub warm : Option WarmState
  pub seed : Bool

abbrev pub name_prefix : Text
name_prefix = codes "teploy-sbx-"

-- `if warmState != nil { m.Cache.Release(id) }`.
pub release_draft : Answers → Text → Draft → World → World
unfolding release
release_draft a id d w = elim d.warm [ none ↦ w | some warm ↦ release a id w ]

with_volume : Draft → Text → Text → Text → Booted → Bool → Draft
with_volume d slug path dir b seed = record {
  spec = record d.spec { cache_host_path = dir; cache_path = path };
  warm =
      some
        (record { repo = slug; booted = b.booted; lock_hash = b.lock_hash; repo_dir = b.repo_dir });
  seed = seed;
}

-- The zero manifest that goes with an empty volume.
abbrev pub cold : Text → Booted
cold dir = record { dir = dir; lock_hash = []; repo_dir = []; booted = false }

-- Boots the volume of a checked slug and mount point.
boot_volume : Answers → Text → CreateRequest → Draft → Text → Text → World → Result Draft × World
unfolding with_volume
boot_volume a id req d slug path w = elim (a.image_is_snapshot req.image) [
  | err e ↦ (err e, w)
  | ok true ↦ elim (a.boot_empty id) [
    | err e ↦ (err e, w)
    | ok dir ↦ (
      ok (with_volume d slug path dir (cold dir) true),
      record w { volumes = with_member id w.volumes },
    )
  ]
  | ok false ↦ elim (a.boot id slug) [
    | err e ↦ (err e, w)
    | ok b ↦ (
      ok (with_volume d slug path b.dir b false),
      record w { volumes = with_member id w.volumes },
    )
  ]
]

module _ ⦃u : CaseTable⦄ where
  -- The body of `if req.Warm != nil`.
  warm_volume :
      Config → Answers → Text → CreateRequest → WarmRequest → Draft → World → Result Draft × World
  unfolding boot_volume
  warm_volume config a id req warm d w =
      if not config.has_cache then (err bad_request, w) else elim (normalize_slug warm.repo) [
        | err e ↦ (err e, w)
        | ok slug ↦ elim (validate_warm_path warm.path) [
          | err e ↦ (err e, w)
          | ok path ↦ boot_volume a id req d slug path w
        ]
      ]

  prepare_volume : Config → Answers → Text → CreateRequest → Draft → World → Result Draft × World
  unfolding warm_volume
  prepare_volume config a id req d w = elim req.warm [
    | none ↦ (ok d, w)
    | some warm ↦ warm_volume config a id req warm d w
  ]

-- `if len(extra) > 0`.
open_proxy : Answers → Text → List Text → Draft → World → Result Draft × World
unfolding release_draft
open_proxy a id [] d w = (ok d, w)
open_proxy a id (e ∷ es) d w = elim (a.open_for id (e ∷ es)) [
  | err _ ↦ (err internal, release_draft a id d w)
  | ok url ↦ (
    ok (record d { spec = record d.spec { proxy_url = url } }),
    record w { proxies = with_member id w.proxies },
  )
]

-- What is taken back when the container or its seed fails.
pub undo : Config → Answers → Text → Draft → World → World
unfolding release_draft close_egress
undo config a id d w = close_egress config id (release_draft a id d w)

-- What a Runtime.Create that fails leaves.
pub left_behind : Answers → CreateSpec → World → World
left_behind a spec w = elim (a.leftover spec) [
  | none ↦ w
  | some container ↦ record w { containers = with_member container w.containers }
]

-- Creates the container and seeds its volume: the container's id.
start_container : Config → Answers → Text → CreateRequest → Draft → World → Result Text × World
unfolding undo remove_container left_behind
start_container config a id req d w = elim (a.create d.spec) [
  | err e ↦ (err e, undo config a id d (left_behind a d.spec w))
  | ok container ↦
      let created = record w { containers = with_member container w.containers } in
      if d.seed && not (a.seed_volume container req.image d.spec.cache_path)
      then (err internal, undo config a id d (remove_container a container created))
      else (ok container, created)
]

new_run : Text → CreateRequest → Plan → Draft → Text → ℕ → Run
new_run id req plan d container now = record {
  id = id;
  image = req.image;
  network = d.spec.network;
  container_id = container;
  warm = d.warm;
  cache_dir = d.spec.cache_host_path;
  cache_path = d.spec.cache_path;
  created_at = now;
  expires_at = add_duration now plan.ttl;
  lease = none;
  lease_gen = 0;
  execs = 0;
}

-- `m.runs[id] = run`.
register : Text → CreateRequest → Plan → Draft → ℕ → Text → World → Result Run × World
unfolding new_run
register id req plan d now container w = (
  ok (new_run id req plan d container now),
  record w { runs = insert id (new_run id req plan d container now) w.runs },
)

-- A stage that failed ends the operation; the next one goes on from the world it left.
carry {ℓ κ} :
    {S : Type ℓ} {T : Type κ} → Result S × World → (S → World → Result T × World) → Result T × World
carry (err e, w) next = (err e, w)
carry (ok s, w) next = next s w

module _ ⦃u : CaseTable⦄ where
  first_draft : Text → Plan → Draft
  first_draft id plan = record {
    spec = record plan.spec { name = name_prefix ++ to_lower id };
    warm = none;
    seed = false;
  }

  -- Manager.Create. `now` is the clock's reading and `id` the ULID drawn for it. No other goroutine
  -- works on what belongs to a fresh id before the run is registered.
  unfoldable pub create : Config → Answers → CreateRequest → ℕ → Text → World → Result Run × World
  unfolding prepare_volume open_proxy start_container register first_draft carry
  create config a req now id w = elim (check_request config req) [
    | err e ↦ (err e, w)
    | ok plan ↦ carry (prepare_volume config a id req (first_draft id plan) w) λ d₁ w₁.
        carry (open_proxy a id plan.extra d₁ w₁) λ d₂ w₂.
          carry (start_container config a id req d₂ w₂)
            λ container w₃. register id req plan d₂ now container w₃
  ]
