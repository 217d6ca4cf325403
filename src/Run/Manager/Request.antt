-- ===== src/Run/Manager/Request.antt =====
-- A create request and the part of Manager.Create that looks at nothing else: what is refused, the
-- time to live, and the container's specification (manager.go: Create, up to NewULID).
pub mod Checks
use teploy_sandbox.Prelude.{
  Bool, true, false, not, ◌&&◌, Option, none, some, List, [], ◌∷◌, if◌then◌else◌, Text, trim_space,
  is_empty, CaseTable, Table, ℤ, pos, is_positive, exceeds, seconds, Result, ok, err, bad_request,
}
use teploy_sandbox.Run.Types.{
  Network, network_none, network_allowlist, network_open, max_ttl, default_ttl,
}
use teploy_sandbox.Run.Paths.{parse_network}
use teploy_sandbox.Egress.Allowlist.{Allowlist}
use teploy_sandbox.Egress.Entry.{Checked, accepted, refused, validate_allowlist}

-- A float64: mantissa * 2 ^ exponent. The JSON of a request holds no other floats.
pub record Float : Type 0 where
  pub mantissa : ℤ
  pub exponent : ℤ

pub record Limits : Type 0 where
  pub memory_mb : ℤ
  pub cpus : Float
  pub pids : ℤ

pub record WarmRequest : Type 0 where
  pub repo : Text
  pub path : Text

pub record CreateRequest : Type 0 where
  pub image : Text
  pub env : Table Text
  pub ttl_sec : ℤ
  pub network : Text
  pub egress_allow : List Text
  pub limits : Option Limits
  pub warm : Option WarmRequest

pub record CreateSpec : Type 0 where
  pub name : Text
  pub image : Text
  pub env : Table Text
  pub memory_mb : ℤ
  pub cpus : Float
  pub pids : ℤ
  pub network : Network
  pub proxy_url : Text
  pub cache_host_path : Text
  pub cache_path : Text

-- The fields of Manager that do not change: ProxyURL, and whether Egress and Cache are set.
pub record Config : Type 0 where
  pub proxy_url : Text
  pub has_egress : Bool
  pub has_cache : Bool

abbrev pub default_memory_mb : ℤ
default_memory_mb = pos 1024

abbrev pub default_cpus : Float
default_cpus = record { mantissa = pos 1; exponent = pos 0 }

abbrev pub default_pids : ℤ
default_pids = pos 256

-- What the checks leave for the rest of Create.
pub record Plan : Type 0 where
  pub spec : CreateSpec
  pub extra : Allowlist
  pub ttl : ℤ

-- `ttl` after `if req.TTLSec > 0`.
unfoldable pub ttl_of : ℤ → ℤ
ttl_of ttl_sec = if is_positive ttl_sec then seconds ttl_sec else pos default_ttl

is_allowlist : Network → Bool
is_allowlist network_none = false
is_allowlist network_allowlist = true
is_allowlist network_open = false

or_default : ℤ → ℤ → ℤ
or_default given default = if is_positive given then given else default

cpus_or_default : Float → Float
cpus_or_default given = if is_positive given.mantissa then given else default_cpus

limited : Option Limits → CreateSpec → CreateSpec
unfolding or_default cpus_or_default
limited none spec = spec
limited (some limits) spec = record spec {
  memory_mb = or_default limits.memory_mb default_memory_mb;
  cpus = cpus_or_default limits.cpus;
  pids = or_default limits.pids default_pids;
}

-- The specification before it has a name, a volume and a private proxy.
unfoldable pub spec_of : Config → CreateRequest → Network → CreateSpec
unfolding limited is_allowlist
spec_of config req network = limited req.limits (record {
  name = [];
  image = req.image;
  env = req.env;
  memory_mb = default_memory_mb;
  cpus = default_cpus;
  pids = default_pids;
  network = network;
  proxy_url = if is_allowlist network then config.proxy_url else [];
  cache_host_path = [];
  cache_path = [];
})

unfoldable pub is_none : Allowlist → Bool
is_none [] = true
is_none (e ∷ es) = false

-- `req.Warm != nil` and `len(extra) > 0`.
unfoldable pub wants_volume : CreateRequest → Bool
wants_volume req = elim req.warm [ none ↦ false | some warm ↦ true ]

unfoldable pub wants_proxy : Plan → Bool
unfolding is_none
wants_proxy plan = not (is_none plan.extra)

plan_for : Config → CreateRequest → Network → Allowlist → Result Plan
unfolding is_allowlist is_none
plan_for config req network extra =
    if not (is_none extra) && not config.has_egress
    then err bad_request
    else if not (is_none extra) && not (is_allowlist network)
    then err bad_request
    else if exceeds (ttl_of req.ttl_sec) max_ttl
    then err bad_request
    else ok (record { spec = spec_of config req network; extra = extra; ttl = ttl_of req.ttl_sec })

module _ ⦃u : CaseTable⦄ where
  -- The checks of Create in their order.
  unfoldable pub check_request : Config → CreateRequest → Result Plan
  unfolding plan_for
  check_request config req =
      if is_empty (trim_space req.image)
      then err bad_request
      else elim (parse_network req.network) [
        | err e ↦ err e
        | ok network ↦ elim (validate_allowlist req.egress_allow) [
          | refused e ↦ err bad_request
          | accepted extra ↦ plan_for config req network extra
        ]
      ]
