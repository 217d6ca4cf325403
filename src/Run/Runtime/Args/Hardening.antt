-- ===== src/Run/Runtime/Args/Hardening.antt =====
-- What every docker run and docker exec of the daemon says (runtime.go: createArgs, execArgs).
use teploy_sandbox.Prelude.{
  ◌≡◌, refl, ◌∙◌, inl, inr, false, List, [], ◌∷◌, ◌++◌, arith, if◌then◌else◌, Bool-cases, any, Text,
  codes, text_eq, is_empty, starts, Table, is_positive,
}
use teploy_sandbox.Run.Types.{Network, network_none, network_allowlist, network_open}
use teploy_sandbox.Run.Manager.Request.{CreateSpec}
use teploy_sandbox.Run.Runtime.Args.{
  Printer, DockerRuntime, egress_network, options, base_args, runtime_args, proxy_args,
  network_args, env_args, volume_args, drop_capabilities, create_options, create_args,
}
use teploy_sandbox.Run.Runtime.Args.CommandLine.{
  is_flag, at_option, values, Whole, nothing, a_flag, an_option, Whole-append, maybe-Whole,
  unless-Whole, values-parts, elsewhere, maybe_none, both_none,
}

pub network_name : Network → Text
network_name network_none = codes "none"
network_name network_allowlist = egress_network
network_name network_open = codes "bridge"

base_args-Whole : (print : Printer) (spec : CreateSpec) → Whole (base_args print spec)
unfolding base_args is_flag starts text_eq
base_args-Whole print spec = a_flag _ refl refl (
    an_option _ _ refl refl (
      an_option _ _ refl refl (
        an_option _ _ refl refl (
          an_option _ _ refl refl
            (an_option _ _ refl refl (an_option _ _ refl refl (a_flag _ refl refl nothing)))))))

caps-Whole : Whole (options (codes "--cap-drop") drop_capabilities)
unfolding options is_flag starts text_eq
caps-Whole = an_option _ _ refl refl (an_option _ _ refl refl (an_option _ _ refl refl nothing))

env_args-Whole : (env : Table Text) → Whole (env_args env)
unfolding env_args is_flag starts text_eq
env_args-Whole [] = nothing
env_args-Whole (entry ∷ rest) = an_option _ _ refl refl (env_args-Whole rest)

runtime_args-Whole : (print : Printer) (d : DockerRuntime) → Whole (runtime_args print d)
unfolding runtime_args is_flag starts text_eq
runtime_args-Whole print d =
    Whole-append (unless-Whole (is_empty d.runtime) _ (an_option _ _ refl refl nothing)) (
      Whole-append
        (maybe-Whole (text_eq d.runtime (codes "runsc")) _ (an_option _ _ refl refl nothing))
        (maybe-Whole (is_positive d.shm_mb) _ (an_option _ _ refl refl nothing)))

proxy_args-Whole : (url : Text) → Whole (proxy_args url)
unfolding proxy_args is_flag starts text_eq
proxy_args-Whole url = unless-Whole (is_empty url) _ (
    an_option _ _ refl refl (
      an_option _ _ refl refl (
        an_option _ _ refl refl
          (an_option _ _ refl refl (an_option _ _ refl refl (an_option _ _ refl refl nothing))))))

network_args-Whole : (spec : CreateSpec) (n : Network) → Whole (network_args spec n)
unfolding network_args is_flag starts text_eq
network_args-Whole spec network_none = an_option _ _ refl refl nothing
network_args-Whole spec network_allowlist =
    an_option _ _ refl refl (proxy_args-Whole spec.proxy_url)
network_args-Whole spec network_open = an_option _ _ refl refl nothing

volume_args-Whole : (spec : CreateSpec) → Whole (volume_args spec)
unfolding volume_args is_flag starts text_eq
volume_args-Whole spec =
    unless-Whole (is_empty spec.cache_host_path) _ (an_option _ _ refl refl nothing)

-- The values in what docker run is handed behind its name.
pub run_values : Text → List Text → List Text
run_values name [] = []
run_values name (command ∷ rest) = values name at_option rest

create_args-values :
    (print : Printer) (d : DockerRuntime) (spec : CreateSpec) (name : Text)
    → starts (codes "-") spec.image ≡ false
    → run_values name (create_args print d spec)
      ≡ values name at_option (base_args print spec)
        ++ (values name at_option (options (codes "--cap-drop") drop_capabilities)
            ++ (values name at_option (runtime_args print d)
                ++ (values name at_option (network_args spec spec.network)
                    ++ (values name at_option (env_args spec.env)
                        ++ values name at_option (volume_args spec)))))
unfolding create_args create_options run_values
create_args-values print d spec name image =
    values-parts name spec.image (base_args print spec)
      (options (codes "--cap-drop") drop_capabilities) (runtime_args print d)
      (network_args spec spec.network) (env_args spec.env) (volume_args spec) _
      (base_args-Whole print spec) caps-Whole (runtime_args-Whole print d)
      (network_args-Whole spec spec.network) (env_args-Whole spec.env) (volume_args-Whole spec)
      image

env_args-only :
    (name : Text) (env : Table Text)
    → text_eq (codes "-e") name ≡ false
    → values name at_option (env_args env) ≡ []
unfolding env_args values is_flag starts text_eq
env_args-only name [] h = refl
env_args-only name (entry ∷ rest) h = rw (h, values) (env_args-only name rest h)

runtime_args-only :
    (print : Printer) (d : DockerRuntime) (name : Text)
    → text_eq (codes "--runtime") name ≡ false
    → text_eq (codes "--annotation") name ≡ false
    → text_eq (codes "--shm-size") name ≡ false
    → values name at_option (runtime_args print d) ≡ []
unfolding runtime_args is_flag starts text_eq
runtime_args-only print d name h k l =
    let wb =
      maybe-Whole (text_eq d.runtime (codes "runsc"))
        (codes "--annotation" ∷ codes "dev.gvisor.flag.overlay2=none" ∷ [])
        (an_option _ _ refl refl nothing) in
    let wa =
      unless-Whole (is_empty d.runtime) (codes "--runtime" ∷ d.runtime ∷ [])
        (an_option _ _ refl refl nothing) in
    let of = values name at_option in
    let none_a =
      (maybe_none name (is_empty d.runtime) (codes "--runtime" ∷ d.runtime ∷ [])
        (elsewhere name _ _ refl refl h)).1 in
    let none_b =
      (maybe_none name (text_eq d.runtime (codes "runsc"))
        (codes "--annotation" ∷ codes "dev.gvisor.flag.overlay2=none" ∷ [])
        (elsewhere name _ _ refl refl k)).0 in
    let none_c =
      (maybe_none name (is_positive d.shm_mb)
        (codes "--shm-size" ∷ (print.decimal d.shm_mb ++ codes "m") ∷ [])
        (elsewhere name _ _ refl refl l)).0 in
    both_none name _ _ wa none_a (both_none name _ _ wb none_b none_c)

network_args-network :
    (spec : CreateSpec) (n : Network)
    → values (codes "--network") at_option (network_args spec n) ≡ network_name n ∷ []
unfolding network_args network_name values is_flag starts text_eq proxy_args
network_args-network spec network_none = refl
network_args-network spec network_allowlist = elim (Bool-cases (is_empty spec.proxy_url)) [
  | inl none_given ↦ rw none_given refl
  | inr given ↦ rw given refl
]
network_args-network spec network_open = refl

-- The tiers give no option but `--network` and `-e`.
network_args-only :
    (spec : CreateSpec) (n : Network) (name : Text)
    → text_eq (codes "--network") name ≡ false
    → text_eq (codes "-e") name ≡ false
    → values name at_option (network_args spec n) ≡ []
unfolding network_args values is_flag starts text_eq proxy_args
network_args-only spec network_none name h k = rw h refl
network_args-only spec network_open name h k = rw h refl
network_args-only spec network_allowlist name h k = elim (Bool-cases (is_empty spec.proxy_url)) [
  | inl none_given ↦ rw h (rw none_given refl)
  | inr given ↦ rw h (rw given (rw k refl))
]

volume_args-only :
    (spec : CreateSpec) (name : Text)
    → text_eq (codes "-v") name ≡ false
    → values name at_option (volume_args spec) ≡ []
unfolding volume_args is_flag starts text_eq
volume_args-only spec name h =
    (maybe_none name (is_empty spec.cache_host_path) _
      (elsewhere name (codes "-v") _ refl refl h)).1

-- The options that docker run may be given.
abbrev pub known_options : List Text
known_options =
    codes "--name"
    ∷ codes "--security-opt"
    ∷ codes "--memory"
    ∷ codes "--cpus"
    ∷ codes "--pids-limit"
    ∷ codes "--label"
    ∷ codes "--cap-drop"
    ∷ codes "--runtime"
    ∷ codes "--annotation"
    ∷ codes "--shm-size"
    ∷ codes "--network"
    ∷ codes "-e"
    ∷ codes "-v"
    ∷ []

-- An option that is none of these.
abbrev pub Unknown : Text → Type 0
Unknown name = any (λ option. text_eq option name) known_options ≡ false

base_args-only :
    (print : Printer) (spec : CreateSpec) (name : Text)
    → Unknown name
    → values name at_option (base_args print spec) ≡ []
unfolding base_args values is_flag starts text_eq
base_args-only print spec name h =
    let h₁ : text_eq (codes "--name") name ≡ false = ground (arith, h) in
    let h₂ : text_eq (codes "--security-opt") name ≡ false = ground (arith, h) in
    let h₃ : text_eq (codes "--memory") name ≡ false = ground (arith, h) in
    let h₄ : text_eq (codes "--cpus") name ≡ false = ground (arith, h) in
    let h₅ : text_eq (codes "--pids-limit") name ≡ false = ground (arith, h) in
    let h₆ : text_eq (codes "--label") name ≡ false = ground (arith, h) in
    rw (h₁, h₂, h₃, h₄, h₅, h₆) refl

caps-only :
    (name : Text)
    → text_eq (codes "--cap-drop") name ≡ false
    → values name at_option (options (codes "--cap-drop") drop_capabilities) ≡ []
unfolding options values is_flag starts text_eq
caps-only name h = rw h refl

create_args-known :
    (print : Printer) (d : DockerRuntime) (spec : CreateSpec) (name : Text)
    → starts (codes "-") spec.image ≡ false
    → Unknown name
    → run_values name (create_args print d spec) ≡ []
create_args-known print d spec name image h =
    create_args-values print d spec name image
    ∙ rw
        (
          base_args-only print spec name h,
          caps-only name (ground (arith, h)),
          runtime_args-only print d name (ground (arith, h)) (ground (arith, h))
              (ground (arith, h)),
          network_args-only spec spec.network name (ground (arith, h)) (ground (arith, h)),
          env_args-only name spec.env (ground (arith, h)),
          volume_args-only spec name (ground (arith, h)),
        )
        refl

-- Whatever the request asked for, and whatever its environment holds, docker run is told to join
-- the network of the run's tier and no other, to drop the three capabilities, not to let a process
-- gain privileges, and to mount nothing but the run's own volume, if it has one; no other option is
-- given than the flags -d and --init and thirteen named ones, so none that mounts, joins a network
-- or adds a capability in another way. The image's name does not start with a dash.
pub create_args-hardened :
    (print : Printer) (d : DockerRuntime) (spec : CreateSpec)
    → starts (codes "-") spec.image ≡ false
    → let given : Text → List Text = λ name. run_values name (create_args print d spec) in
      (given (codes "--network") ≡ network_name spec.network ∷ [])
      × (given (codes "--cap-drop") ≡ drop_capabilities)
      × (given (codes "--security-opt") ≡ codes "no-new-privileges" ∷ [])
      × (given (codes "-v") ≡ (
          if is_empty spec.cache_host_path
          then []
          else (spec.cache_host_path ++ (b':' ∷ spec.cache_path)) ∷ []))
      × ((name : Text) → Unknown name → given name ≡ [])
unfolding values is_flag starts text_eq base_args options volume_args
create_args-hardened print d spec image = (
  create_args-values print d spec (codes "--network") image
      ∙ rw (runtime_args-only print d (codes "--network") refl refl refl) (
          rw (network_args-network spec spec.network) (
            rw (env_args-only (codes "--network") spec.env refl)
              (rw (volume_args-only spec (codes "--network") refl) refl))),
  create_args-values print d spec (codes "--cap-drop") image
      ∙ rw (runtime_args-only print d (codes "--cap-drop") refl refl refl) (
          rw (network_args-only spec spec.network (codes "--cap-drop") refl refl) (
            rw (env_args-only (codes "--cap-drop") spec.env refl)
              (rw (volume_args-only spec (codes "--cap-drop") refl) refl))),
  create_args-values print d spec (codes "--security-opt") image
      ∙ rw (runtime_args-only print d (codes "--security-opt") refl refl refl) (
          rw (network_args-only spec spec.network (codes "--security-opt") refl refl) (
            rw (env_args-only (codes "--security-opt") spec.env refl)
              (rw (volume_args-only spec (codes "--security-opt") refl) refl))),
  create_args-values print d spec (codes "-v") image
      ∙ rw (runtime_args-only print d (codes "-v") refl refl refl) (
          rw (network_args-only spec spec.network (codes "-v") refl refl) (
            rw (env_args-only (codes "-v") spec.env refl)
              (elim (Bool-cases (is_empty spec.cache_host_path)) [
                | inl cold ↦ rw cold refl
                | inr warm ↦ rw warm refl
              ]))),
  λ name unknown. create_args-known print d spec name image unknown,
)
