-- ===== src/Run/Runtime/Examples.antt =====
-- The theorems on docker's arguments and answers at concrete runs.
use teploy_sandbox.Prelude.{
  ℕ, ◌+◌, ◌≡◌, refl, true, false, some, List, [], ◌∷◌, Text, codes, text_eq, starts, pos,
}
use teploy_sandbox.Run.Types.{network_allowlist}
use teploy_sandbox.Run.Manager.Request.{CreateSpec, default_cpus}
use teploy_sandbox.Run.Runtime.Quote.{shell_quote, max_file_bytes}
use teploy_sandbox.Run.Runtime.Quote.Shell.{plain, read_word, read_word-shell_quote}
use teploy_sandbox.Run.Runtime.Quote.Bound.{take, join_chunks}
use teploy_sandbox.Run.Runtime.Args.{
  Printer, DockerRuntime, drop_capabilities, create_args, classify_exit, image_is_snapshot,
}
use teploy_sandbox.Run.Runtime.Args.Hardening.{
  Unknown, network_name, run_values, create_args-hardened,
}

read_word-shell_quote_example :
    read_word plain (shell_quote (codes "it's; rm -rf $HOME")) ≡ some (codes "it's; rm -rf $HOME")
read_word-shell_quote_example = read_word-shell_quote (codes "it's; rm -rf $HOME")

quoted_text : shell_quote (codes "a'b") ≡ codes "'a'\\''b'"
unfolding shell_quote
quoted_text = refl

abbrev content : List ℕ
content = codes "hello"

chunked : join_chunks (codes "he" ∷ codes "llo" ∷ []) ≡ take (max_file_bytes + 1) content
unfolding join_chunks take
chunked = refl

abbrev print : Printer
print = record { decimal = λ n. codes "7"; float = λ x. codes "1" }

abbrev gvisor : DockerRuntime
gvisor = record { runtime = codes "runsc"; shm_mb = pos 512 }

abbrev spec : CreateSpec
spec = record {
  name = codes "teploy-sbx-1";
  image = codes "alpine";
  env = (codes "A", codes "--network=host") ∷ [];
  memory_mb = pos 1024;
  cpus = default_cpus;
  pids = pos 256;
  network = network_allowlist;
  proxy_url = codes "http://172.31.99.1:40001";
  cache_host_path = codes "/cache/runs/r1";
  cache_path = codes "/work";
}

plain_image : starts (codes "-") spec.image ≡ false
unfolding starts
plain_image = refl

create_args-hardened_example :
    (run_values (codes "--network") (create_args print gvisor spec)
      ≡ network_name network_allowlist ∷ [])
    × (run_values (codes "--cap-drop") (create_args print gvisor spec) ≡ drop_capabilities)
    × (run_values (codes "--security-opt") (create_args print gvisor spec)
        ≡ codes "no-new-privileges" ∷ [])
    × (run_values (codes "-v") (create_args print gvisor spec) ≡ codes "/cache/runs/r1:/work" ∷ [])
    × ((name : Text) → Unknown name → run_values name (create_args print gvisor spec) ≡ [])
create_args-hardened_example = create_args-hardened print gvisor spec plain_image

timeouts :
    (classify_exit (pos 124) (pos 1000) ≡ (pos 124, true))
    × (classify_exit (pos 124) (pos 0) ≡ (pos 124, false))
unfolding classify_exit
timeouts = (refl, refl)

snapshots :
    (image_is_snapshot (codes "teploy-sbx-snap:1") ≡ true)
    × (image_is_snapshot (codes "teploy-sbx-snapx:1") ≡ false)
unfolding image_is_snapshot starts
snapshots = (refl, refl)

-- Other ways to mount, to join a network and to gain a capability are unknown options.
other_ways :
    Unknown (codes "--volume")
    × Unknown (codes "--mount")
    × Unknown (codes "--net")
    × Unknown (codes "--network=host")
    × Unknown (codes "--cap-add")
    × Unknown (codes "--privileged")
unfolding text_eq
other_ways = (refl, refl, refl, refl, refl, refl)
