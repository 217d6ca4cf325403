-- ===== src/Run/Manager/Examples.antt =====
-- The theorems on runs at concrete worlds.
mod Tracked
use teploy_sandbox.Prelude.{
  ℕ, ◌≤◌, ◌≡◌, refl, true, false, none, some, [], ◌∷◌, ◌++◌, arith, Text, codes, text_eq,
  trim_space, starts, ends, trim_prefix, contains, contains_any, has_part, split, byte_length,
  CaseTable, to_lower, lookup, ℤ, pos, seconds, Result, ok, err, internal,
}
use teploy_sandbox.Run.Types.{Run, network_allowlist, max_ttl}
use teploy_sandbox.Egress.Address.{split_host_port, atoi}
use teploy_sandbox.Egress.Ip.{is_ip}
use teploy_sandbox.Egress.Entry.{validate_allowlist}
use teploy_sandbox.Run.Paths.{parse_network, normalize_slug, validate_warm_path}
use teploy_sandbox.Run.Manager.Request.{
  CreateRequest, Config, Plan, wants_proxy, ttl_of, check_request, spec_of,
}
use teploy_sandbox.Run.Manager.Request.Checks.{Kept}
use teploy_sandbox.Run.Manager.World.{with_member, without_member, World, Answers}
use teploy_sandbox.Run.Manager.World.Effects.{releases_volume}
use teploy_sandbox.Run.Manager.Create.{create}
use teploy_sandbox.Run.Manager.Create.Undo.{Undone, Fresh}
use teploy_sandbox.Run.Manager.Create.Stages.{Outcome}
use teploy_sandbox.Run.Manager.Create.Ends.{
  create-Undone, create-registers, create_ttl, create_wrapped,
}
use teploy_sandbox.Run.Manager.Destroy.{destroy, destroy_begin, destroy_end}
use teploy_sandbox.Run.Manager.Destroy.Removed.{Destroyed, Retained, destroy_lem}
use teploy_sandbox.Run.Lease.{acquire_lease}
use teploy_sandbox.Run.Manager.Destroy.Restored.{finishing, destroy_forgets_ends}
use teploy_sandbox.Run.Manager.Reap.{due_runs, reap}
use teploy_sandbox.Run.Manager.Reap.Expired.{
  Distinct, spared, left_of, ends_container, ends_volume, ends_proxy, reap_lem, reap_untracks,
}
use teploy_sandbox.Run.Runtime.Args.{image_is_snapshot}
use teploy_sandbox.Run.Manager.Snapshots.{ImageAnswers, snapshot, delete_snapshot}
use teploy_sandbox.Run.Manager.Snapshots.Deletable.{delete_snapshot-confined, delete-snapshot}
use teploy_sandbox.Run.Manager.Destroy.{get}
use teploy_sandbox.Run.Manager.Warm.{CacheAnswers, warm_run, commit_slug, commit_warm}
use teploy_sandbox.Run.Manager.Lifetime.{SameReads, destroy-create}

instance abbrev caseless : CaseTable
caseless = record { lower_beyond_ascii = λ c. c }

abbrev id_1 : Text
id_1 = codes "R1"

-- Late in the year 2025, a minute later, and 9223372036709551616 nanoseconds earlier.
abbrev start : ℕ
start = 63900000000000000000

abbrev later : ℕ
later = 63900000060000000000

abbrev earlier : ℕ
earlier = 54676627963290448384

abbrev config : Config
config = record { proxy_url = codes "http://10.0.0.1:3128"; has_egress = true; has_cache = true }

abbrev empty : World
empty = record { runs = []; containers = λ c. false; volumes = λ b. false; proxies = λ b. false }

-- Everything works but the copy of a snapshot's workspace.
abbrev answers : Answers
answers = record {
  image_is_snapshot = λ image. ok (starts (codes "teploy-sbx-snap:") image);
  boot = λ id slug.
      ok
        (record { dir = codes "/cache/run/" ++ id; lock_hash = []; repo_dir = []; booted = false });
  boot_empty = λ id. ok (codes "/cache/run/" ++ id);
  open_for = λ id extra. ok (codes "http://10.0.0.1:40001");
  create = λ spec. ok (codes "c1");
  leftover = λ spec. none;
  seed_volume = λ container image path. false;
  remove = λ container. true;
  volume_in_use = λ id. false;
}

fresh : Fresh answers id_1 empty
unfolding Fresh
fresh = (refl, refl, refl, λ spec c h. refl, λ c. refl)

-- A warm run with a private proxy.
abbrev warm_request : Text → ℤ → CreateRequest
warm_request image ttl_sec = record {
  image = image;
  env = [];
  ttl_sec = ttl_sec;
  network = codes "allowlist";
  egress_allow = codes "hex.pm" ∷ [];
  limits = none;
  warm = some (record { repo = codes "Org/App"; path = [] });
}

abbrev run_1 : ℕ → Run
run_1 expires_at = record {
  id = id_1;
  image = codes "alpine";
  network = network_allowlist;
  container_id = codes "c1";
  warm = some (record { repo = codes "org/app"; booted = false; lock_hash = []; repo_dir = [] });
  cache_dir = codes "/cache/run/R1";
  cache_path = codes "/work";
  created_at = start;
  expires_at = expires_at;
  lease = none;
  lease_gen = 0;
  execs = 0;
}

abbrev created : Text → ℤ → Result Run × World
created image ttl_sec = create config answers (warm_request image ttl_sec) start id_1 empty

created_ok :
    created (codes "alpine") (pos 60) ≡ (ok (run_1 later), (created (codes "alpine") (pos 60)).1)
unfolding create spec_of check_request parse_network validate_allowlist ttl_of seconds wants_proxy
    normalize_slug validate_warm_path text_eq trim_space to_lower has_part contains contains_any
    split_host_port is_ip atoi trim_prefix split byte_length starts ends
created_ok = refl

-- The restore of a snapshot fails when its workspace cannot be copied.
abbrev snapshot_image : Text
snapshot_image = codes "teploy-sbx-snap:1"

restore_failed :
    created snapshot_image (pos 60) ≡ (err internal, (created snapshot_image (pos 60)).1)
unfolding create spec_of check_request parse_network validate_allowlist ttl_of seconds wants_proxy
    normalize_slug validate_warm_path text_eq trim_space to_lower has_part contains contains_any
    split_host_port is_ip atoi trim_prefix split byte_length starts ends
restore_failed = refl

create-Undone_example : Undone answers (created snapshot_image (pos 60)).1 empty
create-Undone_example =
    create-Undone config answers (warm_request snapshot_image (pos 60)) start id_1 empty internal
      (created snapshot_image (pos 60)).1 fresh restore_failed

-- The world with the run.
abbrev warm_world : World
warm_world = (created (codes "alpine") (pos 60)).1

create-registers_example :
    (plan : Plan) × Kept config (warm_request (codes "alpine") (pos 60)) plan
    × Outcome config answers start id_1
        (warm_request (codes "alpine") (pos 60))
        plan
        empty
        (ok (run_1 later))
        warm_world
create-registers_example =
    create-registers config answers (warm_request (codes "alpine") (pos 60)) start id_1 empty
      (run_1 later) warm_world fresh created_ok

-- 9223372037 seconds are -9223372036709551616 nanoseconds.
wrapped_ok :
    created (codes "alpine") (pos 9223372037)
    ≡ (ok (run_1 earlier), (created (codes "alpine") (pos 9223372037)).1)
unfolding create spec_of check_request parse_network validate_allowlist ttl_of seconds wants_proxy
    normalize_slug validate_warm_path text_eq trim_space to_lower has_part contains contains_any
    split_host_port is_ip atoi trim_prefix split byte_length starts ends
wrapped_ok = refl

create_wrapped_example : earlier ≤ start
create_wrapped_example =
    create_wrapped config answers (warm_request (codes "alpine") (pos 9223372037)) start id_1 empty
      (run_1 earlier) (created (codes "alpine") (pos 9223372037)).1 9223372037 fresh wrapped_ok refl
      (omega arith) (omega arith)

untracked : lookup id_1 empty.runs ≡ none
unfolding lookup
untracked = refl

freed : releases_volume config answers (run_1 later) ≡ true
unfolding releases_volume
freed = refl

destroy-create_example :
    let r = destroy config answers id_1 warm_world in (r.0 ≡ ok tt) × SameReads r.1 empty
destroy-create_example =
    destroy-create config answers (warm_request (codes "alpine") (pos 60)) start id_1 empty
      (run_1 later) warm_world fresh untracked created_ok refl (λ wants. freed)
