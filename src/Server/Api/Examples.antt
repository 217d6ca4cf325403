-- ===== src/Server/Api/Examples.antt =====
-- The theorems on the API at a small server.
use teploy_sandbox.Prelude.{
  ◌≡◌, refl, ◌↔◌, true, false, none, some, [], ◌∷◌, Text, codes, CaseTable, pos, ok, err, not_found,
  internal,
}
use teploy_sandbox.Run.Types.{Run, network_none}
use teploy_sandbox.Run.Manager.World.{Answers}
use teploy_sandbox.Server.Api.{decoded, ExecRequest, Outside, State}
use teploy_sandbox.Server.Api.Exec.{handle_exec, destroys, execs, serve}
use teploy_sandbox.Server.Api.Exec.Answers.{IsAnswer, serve-IsAnswer, serve-unauthorized}
use teploy_sandbox.Server.Api.Exec.Settled.{
  Streams, SameRuns, handle_exec-SameRuns, handle_exec-Streams_iff,
}

instance abbrev caseless : CaseTable
caseless = record { lower_beyond_ascii = λ c. c }

abbrev id_1 : Text
id_1 = codes "R1"

abbrev leased : Run
leased = record {
  id = id_1;
  image = codes "alpine";
  network = network_none;
  container_id = codes "c1";
  warm = none;
  cache_dir = [];
  cache_path = [];
  created_at = 0;
  expires_at = 1000;
  lease = some (record { holder = codes "alice"; generation = 2; expires_at = 500 });
  lease_gen = 2;
  execs = 0;
}

abbrev answers : Answers
answers = record {
  image_is_snapshot = λ image. ok false;
  boot = λ id slug. err internal;
  boot_empty = λ id. err internal;
  open_for = λ id extra. err internal;
  create = λ spec. err internal;
  leftover = λ spec. none;
  seed_volume = λ container image path. false;
  remove = λ container. true;
  volume_in_use = λ id. false;
}

-- The command writes a line and exits with code 0.
abbrev outside : Outside
outside = record {
  config = record { proxy_url = []; has_egress = false; has_cache = false };
  answers = answers;
  images = record { snapshot = λ container path ref. true; remove_image = λ ref. true };
  cache = record {
    commit = λ id slug. err internal;
    hash = λ id. err internal;
    manifest = λ slug. err not_found;
    drop = λ slug. err not_found;
  };
  error_text = λ e. codes "refused";
  now = 100;
  later = 101;
  ulid = codes "R2";
  others = λ m. m;
  during_copy = λ w. w;
  writes_file = λ container path content. ok tt;
  reads_file = λ container path. err internal;
  runs = λ container command. record {
    output = (codes "stdout", codes "hi\n") ∷ [];
    exit_code = pos 0;
    timed_out = false;
    failure = none;
  };
  can_stream = true;
  sends = λ n. true;
  exit_text = λ code timed_out. codes "{}";
}

abbrev state : State
state = record {
  world = record {
    runs = (id_1, leased) ∷ [];
    containers = λ c. true;
    volumes = λ v. false;
    proxies = λ p. false;
  };
  images = λ ref. false;
}

abbrev by_alice : ExecRequest
by_alice = record {
  cmd = codes "ls";
  cwd = [];
  timeout_sec = pos 0;
  env = [];
  owner = codes "alice";
  generation = 2;
}

serve-IsAnswer_example :
    IsAnswer
      (serve outside (codes "token") (codes "Bearer token") (execs id_1 (decoded by_alice)) state).0
serve-IsAnswer_example =
    serve-IsAnswer outside (codes "token") (codes "Bearer token") (execs id_1 (decoded by_alice))
      state

serve-unauthorized_example :
    ((serve outside (codes "token") [] (destroys id_1) state).0.status ≡ 401)
    × ((serve outside (codes "token") [] (destroys id_1) state).1 ≡ state)
serve-unauthorized_example =
    serve-unauthorized outside (codes "token") [] (destroys id_1) state (λ e. cc) (λ e. cc)

handle_exec-SameRuns_example : SameRuns state (handle_exec outside id_1 (decoded by_alice) state).1
handle_exec-SameRuns_example =
    handle_exec-SameRuns outside id_1 (decoded by_alice) state (λ m. refl)

handle_exec-Streams_iff_example :
    ((handle_exec outside id_1 (decoded by_alice) state).0.status ≡ 200)
    ↔ Streams outside id_1 by_alice state
handle_exec-Streams_iff_example = handle_exec-Streams_iff outside id_1 by_alice state
