-- ===== src/Egress/Proxy/Examples.antt =====
-- The theorems on the proxy at a concrete history (proxy.go).
use teploy_sandbox.Prelude.{
  ◌+◌, ◌*◌, ◌≤◌, ◌≡◌, refl, inr, true, false, none, List, [], ◌∷◌, length, all, Text, codes,
  text_eq, starts, ends, trim_suffix, contains, CaseTable, to_lower, erase,
}
use teploy_sandbox.Egress.Allowlist.{Allowlist, permits}
use teploy_sandbox.Egress.Address.{split_host_port}
use teploy_sandbox.Egress.Proxy.{HttpRequest, Transport, no_tunnels, replied, serve_http}
use teploy_sandbox.Egress.Proxy.Tunnels.{
  upward, downward, Move, close_tunnels, Event, asks, moves, run, run_moves,
}
use teploy_sandbox.Egress.Proxy.History.{IsKept, run-IsKept}
use teploy_sandbox.Egress.Proxy.Drain.{left_total, progress, gone, close_tunnels-drains}

instance abbrev caseless : CaseTable
caseless = record { lower_beyond_ascii = λ c. c }

abbrev allowed : Allowlist
allowed = codes ".github.com" ∷ codes "pypi.org" ∷ []

abbrev network : Transport
network = record {
  round_trip = λ host header. inr (record { status = 200; header = header; body = codes "ok" });
  dial = λ host. none;
  is_hijacker = true;
  hijacks = true;
}

abbrev connect_to : Text → HttpRequest
connect_to host = record {
  is_connect = true;
  is_absolute = false;
  url_host = [];
  host = host;
  header = [];
}

abbrev plain_to : Text → HttpRequest
plain_to host = record {
  is_connect = false;
  is_absolute = true;
  url_host = host;
  host = host;
  header = (codes "Te", codes "trailers" ∷ []) ∷ (codes "Accept", codes "*/*" ∷ []) ∷ [];
}

-- A tunnel whose client hangs up, one that is refused, a plain request, and a second tunnel.
abbrev proxy_events : List Event
proxy_events =
    asks network (connect_to (codes "api.github.com:443"))
    ∷ asks network (connect_to (codes "evil.example:443"))
    ∷ moves (record { index = 0; side = upward; free = true })
    ∷ asks network (plain_to (codes "pypi.org"))
    ∷ asks network (connect_to (codes "pypi.org:443"))
    ∷ []

history_runs : (run allowed proxy_events no_tunnels).running ≡ 4
unfolding run permits to_lower trim_suffix split_host_port text_eq ends starts contains
history_runs = refl

forwards_without_te :
    (serve_http network allowed (plain_to (codes "pypi.org")) no_tunnels).0
    ≡ replied (record {
      status = 200;
      header = (codes "Accept", codes "*/*" ∷ []) ∷ [];
      body = codes "ok";
    })
unfolding serve_http permits to_lower trim_suffix split_host_port erase text_eq ends starts contains
forwards_without_te = refl

run-IsKept_example : IsKept allowed (run allowed proxy_events no_tunnels)
run-IsKept_example = run-IsKept allowed proxy_events

abbrev steps : List Move
steps =
    record { index = 1; side = downward; free = false }
    ∷ record { index = 0; side = upward; free = false }
    ∷ []

close_tunnels-drains_example :
    let start = close_tunnels (run allowed proxy_events no_tunnels) in
    let p = run_moves steps start in
    (left_total p.tunnels + progress steps start ≡ left_total start.tunnels)
    × (left_total start.tunnels ≤ 10 * length start.tunnels)
    × (left_total p.tunnels ≡ 0 → p.running ≡ 0)
    × (p.running ≡ 0 → all gone p.tunnels ≡ true)
close_tunnels-drains_example = close_tunnels-drains allowed proxy_events steps
