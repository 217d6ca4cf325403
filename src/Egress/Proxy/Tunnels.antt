-- ===== src/Egress/Proxy/Tunnels.antt =====
-- The goroutines of the tunnels and CloseTunnels (internal/egress/proxy.go: tunnel, CloseTunnels),
-- as steps that may come in any order. The handler's Store and its two starts are one step.
use teploy_sandbox.Prelude.{
  ℕ, zero, suc, ◌-◌, Bool, true, false, not, ◌||◌, List, [], ◌∷◌, map, if◌then◌else◌, CaseTable,
}
use teploy_sandbox.Egress.Allowlist.{Allowlist}
use teploy_sandbox.Egress.Proxy.{
  HttpRequest, Transport, Pair, Copier, copying, returned, client_closed, upstream_closed, deleted,
  finished, Tunnel, Proxy, serve_http,
}

-- The goroutine that copies to the upstream, and the one that copies to the client.
pub data Side : Type 0 where
  upward : Side
  downward : Side

-- Closing the connection that a goroutine reads from ends its io.Copy.
unfoldable pub unblocked : Side → Pair → Bool
unblocked upward p = not p.client_open
unblocked downward p = not p.upstream_open

-- The deferred calls, last one first, as the goroutine gets on with them.
unfoldable pub next : Bool → Copier → Copier
next free copying = if free then returned else copying
next free returned = client_closed
next free client_closed = upstream_closed
next free upstream_closed = deleted
next free deleted = finished
next free finished = finished

unfoldable pub work : Copier → Pair → Pair
work copying p = p
work returned p = record p { client_open = false }
work client_closed p = record p { upstream_open = false }
work upstream_closed p = record p { listed = false }
work deleted p = p
work finished p = p

-- What closeTun.Done takes off the counter.
unfoldable pub done : Copier → ℕ
done copying = 0
done returned = 0
done client_closed = 0
done upstream_closed = 0
done deleted = 1
done finished = 0

abbrev pub copier : Side → Tunnel → Copier
copier upward t = t.up
copier downward t = t.down

-- One step of a goroutine; `free` says whether an endpoint has ended its io.Copy.
unfoldable pub move : Side → Bool → Tunnel → Tunnel
unfolding next work unblocked
move upward free t = record t {
  pair = work t.up t.pair;
  up = next (free || unblocked upward t.pair) t.up;
}
move downward free t = record t {
  pair = work t.down t.pair;
  down = next (free || unblocked downward t.pair) t.down;
}

-- Which goroutine gets on, and whether an endpoint has ended its io.Copy.
pub record Move : Type 0 where
  pub index : ℕ
  pub side : Side
  pub free : Bool

unfoldable pub move_at : ℕ → Side → Bool → List Tunnel → List Tunnel
unfolding move
move_at i side free [] = []
move_at zero side free (t ∷ ts) = move side free t ∷ ts
move_at (suc i) side free (t ∷ ts) = t ∷ move_at i side free ts

unfoldable pub done_at : ℕ → Side → List Tunnel → ℕ
unfolding done
done_at i side [] = 0
done_at zero side (t ∷ ts) = done (copier side t)
done_at (suc i) side (t ∷ ts) = done_at i side ts

unfoldable pub advance : Move → Proxy → Proxy
unfolding move_at done_at
advance m p = record p {
  tunnels = move_at m.index m.side m.free p.tunnels;
  running = p.running - done_at m.index m.side p.tunnels;
}

unfoldable pub close_if : Bool → Tunnel → Tunnel
close_if true t = record t { pair = record (t.pair) { client_open = false; upstream_open = false } }
close_if false t = t

-- Range visits what the map holds.
unfoldable pub close_tunnel : Tunnel → Tunnel
unfolding close_if
close_tunnel t = close_if t.pair.listed t

-- CloseTunnels before its Wait; the Wait is over when `running` is 0.
unfoldable pub close_tunnels : Proxy → Proxy
unfolding close_tunnel
close_tunnels p = record p { tunnels = map close_tunnel p.tunnels }

pub data Event : Type 0 where
  asks : Transport → HttpRequest → Event
  moves : Move → Event
  closes : Event

module _ ⦃u : CaseTable⦄ (allow : Allowlist) where
  unfoldable pub happen : Event → Proxy → Proxy
  unfolding serve_http advance close_tunnels
  happen (asks o r) p = (serve_http o allow r p).1
  happen (moves m) p = advance m p
  happen closes p = close_tunnels p

  unfoldable pub run : List Event → Proxy → Proxy
  unfolding happen
  run [] p = p
  run (e ∷ es) p = run es (happen e p)

unfoldable pub run_moves : List Move → Proxy → Proxy
unfolding advance
run_moves [] p = p
run_moves (m ∷ ms) p = run_moves ms (advance m p)
