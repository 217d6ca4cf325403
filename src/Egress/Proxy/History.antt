-- ===== src/Egress/Proxy/History.antt =====
-- The proxy over whole histories of requests and of its goroutines' steps (proxy.go).
use teploy_sandbox.Prelude.{
  ◌+◌, ◌≡◌, refl, sym, ◌∙◌, inl, inr, true, Option, none, some, List, [], ◌∷◌, ◌++◌, arith,
  Bool-cases, all, all-append, Text, CaseTable,
}
use teploy_sandbox.Egress.Allowlist.{Allowlist, permits}
use teploy_sandbox.Egress.Proxy.{
  HttpRequest, Transport, Proxy, no_tunnels, open_tunnel, reach, hijack, dialled, tunnel,
  serve_http,
}
use teploy_sandbox.Egress.Proxy.Tunnels.{
  Move, advance, close_tunnels, Event, asks, moves, closes, happen, run,
}
use teploy_sandbox.Egress.Proxy.Sound.{
  past, sound, active, active_total, all-move_at, all-map_close, active-move_at, active-close,
  active-append,
}

new_sound : (target : Text) → all sound (open_tunnel target ∷ []) ≡ true
unfolding sound open_tunnel past
new_sound target = refl

new_active : (target : Text) → active_total (open_tunnel target ∷ []) ≡ 2
unfolding active_total active open_tunnel
new_active target = refl

module _ ⦃u : CaseTable⦄ (allow : Allowlist) where
  -- Every tunnel is sound, closeTun counts the goroutines that run, and every host was permitted.
  pub record IsKept (p : Proxy) : Type 0 where
    pub tunnels_sound : all sound p.tunnels ≡ true
    pub counted : p.running ≡ active_total p.tunnels
    pub permitted : all (permits allow) p.reached ≡ true

  open_tunnel-IsKept :
      (target : Text) (p : Proxy)
      → IsKept p
      → IsKept
          (record p { tunnels = p.tunnels ++ open_tunnel target ∷ []; running = p.running + 2 })
  open_tunnel-IsKept target p k =
      let new = new_active target in
      let total = active-append p.tunnels (open_tunnel target ∷ []) in
      let counted = k.counted in
      record {
        tunnels_sound =
            rw (all-append sound p.tunnels (open_tunnel target ∷ []), k.tunnels_sound)
              (new_sound target);
        counted = omega arith;
        permitted = k.permitted;
      }

  hijack-IsKept :
      (o : Transport) (target : Text) (p : Proxy) → IsKept p → IsKept (hijack o target p).1
  unfolding hijack
  hijack-IsKept o target p k = elim (Bool-cases o.is_hijacker) [
    | inr n ↦ rw (n, hijack) k
    | inl h ↦ elim (Bool-cases o.hijacks) [
      | inr n ↦ rw (h, n, hijack) k
      | inl y ↦ rw (h, y, hijack) (open_tunnel-IsKept target p k)
    ]
  ]

  dialled-IsKept :
      (o : Transport) (target : Text) (e : Option Text) (p : Proxy)
      → IsKept p
      → IsKept (dialled o target e p).1
  unfolding dialled
  dialled-IsKept o target none p k = hijack-IsKept o target p k
  dialled-IsKept o target (some e) p k = k

  reach-IsKept :
      (host : Text) (p : Proxy) → permits allow host ≡ true → IsKept p → IsKept (reach host p)
  unfolding reach
  reach-IsKept host p h k = record {
    tunnels_sound = k.tunnels_sound;
    counted = k.counted;
    permitted = rw h k.permitted;
  }

  tunnel-IsKept :
      (o : Transport) (r : HttpRequest) (p : Proxy) → IsKept p → IsKept (tunnel o allow r p).1
  unfolding tunnel
  tunnel-IsKept o r p k = elim (Bool-cases (permits allow r.host)) [
    | inr n ↦ rw (n, tunnel) k
    | inl h ↦ rw (h, tunnel) (dialled-IsKept o r.host (o.dial r.host) _ (reach-IsKept r.host p h k))
  ]

  serve_http-IsKept :
      (o : Transport) (r : HttpRequest) (p : Proxy) → IsKept p → IsKept (serve_http o allow r p).1
  unfolding serve_http
  serve_http-IsKept o r p k = elim (Bool-cases r.is_connect) [
    | inl c ↦ rw (c, serve_http) (tunnel-IsKept o r p k)
    | inr n ↦ elim (Bool-cases r.is_absolute) [
      | inr m ↦ rw (n, m, serve_http) k
      | inl a ↦ elim (Bool-cases (permits allow r.url_host)) [
        | inr m ↦ rw (n, a, m, serve_http) k
        | inl h ↦ rw (n, a, h, serve_http) (reach-IsKept r.url_host p h k)
      ]
    ]
  ]

  pub advance-IsKept : (m : Move) (p : Proxy) → IsKept p → IsKept (advance m p)
  unfolding advance
  advance-IsKept m p k =
      let moved = active-move_at m.index m.side m.free p.tunnels in
      let counted = k.counted in
      record {
        tunnels_sound = all-move_at m.index m.side m.free p.tunnels k.tunnels_sound;
        counted = omega arith;
        permitted = k.permitted;
      }

  pub close_tunnels-IsKept : (p : Proxy) → IsKept p → IsKept (close_tunnels p)
  unfolding close_tunnels
  close_tunnels-IsKept p k = record {
    tunnels_sound = all-map_close p.tunnels k.tunnels_sound;
    counted = k.counted ∙ sym (active-close p.tunnels);
    permitted = k.permitted;
  }

  happen-IsKept : (e : Event) (p : Proxy) → IsKept p → IsKept (happen allow e p)
  unfolding happen
  happen-IsKept (asks o r) p k = serve_http-IsKept o r p k
  happen-IsKept (moves m) p k = advance-IsKept m p k
  happen-IsKept closes p k = close_tunnels-IsKept p k

  run_from-IsKept : (es : List Event) (p : Proxy) → IsKept p → IsKept (run allow es p)
  unfolding run
  run_from-IsKept [] p k = k
  run_from-IsKept (e ∷ es) p k = run_from-IsKept es (happen allow e p) (happen-IsKept e p k)

  no_tunnels-IsKept : IsKept no_tunnels
  unfolding active_total
  no_tunnels-IsKept = record { tunnels_sound = refl; counted = refl; permitted = refl }

  -- After any history of requests, of steps of the goroutines in any order and of CloseTunnels, the
  -- proxy has reached only hosts that its allowlist permits, a tunnel with an open connection is in
  -- the registry, the goroutines have made the deferred calls they are past, and closeTun counts
  -- those that run.
  pub run-IsKept : (es : List Event) → IsKept (run allow es no_tunnels)
  run-IsKept es = run_from-IsKept es no_tunnels no_tunnels-IsKept
