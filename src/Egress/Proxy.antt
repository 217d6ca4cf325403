-- ===== src/Egress/Proxy.antt =====
-- internal/egress/proxy.go: the requests of the proxy and its tunnels. What DefaultTransport,
-- DialTimeout and the connection's Hijack answer is a record of arguments; the bytes that io.Copy
-- moves are not modelled. The proxy's state lists every tunnel it ever opened, in order: an entry
-- of Proxy.tunnels is the flag `listed`, and closeTun's counter is `running`. `reached` has the
-- hosts that the proxy has connected to or tried to, newest first.
pub mod Tunnels
pub mod Sound
pub mod History
pub mod Drain
mod Examples
use teploy_sandbox.Prelude.{
  ℕ, ◌+◌, ◌⊎◌, inl, inr, Bool, true, not, Option, none, some, List, [], ◌∷◌, ◌++◌, if◌then◌else◌,
  Text, codes, CaseTable, Table, erase,
}
use teploy_sandbox.Egress.Allowlist.{Allowlist, permits, suggest_entry}

-- http.Header, by canonical names.
abbrev pub Header : Type 0
Header = Table (List Text)

-- The parts of an http.HttpRequest that the proxy reads.
pub record HttpRequest : Type 0 where
  pub is_connect : Bool
  pub is_absolute : Bool
  pub url_host : Text
  pub host : Text
  pub header : Header

pub record Reply : Type 0 where
  pub status : ℕ
  pub header : Header
  pub body : Text

-- What the client is left with: a reply, a connection that Hijack failed to hand over, or a tunnel.
pub data Answer : Type 0 where
  replied : Reply → Answer
  abandoned : Answer
  established : Answer

-- The answers of the outside: `round_trip` to a forwarded request's host and header, `dial` with
-- the error if it failed, whether the writer is a Hijacker, and whether Hijack gives the
-- connection.
pub record Transport : Type 0 where
  pub round_trip : Text → Header → Text ⊎ Reply
  pub dial : Text → Option Text
  pub is_hijacker : Bool
  pub hijacks : Bool

-- The two connections of a tunnel and their entry in Proxy.tunnels.
pub record Pair : Type 0 where
  pub client_open : Bool
  pub upstream_open : Bool
  pub listed : Bool

-- Where a copy goroutine stands: in io.Copy, or before its next deferred call.
pub data Copier : Type 0 where
  copying : Copier
  returned : Copier
  client_closed : Copier
  upstream_closed : Copier
  deleted : Copier
  finished : Copier

pub record Tunnel : Type 0 where
  pub target : Text
  pub pair : Pair
  pub up : Copier
  pub down : Copier

pub record Proxy : Type 0 where
  pub tunnels : List Tunnel
  pub running : ℕ
  pub reached : List Text

abbrev pub no_tunnels : Proxy
no_tunnels = record { tunnels = []; running = 0; reached = [] }

-- http.Error.
unfoldable pub http_error : ℕ → Text → Answer
http_error status text = replied (record {
  status = status;
  header =
      (codes "Content-Type", codes "text/plain; charset=utf-8" ∷ [])
      ∷ (codes "X-Content-Type-Options", codes "nosniff" ∷ [])
      ∷ [];
  body = text ++ codes "\n";
})

-- The header names that never cross the proxy.
abbrev pub hop_by_hop : List Text
hop_by_hop =
    codes "Proxy-Connection"
    ∷ codes "Proxy-Authorization"
    ∷ codes "Connection"
    ∷ codes "Keep-Alive"
    ∷ codes "Te"
    ∷ codes "Trailer"
    ∷ codes "Transfer-Encoding"
    ∷ codes "Upgrade"
    ∷ []

-- Header.Del of each name.
unfoldable pub without : List Text → Header → Header
without [] h = h
without (name ∷ names) h = without names (erase name h)

unfoldable pub reach : Text → Proxy → Proxy
reach host p = record p { reached = host ∷ p.reached }

-- A new tunnel with both its goroutines started.
unfoldable pub open_tunnel : Text → Tunnel
open_tunnel target = record {
  target = target;
  pair = record { client_open = true; upstream_open = true; listed = true };
  up = copying;
  down = copying;
}

module _ ⦃u : CaseTable⦄ where
  unfoldable pub remedy : Text → Text
  remedy hostport =
      let entry = suggest_entry hostport in
      codes "to allow it, either pass \"egressAllow\": [\""
      ++ entry
      ++ codes
          "\"] in the POST /v1/runs body (that run only), or add it deployment-wide with SBX_EGRESS_ALLOW=\""
      ++ entry
      ++ codes
          "\" (comma-separated, appended to the built-in list) and restart teploy-sandbox. A run created with \"network\": \"open\" bypasses this proxy entirely."

  unfoldable pub deny : Text → Answer
  unfolding http_error remedy
  deny host =
      http_error 403
        (codes "egress denied by the sandbox allowlist: " ++ host ++ codes "\n" ++ remedy host)

  -- Proxy.tunnel behind a successful dial.
  unfoldable pub hijack : Transport → Text → Proxy → Answer × Proxy
  unfolding http_error open_tunnel
  hijack o target p =
      if not o.is_hijacker
      then (http_error 500 (codes "proxy cannot hijack"), p)
      else if not o.hijacks
      then (abandoned, p)
      else (
        established,
        record p { tunnels = p.tunnels ++ open_tunnel target ∷ []; running = p.running + 2 },
      )

  unfoldable pub dialled : Transport → Text → Option Text → Proxy → Answer × Proxy
  unfolding http_error hijack
  dialled o target (some e) p = (http_error 502 (codes "upstream unreachable: " ++ e), p)
  dialled o target none p = hijack o target p

  unfoldable pub tunnel : Transport → Allowlist → HttpRequest → Proxy → Answer × Proxy
  unfolding deny dialled reach
  tunnel o allow r p =
      if not (permits allow r.host)
      then (deny r.host, p)
      else dialled o r.host (o.dial r.host) (reach r.host p)

  -- The reply to a forwarded request.
  unfoldable pub forwarded : Text ⊎ Reply → Answer
  unfolding http_error
  forwarded (inl e) = http_error 502 (codes "upstream unreachable: " ++ e)
  forwarded (inr reply) = replied reply

  unfoldable pub serve_http : Transport → Allowlist → HttpRequest → Proxy → Answer × Proxy
  unfolding tunnel http_error deny forwarded reach without
  serve_http o allow r p =
      if r.is_connect
      then tunnel o allow r p
      else if not r.is_absolute
      then (http_error 400 (codes "not a proxy request"), p)
      else if not (permits allow r.url_host)
      then (deny r.url_host, p)
      else (forwarded (o.round_trip r.url_host (without hop_by_hop r.header)), reach r.url_host p)
