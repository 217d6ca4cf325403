-- ===== src/Egress/Pool.antt =====
-- internal/egress/pool.go: the proxies that the daemon serves. A private proxy is its allowlist and
-- its address; a server that was closed, with its tunnels, is in the list `closed`. Under Pool's
-- mutex perRun and perRunPx always change together, so they are one table.
pub mod Isolation
pub mod Teardown
mod Examples
use teploy_sandbox.Prelude.{
  Option, none, some, List, [], ◌∷◌, ◌++◌, map, Text, codes, join, CaseTable, Table, lookup, insert,
  erase, Result, ok, err, internal,
}
use teploy_sandbox.Egress.Allowlist.{Allowlist, parse_allowlist, permits}

-- What the handler of a listener lets through, and where it listens.
pub record Server : Type 0 where
  pub allow : Allowlist
  pub address : Text

pub record Pool : Type 0 where
  pub base : Allowlist
  pub shared : Text
  pub shared_server : Option Server
  pub per_run : Table Server
  pub closed : List Server

-- CloseTunnels and Close of a server that a run has.
close_server : Option Server → Pool → Pool
close_server none p = p
close_server (some server) p = record p { closed = server ∷ p.closed }

-- Pool.Start, when `net.Listen` has answered with the listener's address, or has failed.
unfoldable pub start : Option Text → Pool → Result Text × Pool
start none p = (err internal, p)
start (some address) p =
    let url = codes "http://" ++ address in
    (
      ok url,
      record p {
        shared = url;
        shared_server = some (record { allow = p.base; address = address });
      },
    )

-- Pool.SharedURL.
abbrev pub shared_url : Pool → Text
shared_url p = p.shared

module _ ⦃u : CaseTable⦄ where
  -- The server of Pool.OpenFor for a run with extra entries.
  pub private_server : Pool → List Text → Text → Server
  private_server p extra address = record {
    allow = p.base ++ parse_allowlist (join extra b',');
    address = address;
  }

  -- Pool.OpenFor, with the answer of `net.Listen`.
  unfoldable pub open_for : Option Text → Text → List Text → Pool → Result Text × Pool
  unfolding close_server private_server
  open_for listening id [] p = (ok (shared_url p), p)
  open_for none id (e ∷ es) p = (err internal, p)
  open_for (some address) id (e ∷ es) p =
      let closed = close_server (lookup id p.per_run) p in
      (
        ok (codes "http://" ++ address),
        record closed { per_run = insert id (private_server p (e ∷ es) address) p.per_run },
      )

-- Pool.Close.
unfoldable pub close : Text → Pool → Pool
unfolding close_server
close id p =
    let taken = record p { per_run = erase id p.per_run } in
    close_server (lookup id p.per_run) taken

close_ids : List Text → Pool → Pool
unfolding close
close_ids [] p = p
close_ids (id ∷ ids) p = close_ids ids (close id p)

-- Pool.Shutdown.
unfoldable pub shutdown : Pool → Pool
unfolding close_ids close_server
shutdown p =
    let rest = close_ids (map (λ entry. entry.0) p.per_run) p in close_server p.shared_server rest
