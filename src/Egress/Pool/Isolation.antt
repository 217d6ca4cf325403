-- ===== src/Egress/Pool/Isolation.antt =====
-- One run's entries stay with that run (pool.go: OpenFor, Close, Shutdown).
use teploy_sandbox.Prelude.{
  ℕ, ◌≡◌, refl, ◌∙◌, inl, inr, false, ◌||◌, some, List, ◌∷◌, Option-cases, any-append, Any, Text,
  text_eq, CaseTable, lower_rune, lookup, lookup-insert, lookup-insert_self,
}
use teploy_sandbox.Egress.Allowlist.{permits, entry_admits, request_parts}
use teploy_sandbox.Egress.Entry.{accepted, validate_allowlist}
use teploy_sandbox.Egress.Entry.Normal.{parse_allowlist-validated}
use teploy_sandbox.Egress.Pool.{Server, Pool, close_server, private_server, open_for}

-- A server that was closed.
unfoldable pub Closed : Server → Pool → Type 0
Closed server p = Any (λ s. s ≡ server) p.closed

module _ ⦃u : CaseTable⦄ (lower_idem : (c : ℕ) → lower_rune (lower_rune c) ≡ lower_rune c) where
  private_server-permits :
      (p : Pool) (raws extra : List Text) (address hostport : Text)
      → validate_allowlist raws ≡ accepted extra
      → permits (private_server p extra address).allow hostport
        ≡ (permits p.base hostport || permits extra hostport)
  unfolding private_server permits
  private_server-permits p raws extra address hostport h =
      rw (parse_allowlist-validated lower_idem raws extra h) (
        any-append (entry_admits (request_parts hostport).0 (request_parts hostport).1) p.base
          extra)

  -- OpenFor, for extra entries that ValidateAllowlist has accepted, when the listener opens: the
  -- run's own proxy lets through what the base list or an extra entry admits, and nothing else; the
  -- proxies of the other runs and the shared one are as they were; and a proxy that the run had
  -- before is closed. ToLower leaves what is in lower case as it is.
  pub open_for-isolates :
      (p : Pool) (id address : Text) (raws : List Text) (e : Text) (es : List Text)
      → validate_allowlist raws ≡ accepted (e ∷ es)
      → let q = (open_for (some address) id (e ∷ es) p).1 in
        ((server : Server) × (lookup id q.per_run ≡ some server)
          × ((hostport : Text)
              → permits server.allow hostport
                ≡ (permits p.base hostport || permits (e ∷ es) hostport)))
        × ((other : Text)
            → text_eq id other ≡ false
            → lookup other q.per_run ≡ lookup other p.per_run)
        × (q.shared_server ≡ p.shared_server)
        × ((old : Server) → lookup id p.per_run ≡ some old → Closed old q)
  unfolding open_for Closed close_server
  open_for-isolates p id address raws e es h =
      let server = private_server p (e ∷ es) address in
      (
        (
          server,
          lookup-insert_self id server p.per_run,
          λ hostport. private_server-permits p raws (e ∷ es) address hostport h,
        ),
        λ other differs. lookup-insert id other server p.per_run ∙ rw differs refl,
        elim (Option-cases (lookup id p.per_run)) [
          | inl absent ↦ rw (absent, close_server) refl
          | inr (old, known) ↦ rw (known, close_server) refl
        ],
        λ old known. rw (known, close_server) (inl refl),
      )
