-- ===== src/Egress/Pool/Examples.antt =====
-- The theorems on the pool at concrete proxies.
use teploy_sandbox.Prelude.{
  ℕ, ◌≡◌, refl, false, ◌||◌, some, [], ◌∷◌, arith, Text, codes, text_eq, trim_space, starts, ends,
  trim_prefix, contains, contains_any, has_part, split, byte_length, CaseTable, lower_rune,
  to_lower, lookup,
}
use teploy_sandbox.Egress.Address.{split_host_port, atoi}
use teploy_sandbox.Egress.Ip.{is_ip}
use teploy_sandbox.Egress.Allowlist.{permits}
use teploy_sandbox.Egress.Entry.{accepted, validate_allowlist}
use teploy_sandbox.Egress.Pool.{Server, Pool, open_for}
use teploy_sandbox.Egress.Pool.Isolation.{Closed, open_for-isolates}

instance abbrev caseless : CaseTable
caseless = record { lower_beyond_ascii = λ c. c }

lower_idem : (c : ℕ) → lower_rune (lower_rune c) ≡ lower_rune c
unfolding lower_rune
lower_idem c = ground arith

abbrev old_server : Server
old_server = record { allow = codes "pypi.org" ∷ []; address = codes "10.0.0.1:4000" }

abbrev pool : Pool
pool = record {
  base = codes ".npmjs.org" ∷ [];
  shared = codes "http://10.0.0.1:3128";
  shared_server =
      some (record { allow = codes ".npmjs.org" ∷ []; address = codes "10.0.0.1:3128" });
  per_run = (codes "R1", old_server) ∷ [];
  closed = [];
}

extra_entry : validate_allowlist (codes "HEX.pm" ∷ []) ≡ accepted (codes "hex.pm" ∷ [])
unfolding validate_allowlist to_lower trim_space has_part contains contains_any split_host_port
    is_ip atoi trim_prefix split byte_length starts ends
extra_entry = refl

open_for-isolates_example :
    let q = (open_for (some (codes "10.0.0.1:4001")) (codes "R1") (codes "hex.pm" ∷ []) pool).1 in
    ((server : Server) × (lookup (codes "R1") q.per_run ≡ some server)
      × ((hostport : Text)
          → permits server.allow hostport
            ≡ (permits pool.base hostport || permits (codes "hex.pm" ∷ []) hostport)))
    × ((other : Text)
        → text_eq (codes "R1") other ≡ false
        → lookup other q.per_run ≡ lookup other pool.per_run)
    × (q.shared_server ≡ pool.shared_server)
    × ((old : Server) → lookup (codes "R1") pool.per_run ≡ some old → Closed old q)
open_for-isolates_example =
    open_for-isolates lower_idem pool (codes "R1") (codes "10.0.0.1:4001") (codes "HEX.pm" ∷ [])
      (codes "hex.pm") [] extra_entry
