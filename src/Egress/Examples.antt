-- ===== src/Egress/Examples.antt =====
-- The theorems on the allowlist at concrete entries and requests, and runs of its functions.
use teploy_sandbox.Prelude.{
  ℕ, ◌≡◌, refl, ◌↔◌, true, false, [], ◌∷◌, arith, Any, Text, codes, text_eq, trim_space, starts,
  ends, trim_prefix, trim_suffix, contains, contains_any, has_part, split, byte_length, CaseTable,
  lower_rune, to_lower,
}
use teploy_sandbox.Egress.Address.{split_host_port, atoi}
use teploy_sandbox.Egress.Ip.{is_ip}
use teploy_sandbox.Egress.Allowlist.{default_allowlist, entry_parts, request_parts, permits}
use teploy_sandbox.Egress.Allowlist.Hosts.{Admits, Asks, permits_iff}
use teploy_sandbox.Egress.Entry.{
  accepted, refused, whole_tld, is_url, bad_port, bad_label, bad_host_port, many_hosts,
  validate_entry, validate_allowlist,
}
use teploy_sandbox.Egress.Entry.Normal.{validate_entry-fixed}

-- Beyond ASCII, letters with no case.
instance abbrev caseless : CaseTable
caseless = record { lower_beyond_ascii = λ c. c }

caseless_idem : (c : ℕ) → lower_rune (lower_rune c) ≡ lower_rune c
unfolding lower_rune
caseless_idem c = ground arith

mixed_case : validate_entry (codes " .HEX.pm ") ≡ accepted (codes ".hex.pm")
unfolding validate_entry to_lower trim_space has_part contains contains_any split_host_port is_ip
    atoi trim_prefix split byte_length starts ends
mixed_case = refl

refusals :
    (validate_entry (codes ".com") ≡ refused whole_tld)
    × (validate_entry (codes "https://a.b") ≡ refused is_url)
    × (validate_entry (codes "a.b:65536") ≡ refused bad_port)
    × (validate_entry (codes "-a.b") ≡ refused bad_label)
    × (validate_entry (codes "::1") ≡ refused bad_host_port)
    × (validate_entry (codes "a.b,c.d") ≡ refused many_hosts)
unfolding validate_entry to_lower trim_space has_part contains contains_any split_host_port is_ip
    atoi trim_prefix split byte_length starts ends
refusals = (refl, refl, refl, refl, refl, refl)

-- An entry that is accepted and that admits nothing.
suffix_with_port : validate_entry (codes ".example.com:8443") ≡ accepted (codes ".example.com:8443")
unfolding validate_entry to_lower trim_space has_part contains contains_any split_host_port is_ip
    atoi trim_prefix split byte_length starts ends
suffix_with_port = refl

-- So are ports that are not written as a request writes them.
odd_ports :
    (validate_entry (codes "a.b:+443") ≡ accepted (codes "a.b:+443"))
    × (permits (codes "a.b:+443" ∷ []) (codes "a.b:443") ≡ false)
    × (validate_entry (codes "a.b:0443") ≡ accepted (codes "a.b:0443"))
    × (permits (codes "a.b:0443" ∷ []) (codes "a.b:443") ≡ false)
unfolding validate_entry to_lower trim_space has_part contains contains_any split_host_port is_ip
    atoi trim_prefix trim_suffix split byte_length starts ends permits text_eq
odd_ports = (refl, refl, refl, refl)

-- A request that names no port counts as one for 443.
portless : permits (codes "forge.example.com:443" ∷ []) (codes "forge.example.com") ≡ true
unfolding permits split_host_port to_lower trim_suffix trim_prefix text_eq starts ends contains
portless = refl

defaults :
    (permits default_allowlist (codes "registry.npmjs.org:443") ≡ true)
    × (permits default_allowlist (codes "crates.io:443") ≡ false)
    × (permits default_allowlist (codes "pypi.org:22") ≡ false)
unfolding permits split_host_port to_lower trim_suffix trim_prefix text_eq starts ends contains
defaults = (refl, refl, refl)

-- Every default entry is in the form that ValidateEntry returns.
defaults_valid : validate_allowlist default_allowlist ≡ accepted default_allowlist
unfolding validate_allowlist to_lower trim_space has_part contains contains_any split_host_port
    is_ip atoi trim_prefix split byte_length starts ends
defaults_valid = refl

validate_entry-fixed_example : validate_entry (codes ".hex.pm") ≡ accepted (codes ".hex.pm")
validate_entry-fixed_example =
    validate_entry-fixed caseless_idem (codes " .HEX.pm ") (codes ".hex.pm") mixed_case

permits_iff_example :
    (host : Text) × (port : Text) × Asks (codes "repo.HEX.pm.:443") host port
    × ((permits (codes ".hex.pm" ∷ []) (codes "repo.HEX.pm.:443") ≡ true)
        ↔ Any (Admits host port) (codes ".hex.pm" ∷ []))
permits_iff_example = permits_iff (codes ".hex.pm" ∷ []) (codes "repo.HEX.pm.:443")

suffix_parts : entry_parts (codes ".example.com:8443") ≡ (codes ".example.com", codes "8443")
unfolding entry_parts split_host_port contains
suffix_parts = refl

undotted : starts (b'.' ∷ []) (request_parts (codes "api.example.com:8443")).0 ≡ false
unfolding request_parts split_host_port to_lower trim_suffix trim_prefix starts contains
undotted = refl
