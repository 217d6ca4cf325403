-- ===== src/Egress/Allowlist.antt =====
-- The allowlist of internal/egress/proxy.go: what an entry admits, the list every allowlist run
-- starts from, and the entry that a denial suggests.
pub mod Hosts
pub mod Remedy
pub mod Reparse
use teploy_sandbox.Prelude.{
  ℕ, Bool, true, false, not, ◌&&◌, ◌||◌, none, some, List, [], ◌∷◌, ◌++◌, ◌==◌, if◌then◌else◌, any,
  Text, codes, text_eq, trim_space, is_empty, starts, ends, trim_prefix, trim_suffix, CaseTable,
  to_lower,
}
use teploy_sandbox.Egress.Address.{split_host_port, join_host_port}

-- Type Allowlist.
abbrev pub Allowlist : Type 0
Allowlist = List Text

pub is_separator : ℕ → Bool
is_separator c = c == b',' || c == b' ' || c == b'\n'

-- strings.FieldsFunc: `field` is the field being read, and empty fields are dropped.
flush : Text → List Text → List Text
flush field rest = if is_empty field then rest else field ∷ rest

fields : Text → Text → List Text
unfolding is_separator flush
fields [] field = flush field []
fields (c ∷ s) field = elim (is_separator c) [
  | true ↦ flush field (fields s [])
  | false ↦ fields s (field ++ c ∷ [])
]

module _ ⦃u : CaseTable⦄ where
  keep_entries : List Text → Allowlist
  keep_entries [] = []
  keep_entries (raw ∷ rest) =
      let entry = to_lower (trim_space raw) in
      if is_empty entry then keep_entries rest else entry ∷ keep_entries rest

  -- ParseAllowlist.
  unfoldable pub parse_allowlist : Text → Allowlist
  unfolding fields keep_entries
  parse_allowlist raw = keep_entries (fields raw [])

-- DefaultAllowlist.
abbrev pub default_allowlist : Allowlist
default_allowlist =
    codes ".npmjs.org"
    ∷ codes "registry.yarnpkg.com"
    ∷ codes ".nodejs.org"
    ∷ codes "pypi.org"
    ∷ codes "files.pythonhosted.org"
    ∷ codes "proxy.golang.org"
    ∷ codes "sum.golang.org"
    ∷ codes "index.crates.io"
    ∷ codes "static.crates.io"
    ∷ codes "static.rust-lang.org"
    ∷ codes "sh.rustup.rs"
    ∷ codes ".rubygems.org"
    ∷ codes "repo.maven.apache.org"
    ∷ codes "repo1.maven.org"
    ∷ codes "plugins.gradle.org"
    ∷ codes "plugins-artifacts.gradle.org"
    ∷ codes "services.gradle.org"
    ∷ codes "downloads.gradle.org"
    ∷ codes "api.adoptium.net"
    ∷ codes "dl.google.com"
    ∷ codes "maven.google.com"
    ∷ codes "repo.packagist.org"
    ∷ codes "api.nuget.org"
    ∷ codes "builds.dotnet.microsoft.com"
    ∷ codes "repo.hex.pm"
    ∷ codes "builds.hex.pm"
    ∷ codes "pub.dev"
    ∷ codes "hackage.haskell.org"
    ∷ codes "downloads.haskell.org"
    ∷ codes "deb.debian.org"
    ∷ codes "security.debian.org"
    ∷ codes "archive.ubuntu.com"
    ∷ codes "security.ubuntu.com"
    ∷ codes "ports.ubuntu.com"
    ∷ codes ".alpinelinux.org"
    ∷ codes ".github.com"
    ∷ codes "codeload.github.com"
    ∷ codes "release-assets.githubusercontent.com"
    ∷ codes "objects.githubusercontent.com"
    ∷ codes "raw.githubusercontent.com"
    ∷ codes ".gitlab.com"
    ∷ codes ".bitbucket.org"
    ∷ codes "codeberg.org"
    ∷ codes "registry-1.docker.io"
    ∷ codes "index.docker.io"
    ∷ codes "auth.docker.io"
    ∷ codes "production.cloudfront.docker.com"
    ∷ codes "ghcr.io"
    ∷ codes "pkg-containers.githubusercontent.com"
    ∷ codes "quay.io"
    ∷ codes "cdn01.quay.io"
    ∷ codes ".mcr.microsoft.com"
    ∷ []

abbrev pub http_port : Text
http_port = codes "80"

abbrev pub https_port : Text
https_port = codes "443"

pub is_web_port : Text → Bool
is_web_port port = text_eq port http_port || text_eq port https_port

-- An entry's host and port, the port empty where the entry names none.
unfoldable pub entry_parts : Text → Text × Text
entry_parts entry = elim (split_host_port entry) [ none ↦ (entry, []) | some parts ↦ parts ]

-- The host of an entry against a request's host, for an entry with no port.
pub host_matches : Text → Text → Bool
host_matches entry_host host =
    if starts (b'.' ∷ []) entry_host
    then text_eq host (trim_prefix b'.' entry_host) || ends entry_host host
    else text_eq host entry_host

-- What one round of the loop in Permits finds.
parts_admit : Text → Text → Text → Text → Bool
unfolding is_web_port host_matches
parts_admit entry_host entry_port host port =
    if not (is_empty entry_port)
    then text_eq entry_port port && text_eq host entry_host
    else if not (is_web_port port)
    then false
    else host_matches entry_host host

pub entry_admits : Text → Text → Text → Bool
unfolding entry_parts parts_admit
entry_admits host port entry = parts_admit (entry_parts entry).0 (entry_parts entry).1 host port

module _ ⦃u : CaseTable⦄ where
  -- A host in the form in which Permits compares it.
  unfoldable pub normal_host : Text → Text
  normal_host host = to_lower (trim_suffix b'.' host)

  -- The host and the port that a request names; with no port, 443 is assumed.
  unfoldable pub request_parts : Text → Text × Text
  unfolding normal_host
  request_parts hostport = elim (split_host_port hostport) [
    | none ↦ (normal_host hostport, https_port)
    | some (host, port) ↦ (normal_host host, port)
  ]

  -- Allowlist.Permits.
  unfoldable pub permits : Allowlist → Text → Bool
  unfolding entry_admits request_parts
  permits list hostport =
      any (entry_admits (request_parts hostport).0 (request_parts hostport).1) list

  -- SuggestEntry.
  unfoldable pub suggest_entry : Text → Text
  unfolding normal_host is_web_port
  suggest_entry hostport = elim (split_host_port hostport) [
    | none ↦ normal_host hostport
    | some (host, port) ↦
        if is_web_port port then normal_host host else join_host_port (normal_host host) port
  ]
