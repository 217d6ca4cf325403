-- ===== src/Egress/Allowlist/Hosts.antt =====
-- Which hosts an allowlist admits (proxy.go: Permits).
use mathlib.Core.List.{reverse, reverse-append, reverse-reverse}
use teploy_sandbox.Prelude.{
  ℕ, ◌≡◌, refl, sym, ap, ◌∙◌, ◌≢◌, ◌↔◌, ◌⊎◌, inl, inr, Bool, true, false, ◌||◌, none, some, [], ◌∷◌,
  ◌++◌, arith, ◌==◌, Bool-cases, Option-cases, or_iff, and_iff, Any, any_iff, ends_iff, Text, codes,
  text_eq, text_eq_iff, starts, ends, trim_prefix, trim_suffix, CaseTable, to_lower,
}
use teploy_sandbox.Egress.Address.{split_host_port}
use teploy_sandbox.Egress.Allowlist.{
  Allowlist, http_port, https_port, is_web_port, entry_parts, host_matches, parts_admit,
  entry_admits, normal_host, request_parts, permits,
}

-- A host that an entry's host stands for: itself, or, behind a leading dot, a domain and every name
-- that ends in the dot and the domain.
abbrev pub Names : Text → Text → Type 0
Names [] host = host ≡ []
Names (c ∷ domain) host =
    ((c ≡ b'.') × ((host ≡ domain) ⊎ ((x : Text) × (host ≡ x ++ (c ∷ domain)))))
    ⊎ ((c ≢ b'.') × (host ≡ c ∷ domain))

-- The rule of the documentation: an entry with a port opens that port of exactly its host, and one
-- without opens ports 80 and 443 of the hosts that it names.
abbrev pub Opens : Text → Text → Text → Text → Type 0
Opens entry_host entry_port host port =
    ((entry_port ≢ []) × (entry_port ≡ port) × (host ≡ entry_host))
    ⊎ ((entry_port ≡ []) × ((port ≡ codes "80") ⊎ (port ≡ codes "443")) × Names entry_host host)

host_matches_dot :
    (domain host : Text)
    → host_matches (b'.' ∷ domain) host ≡ (text_eq host domain || ends (b'.' ∷ domain) host)
unfolding host_matches starts trim_prefix
host_matches_dot domain host = refl

host_matches_other :
    (c : ℕ) (domain host : Text)
    → c ≢ b'.'
    → host_matches (c ∷ domain) host ≡ text_eq host (c ∷ domain)
unfolding host_matches starts
host_matches_other c domain host h = ground arith

dot_iff :
    (domain host : Text)
    → (host_matches (b'.' ∷ domain) host ≡ true)
      ↔ ((host ≡ domain) ⊎ ((x : Text) × (host ≡ x ++ (b'.' ∷ domain))))
dot_iff domain host = rw (host_matches_dot domain host) (
  λ h. elim ((or_iff _ _).0 h) [
    | inl same ↦ inl ((text_eq_iff host domain).0 same)
    | inr longer ↦ inr ((ends_iff (b'.' ∷ domain) host).0 longer)
  ],
  λ s. (or_iff _ _).1 (elim s [
    | inl same ↦ inl ((text_eq_iff host domain).1 same)
    | inr longer ↦ inr ((ends_iff (b'.' ∷ domain) host).1 longer)
  ]),
)

is_dot : (c : ℕ) → (c ≡ b'.') ⊎ (c ≢ b'.')
is_dot c = elim (Bool-cases (c == b'.')) [
  | inl e ↦ inl (ground arith)
  | inr e ↦ inr (λ h. absurd (ground arith))
]

host_matches_iff :
    (entry_host host : Text) → (host_matches entry_host host ≡ true) ↔ Names entry_host host
host_matches_iff [] host = unfold host_matches starts in text_eq_iff host []
host_matches_iff (c ∷ domain) host = elim (is_dot c) [
  | inl dot ↦ rw dot (
    λ h. inl (refl, (dot_iff domain host).0 h),
    λ s. elim s [
      | inl (_, names) ↦ (dot_iff domain host).1 names
      | inr (not_dot, _) ↦ absurd (not_dot refl)
    ],
  )
  | inr other ↦ rw (host_matches_other c domain host other) (
    λ h. inr (other, (text_eq_iff host (c ∷ domain)).0 h),
    λ s. elim s [
      | inl (dot, _) ↦ absurd (other dot)
      | inr (_, same) ↦ (text_eq_iff host (c ∷ domain)).1 same
    ],
  )
]

pub host_matches_self : (host : Text) → host_matches host host ≡ true
host_matches_self [] = (host_matches_iff [] []).1 refl
host_matches_self (c ∷ domain) =
    (host_matches_iff (c ∷ domain) (c ∷ domain)).1
      (elim (is_dot c) [ inl dot ↦ inl (dot, inr ([], refl)) | inr other ↦ inr (other, refl) ])

is_web_port_iff :
    (port : Text) → (is_web_port port ≡ true) ↔ ((port ≡ http_port) ⊎ (port ≡ https_port))
unfolding is_web_port
is_web_port_iff port = (
  λ h. elim ((or_iff _ _).0 h) [
    | inl e ↦ inl ((text_eq_iff port http_port).0 e)
    | inr e ↦ inr ((text_eq_iff port https_port).0 e)
  ],
  λ s. (or_iff _ _).1 (elim s [
    | inl e ↦ inl ((text_eq_iff port http_port).1 e)
    | inr e ↦ inr ((text_eq_iff port https_port).1 e)
  ]),
)

parts_admit_iff :
    (entry_host entry_port host port : Text)
    → (parts_admit entry_host entry_port host port ≡ true) ↔ Opens entry_host entry_port host port
unfolding parts_admit
parts_admit_iff entry_host [] host port = (
  λ h.
      let both : (is_web_port port ≡ true) × (host_matches entry_host host ≡ true) = ground arith in
      inr (refl, (is_web_port_iff port).0 both.0, (host_matches_iff entry_host host).0 both.1),
  λ s. elim s [
    | inl (none_named, _, _) ↦ absurd (none_named refl)
    | inr (_, web, names) ↦
        rw ((is_web_port_iff port).1 web) ((host_matches_iff entry_host host).1 names)
  ],
)
parts_admit_iff entry_host (p ∷ ps) host port = (
  λ h.
      let both = (and_iff (text_eq (p ∷ ps) port) (text_eq host entry_host)).0 h in
      inl (cc, (text_eq_iff (p ∷ ps) port).0 both.0, (text_eq_iff host entry_host).0 both.1),
  λ s. elim s [
    | inl (_, same, is) ↦
        (and_iff _ _).1 ((text_eq_iff (p ∷ ps) port).1 same, (text_eq_iff host entry_host).1 is)
    | inr (e, _, _) ↦ cc
  ],
)

-- What an entry opens, by its own host and port.
abbrev OpensEntry : Text → Text → Text → Type 0
OpensEntry host port entry = Opens (entry_parts entry).0 (entry_parts entry).1 host port

-- The host and the port that an entry names: net.SplitHostPort's, or the entry itself and no port.
pub data EntryNames (entry host port : Text) : Type 0 where
  with_port : split_host_port entry ≡ some (host, port) → EntryNames entry host port
  bare : split_host_port entry ≡ none → host ≡ entry → port ≡ [] → EntryNames entry host port

-- An entry that opens a host and a port.
abbrev pub Admits : Text → Text → Text → Type 0
Admits host port entry =
    (entry_host : Text) × (entry_port : Text) × EntryNames entry entry_host entry_port
    × Opens entry_host entry_port host port

-- A host with its closing dot, if it has one, taken off.
pub data Undotted (host undotted : Text) : Type 0 where
  dotted : host ≡ undotted ++ b'.' ∷ [] → Undotted host undotted
  plain : ((x : Text) → host ≢ x ++ b'.' ∷ []) → undotted ≡ host → Undotted host undotted

entry_parts-EntryNames :
    (entry : Text) → EntryNames entry (entry_parts entry).0 (entry_parts entry).1
unfolding entry_parts
entry_parts-EntryNames entry = elim (Option-cases (split_host_port entry)) [
  | inl no_port ↦ rw (no_port, entry_parts) (bare no_port refl refl)
  | inr ((host, port), named) ↦ rw (named, entry_parts) (with_port named)
]

EntryNames-entry_parts :
    (entry host port : Text) → EntryNames entry host port → entry_parts entry ≡ (host, port)
unfolding entry_parts
EntryNames-entry_parts entry host port (with_port named) = rw (named, entry_parts) refl
EntryNames-entry_parts entry host port (bare no_port same empty) =
    rw (no_port, entry_parts, same, empty) refl

Admits-iff : (host port entry : Text) → OpensEntry host port entry ↔ Admits host port entry
Admits-iff host port entry = (
  λ opens. ((entry_parts entry).0, (entry_parts entry).1, entry_parts-EntryNames entry, opens),
  λ (entry_host, entry_port, names, opens).
      rw (EntryNames-entry_parts entry entry_host entry_port names) opens,
)

trim_prefix-plain : (c : ℕ) (s : Text) → starts (c ∷ []) s ≡ false → trim_prefix c s ≡ s
unfolding trim_prefix starts
trim_prefix-plain c [] h = refl
trim_prefix-plain c (d ∷ s) h = ground arith

trim_suffix-Undotted : (host : Text) → Undotted host (trim_suffix b'.' host)
unfolding trim_suffix trim_prefix
trim_suffix-Undotted host = elim (Bool-cases (ends (b'.' ∷ []) host)) [
  | inl closed ↦
      let (x, e) = (ends_iff (b'.' ∷ []) host).0 closed in
      let cut : trim_suffix b'.' host ≡ x =
        ap (λ h. reverse (trim_prefix b'.' (reverse h))) e
        ∙ ap (λ h. reverse (trim_prefix b'.' h)) (reverse-append x (b'.' ∷ []))
        ∙ reverse-reverse x in
      dotted (e ∙ ap (λ t. t ++ b'.' ∷ []) (sym cut))
  | inr open_end ↦
      plain
        (λ x e.
          absurd (both (ends (b'.' ∷ []) host) ((ends_iff (b'.' ∷ []) host).1 (x, e)) open_end))
        (ap reverse (trim_prefix-plain b'.' (reverse host) (unfold ends in open_end))
          ∙ reverse-reverse host)
]
  where
    both : (b : Bool) → b ≡ true → b ≡ false → ⊥
    both b h k = ground arith

module _ ⦃u : CaseTable⦄ where
  -- The host and the port that a request names: the host without a closing dot and in lower case,
  -- the port net.SplitHostPort's, or 443 if it finds none.
  pub data Asks (hostport host port : Text) : Type 0 where
    asks_port :
        (named undotted : Text)
        → split_host_port hostport ≡ some (named, port)
        → Undotted named undotted
        → host ≡ to_lower undotted
        → Asks hostport host port
    asks_https :
        (undotted : Text)
        → split_host_port hostport ≡ none
        → Undotted hostport undotted
        → host ≡ to_lower undotted
        → port ≡ codes "443"
        → Asks hostport host port

  request_parts-Asks :
      (hostport : Text) → Asks hostport (request_parts hostport).0 (request_parts hostport).1
  unfolding request_parts normal_host
  request_parts-Asks hostport = elim (Option-cases (split_host_port hostport)) [
    | inl no_port ↦
        rw (no_port, request_parts) (asks_https _ no_port (trim_suffix-Undotted hostport) refl refl)
    | inr ((host, port), named) ↦
        rw (named, request_parts) (asks_port host _ named (trim_suffix-Undotted host) refl)
  ]

  permits_parts_iff :
      (list : Allowlist) (hostport : Text)
      → (permits list hostport ≡ true)
        ↔ Any (OpensEntry (request_parts hostport).0 (request_parts hostport).1) list
  unfolding permits entry_admits
  permits_parts_iff list hostport =
      any_iff _ (OpensEntry (request_parts hostport).0 (request_parts hostport).1) list
        (λ entry. parts_admit_iff (entry_parts entry).0 (entry_parts entry).1 _ _)

  -- Permits follows the documented rule: a request names one host, in lower case and without a
  -- closing dot, and one port, 443 where it gives none, and it passes exactly if some entry opens
  -- them.
  pub permits_iff :
      (list : Allowlist) (hostport : Text)
      → (host : Text) × (port : Text) × Asks hostport host port
        × ((permits list hostport ≡ true) ↔ Any (Admits host port) list)
  unfolding permits entry_admits
  permits_iff list hostport =
      let host = (request_parts hostport).0 in
      let port = (request_parts hostport).1 in
      (
        host,
        port,
        request_parts-Asks hostport,
        any_iff _ (Admits host port) list (λ entry.
            let admit = parts_admit_iff (entry_parts entry).0 (entry_parts entry).1 host port in
            let names = Admits-iff host port entry in
            (λ e. names.0 (admit.0 e), λ a. admit.1 (names.1 a))),
      )

  -- An entry of the form `.domain:port` admits no request at all, unless the request's host itself
  -- begins with a dot: neither the domain nor a name below it.
  pub suffix_with_port-admits_nothing :
      (entry domain port hostport : Text)
      → entry_parts entry ≡ (b'.' ∷ domain, port)
      → port ≢ []
      → starts (b'.' ∷ []) (request_parts hostport).0 ≡ false
      → permits (entry ∷ []) hostport ≡ false
  suffix_with_port-admits_nothing entry domain port hostport parts given undotted =
      elim (Bool-cases (permits (entry ∷ []) hostport)) [
        | inr denied ↦ denied
        | inl admitted ↦ elim ((permits_parts_iff (entry ∷ []) hostport).0 admitted) [
          | inr nothing_else ↦ absurd nothing_else
          | inl opens ↦ elim (rw parts at opens) [
            | inl (_, _, same) ↦ absurd (unfold starts in ground (arith, same))
            | inr (none_named, _, _) ↦ absurd (given none_named)
          ]
        ]
      ]
