-- ===== src/Egress/Address/Parts.antt =====
-- What SplitHostPort finds is in the text.
use mathlib.Core.List.{append_assoc}
use teploy_sandbox.Prelude.{
  ℕ, ◌+◌, ◌≡◌, refl, sym, ap, ◌∙◌, ◌⊎◌, inl, inr, Bool, true, false, not, ◌&&◌, ◌||◌, none, some,
  [], ◌∷◌, ◌++◌, arith, ltb, ◌==◌, Bool-cases, Option-cases, length, length-append, all, any-append,
  append_cancel, Text, contains,
}
use teploy_sandbox.Egress.Address.{
  split_last, split_first, plain_address, bracket_address, address_parts, split_host_port,
  join_host_port,
}

pub split_last-none : (c : ℕ) (s : Text) → split_last c s ≡ none → contains c s ≡ false
unfolding split_last contains
split_last-none c [] h = refl
split_last-none c (d ∷ s) h = ground (arith, split_last-none c s)

pub split_last-eq :
    (c : ℕ) (s a b : Text)
    → split_last c s ≡ some (a, b)
    → (s ≡ a ++ c ∷ b) × (contains c b ≡ false)
unfolding split_last contains
split_last-eq c [] a b h = cc
split_last-eq c (d ∷ s) a b h = elim (Option-cases (split_last c s)) [
  | inl e ↦ ground (arith, split_last-none c s e)
  | inr ((a', b'), e) ↦ ground (arith, split_last-eq c s a' b' e)
]

pub split_first-eq : (c : ℕ) (s a b : Text) → split_first c s ≡ some (a, b) → s ≡ a ++ c ∷ b
unfolding split_first
split_first-eq c [] a b h = cc
split_first-eq c (d ∷ s) a b h = elim (Option-cases (split_first c s)) [
  | inl e ↦ ground arith
  | inr ((a', b'), e) ↦ ground (arith, split_first-eq c s a' b' e)
]

-- An address with a port is `host:port`, or `[host]:port`.
abbrev pub Spells : Text → Text → Text → Type 0
Spells address host port =
    ((address ≡ host ++ b':' ∷ port) × (contains b':' host ≡ false))
    ⊎ (address ≡ b'[' ∷ (host ++ b']' ∷ b':' ∷ port))

plain_address-Spells :
    (address before port host port' : Text)
    → address ≡ before ++ b':' ∷ port
    → plain_address address before port ≡ some (host, port')
    → (port' ≡ port) × Spells address host port
unfolding plain_address
plain_address-Spells address before port host port' e h =
    let shape : (port' ≡ port) × (host ≡ before) × (contains b':' before ≡ false) = ground arith in
    (shape.0, inl (rw shape.1 (e, shape.2)))

bracket_address-Spells :
    (inside before port host port' : Text)
    → b'[' ∷ inside ≡ before ++ b':' ∷ port
    → bracket_address inside before port ≡ some (host, port')
    → (port' ≡ port) × Spells (b'[' ∷ inside) host port
unfolding bracket_address
bracket_address-Spells inside before port host port' e h =
    elim (Option-cases (split_first b']' inside)) [
      | inl none_left ↦ absurd (ground arith)
      | inr ((a, after), cut) ↦
          let shape : (port' ≡ port) × (host ≡ a) × (length a + 2 ≡ length before) = ground arith in
          let whole = split_first-eq b']' inside a after cut in
          let same : (b'[' ∷ (a ++ b']' ∷ [])) ++ after ≡ before ++ b':' ∷ port =
            ap (◌∷◌ b'[') (append_assoc a (b']' ∷ []) after ∙ sym whole) ∙ e in
          let size : length (b'[' ∷ (a ++ b']' ∷ [])) ≡ length before =
            omega (arith, length-append a (b']' ∷ []), shape.2) in
          let (front, back) =
            append_cancel (b'[' ∷ (a ++ b']' ∷ [])) before after (b':' ∷ port) same size in
          (shape.0, inr (rw (shape.1, whole, back)))
    ]

address_parts-Spells :
    (address before port host port' : Text)
    → address ≡ before ++ b':' ∷ port
    → address_parts address before port ≡ some (host, port')
    → (port' ≡ port) × Spells address host port
unfolding address_parts
address_parts-Spells [] before port host port' e h = cc
address_parts-Spells (c ∷ rest) before port host port' e h = elim (Bool-cases (c == b'[')) [
  | inl bracket ↦
      let is : c ≡ b'[' = ground arith in
      rw is (bracket_address-Spells rest before port host port' (rw is at e) (ground arith))
  | inr plain ↦ plain_address-Spells (c ∷ rest) before port host port' e (ground arith)
]

pub split_host_port-Spells :
    (address host port : Text)
    → split_host_port address ≡ some (host, port)
    → Spells address host port × (contains b':' port ≡ false)
unfolding split_host_port
split_host_port-Spells address host port h = elim (Option-cases (split_last b':' address)) [
  | inl e ↦ absurd (ground arith)
  | inr ((before, port'), e) ↦
      let (whole, no_colon) = split_last-eq b':' address before port' e in
      let (same, spells) =
        address_parts-Spells address before port' host port whole (ground arith) in
      rw same (spells, no_colon)
]

-- The other way round, for a host and a port of ASCII characters without colons and brackets.
abbrev pub is_plain : ℕ → Bool
is_plain c = ltb c 0x80 && not (c == b':' || c == b'[' || c == b']')

plain-lacks :
    (s : Text)
    → all is_plain s ≡ true
    → (contains b':' s ≡ false) × (contains b'[' s ≡ false) × (contains b']' s ≡ false)
unfolding contains
plain-lacks [] h = (refl, refl, refl)
plain-lacks (c ∷ s) h = ground (arith, plain-lacks s)

split_last-lacks : (c : ℕ) (s : Text) → contains c s ≡ false → split_last c s ≡ none
unfolding split_last contains
split_last-lacks c [] h = refl
split_last-lacks c (d ∷ s) h = ground (arith, split_last-lacks c s)

split_last-append :
    (c : ℕ) (a b : Text) → contains c b ≡ false → split_last c (a ++ c ∷ b) ≡ some (a, b)
unfolding split_last
split_last-append c [] b h = ground (arith, split_last-lacks c b h)
split_last-append c (d ∷ a) b h = rw (split_last-append c a b h)

address_parts-plain :
    (host port : Text)
    → all is_plain host ≡ true
    → all is_plain port ≡ true
    → address_parts (host ++ b':' ∷ port) host port ≡ some (host, port)
unfolding address_parts plain_address contains
address_parts-plain [] port h p = ground (arith, plain-lacks port p)
address_parts-plain (c ∷ host) port h p = ground (
  arith,
  plain-lacks port p,
  plain-lacks (c ∷ host) h,
  any-append (λ d. d == b'[') host (b':' ∷ port),
  any-append (λ d. d == b']') host (b':' ∷ port),
)

pub split_host_port-plain :
    (host port : Text)
    → all is_plain host ≡ true
    → all is_plain port ≡ true
    → split_host_port (host ++ b':' ∷ port) ≡ some (host, port)
unfolding split_host_port
split_host_port-plain host port h p =
    rw (split_last-append b':' host port (plain-lacks port p).0, split_host_port)
      (address_parts-plain host port h p)

pub split_host_port-bare : (host : Text) → all is_plain host ≡ true → split_host_port host ≡ none
unfolding split_host_port
split_host_port-bare host h =
    rw (split_last-lacks b':' host (plain-lacks host h).0, split_host_port)

pub join_host_port-plain :
    (host port : Text) → all is_plain host ≡ true → join_host_port host port ≡ host ++ b':' ∷ port
unfolding join_host_port
join_host_port-plain host port h = rw ((plain-lacks host h).0)
