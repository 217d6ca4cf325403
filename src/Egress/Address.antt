-- ===== src/Egress/Address.antt =====
-- What internal/egress uses of the packages net and strconv: SplitHostPort, JoinHostPort, Atoi.
pub mod Parts
pub mod Numbers
use mathlib.Core.Option
use teploy_sandbox.Prelude.{
  ℕ, zero, suc, ◌+◌, ◌-◌, ◌*◌, ◌≡◌, refl, Bool, true, false, not, ◌&&◌, ◌||◌, Option, none, some,
  [], ◌∷◌, ◌++◌, map, leb, ◌==◌, if◌then◌else◌, length, Text, codes, contains, ℤ, pos, negsuc,
  two_pow_63,
}

-- The text before and behind the last `c`.
pub split_last : ℕ → Text → Option (Text × Text)
split_last c [] = none
split_last c (d ∷ s) = elim (split_last c s) [
  | some (a, b) ↦ some (d ∷ a, b)
  | none ↦ if d == c then some ([], s) else none
]

-- The text before and behind the first `c`.
pub split_first : ℕ → Text → Option (Text × Text)
split_first c [] = none
split_first c (d ∷ s) = elim (d == c) [
  | true ↦ some ([], s)
  | false ↦ elim (split_first c s) [ none ↦ none | some (a, b) ↦ some (d ∷ a, b) ]
]

-- `before` stands in front of the last colon and `port` behind it.
plain_address : Text → Text → Text → Option (Text × Text)
plain_address address before port =
    if contains b':' before || contains b'[' address || contains b']' address
    then none
    else some (before, port)

-- The same for an address that begins with a bracket, `inside` behind it: the bracket must close
-- directly in front of the last colon.
bracket_address : Text → Text → Text → Option (Text × Text)
bracket_address inside before port = elim (split_first b']' inside) [
  | none ↦ none
  | some (host, after) ↦
      if length host + 2 == length before && not (contains b'[' inside) && not (contains b']' after)
      then some (host, port)
      else none
]

address_parts : Text → Text → Text → Option (Text × Text)
unfolding plain_address bracket_address
address_parts [] before port = none
address_parts (c ∷ rest) before port =
    if c == b'[' then bracket_address rest before port else plain_address (c ∷ rest) before port

-- net.SplitHostPort: the host and the port, or none for an error.
unfoldable pub split_host_port : Text → Option (Text × Text)
unfolding split_last split_first address_parts
split_host_port address = elim (split_last b':' address) [
  | none ↦ none
  | some (before, port) ↦ address_parts address before port
]

-- net.JoinHostPort.
unfoldable pub join_host_port : Text → Text → Text
join_host_port host port =
    if contains b':' host then b'[' ∷ (host ++ (b']' ∷ b':' ∷ port)) else host ++ (b':' ∷ port)

is_digit : ℕ → Bool
is_digit c = leb b'0' c && leb c b'9'

digits_value : Text → ℕ → Option ℕ
digits_value [] n = some n
digits_value (c ∷ s) n = if is_digit c then digits_value s (n * 10 + (c - b'0')) else none

-- The digits of a number of at most `bound`.
magnitude : Text → ℕ → Option ℕ
unfolding digits_value is_digit
magnitude [] bound = none
magnitude (c ∷ s) bound = elim (digits_value (c ∷ s) 0) [
  | none ↦ none
  | some n ↦ if leb n bound then some n else none
]

pub negated : ℕ → ℤ
negated zero = pos 0
negated (suc n) = negsuc n

-- strconv.Atoi, none for an error.
unfoldable pub atoi : Text → Option ℤ
unfolding magnitude negated
atoi [] = none
atoi (c ∷ s) =
    if c == b'+'
    then Option.map pos (magnitude s (two_pow_63 - 1))
    else if c == b'-'
    then Option.map negated (magnitude s two_pow_63)
    else Option.map pos (magnitude (c ∷ s) (two_pow_63 - 1))

ipv6 : split_host_port (codes "[::1]:443") ≡ some (codes "::1", codes "443")
unfolding split_host_port contains
ipv6 = refl

bare_ipv6 : (split_host_port (codes "::1") ≡ none) × (split_host_port (codes "[::1]") ≡ none)
unfolding split_host_port contains
bare_ipv6 = (refl, refl)

named : split_host_port (codes "example.com:8443") ≡ some (codes "example.com", codes "8443")
unfolding split_host_port contains
named = refl

signed : (atoi (codes "+80") ≡ some (pos 80)) × (atoi (codes "-1") ≡ some (negsuc 0))
unfolding atoi
signed = (refl, refl)

no_number : (atoi (codes "8o") ≡ none) × (atoi (codes "9223372036854775808") ≡ none)
unfolding atoi
no_number = (refl, refl)
