-- ===== src/Egress/Ip/Chars.antt =====
-- An IP address is made of hexadecimal digits, dots and colons.
use teploy_sandbox.Prelude.{
  ℕ, zero, suc, ◌+◌, ◌-◌, ◌*◌, ◌≡◌, refl, Bool, true, false, ◌||◌, [], ◌∷◌, arith, ◌==◌, all, Text,
  codes, starts,
}
use teploy_sandbox.Egress.Ip.{
  is_hex, v4_fields, span_hex, v6_dotted, v6_rest, v6_groups, after_ellipsis, is_v6, by_first,
  is_ip,
}

unfoldable pub is_ip_char : ℕ → Bool
unfolding is_hex
is_ip_char c = is_hex c || c == b'.' || c == b':'

abbrev IpText : Text → Type 0
IpText s = all is_ip_char s ≡ true

v4_fields-chars :
    (s : Text) (value field count : ℕ) (fresh : Bool)
    → v4_fields s value field count fresh ≡ true
    → IpText s
unfolding v4_fields is_ip_char
v4_fields-chars [] value field count fresh h = refl
v4_fields-chars (c ∷ s) value field count fresh h = ground (
  arith,
  v4_fields-chars s (value * 10 + (c - b'0')) field (count + 1) false,
  v4_fields-chars s 0 (field + 1) 0 true,
)

span_hex-chars : (s : Text) → IpText (span_hex s).1 → IpText s
unfolding span_hex is_ip_char
span_hex-chars [] h = refl
span_hex-chars (c ∷ s) h = ground (arith, span_hex-chars s)

v6_dotted-chars :
    (groups : ℕ) (ellipsis : Bool) (s : Text) → v6_dotted groups ellipsis s ≡ true → IpText s
unfolding v6_dotted
v6_dotted-chars groups ellipsis s h = ground (arith, v4_fields-chars s 0 0 0 true)

v6_rest-chars :
    (more : Bool → Text → Bool) (groups : ℕ) (ellipsis : Bool) (s : Text)
    → ((e : Bool) (t : Text) → more e t ≡ true → IpText t)
    → v6_rest more groups ellipsis s ≡ true
    → IpText s
unfolding v6_rest is_ip_char
v6_rest-chars more groups ellipsis [] rec h = refl
v6_rest-chars more groups ellipsis (c ∷ []) rec h = cc
v6_rest-chars more groups ellipsis (c ∷ d ∷ []) rec h = ground (arith, rec ellipsis (d ∷ []))
v6_rest-chars more groups ellipsis (c ∷ d ∷ e ∷ s) rec h =
    ground (arith, rec ellipsis (d ∷ e ∷ s), rec true (e ∷ s))

v6_groups-chars :
    (left groups : ℕ) (ellipsis : Bool) (s : Text)
    → v6_groups left groups ellipsis s ≡ true
    → IpText s
unfolding v6_groups
v6_groups-chars zero groups ellipsis [] h = refl
v6_groups-chars zero groups ellipsis (c ∷ s) h = absurd (ground arith)
v6_groups-chars (suc left) groups ellipsis s h = ground (
  arith,
  span_hex-chars s,
  v6_dotted-chars groups ellipsis s,
  v6_rest-chars (λ e t. v6_groups left (groups + 1) e t) (groups + 1) ellipsis (span_hex s).1
      (λ e t. v6_groups-chars left (groups + 1) e t),
)

after_ellipsis-chars :
    (s : Text) → starts (codes "::") s ≡ true → after_ellipsis s ≡ true → IpText s
unfolding after_ellipsis is_ip_char starts
after_ellipsis-chars [] e h = cc
after_ellipsis-chars (c ∷ []) e h = cc
after_ellipsis-chars (c ∷ d ∷ []) e h = ground arith
after_ellipsis-chars (c ∷ d ∷ x ∷ s) e h = ground (arith, v6_groups-chars 8 0 true (x ∷ s))

is_v6-chars : (s : Text) → is_v6 s ≡ true → IpText s
unfolding is_v6
is_v6-chars s h = ground (arith, after_ellipsis-chars s, v6_groups-chars 8 0 false s)

by_first-chars : (s rest : Text) → by_first s rest ≡ true → IpText s
unfolding by_first
by_first-chars s [] h = cc
by_first-chars s (c ∷ rest) h =
    ground (arith, v4_fields-chars s 0 0 0 true, is_v6-chars s, by_first-chars s rest)

pub is_ip-chars : (s : Text) → is_ip s ≡ true → all is_ip_char s ≡ true
unfolding is_ip
is_ip-chars s h = by_first-chars s s h
