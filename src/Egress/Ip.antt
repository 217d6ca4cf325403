-- ===== src/Egress/Ip.antt =====
-- net.ParseIP, as far as ValidateEntry uses it: whether a text is an IP address.
pub mod Chars
use teploy_sandbox.Prelude.{
  ℕ, zero, suc, ◌+◌, ◌-◌, ◌*◌, ◌≡◌, refl, Bool, true, false, not, ◌&&◌, ◌||◌, [], ◌∷◌, ltb, leb,
  ◌==◌, if◌then◌else◌, Text, codes, text_eq, is_empty, starts, contains,
}

is_digit : ℕ → Bool
is_digit c = leb b'0' c && leb c b'9'

unfoldable pub is_hex : ℕ → Bool
unfolding is_digit
is_hex c = is_digit c || (leb b'a' c && leb c b'f') || (leb b'A' c && leb c b'F')

-- The four fields of a dotted address. `value` and `count` are those of the field being read, `field`
-- is its place, and `fresh` holds at its start.
v4_fields : Text → ℕ → ℕ → ℕ → Bool → Bool
unfolding is_digit
v4_fields [] value field count fresh = field == 3
v4_fields (c ∷ s) value field count fresh =
    let digit = v4_fields s (value * 10 + (c - b'0')) field (count + 1) false in
    let next = v4_fields s 0 (field + 1) 0 true in
    if is_digit c
    then (if (count == 1 && value == 0) || ltb 255 (value * 10 + (c - b'0')) then false else digit)
    else if c == b'.'
    then (if fresh || is_empty s || field == 3 then false else next)
    else false

-- The number of hexadecimal digits in front, and what follows them.
span_hex : Text → ℕ × Text
unfolding is_hex
span_hex [] = (0, [])
span_hex (c ∷ s) = let (n, rest) = span_hex s in if is_hex c then (suc n, rest) else (0, c ∷ s)

-- All the text is used, and the groups are eight, or fewer with an ellipsis.
v6_end : ℕ → Bool → Text → Bool
v6_end groups ellipsis s = is_empty s && (if ltb groups 8 then ellipsis else not ellipsis)

-- A dotted address may stand for the last two groups.
v6_dotted : ℕ → Bool → Text → Bool
unfolding v4_fields v6_end
v6_dotted groups ellipsis s =
    if (not ellipsis && not (groups == 6)) || ltb 8 (groups + 2)
    then false
    else v4_fields s 0 0 0 true && v6_end (groups + 2) ellipsis []

-- What follows a group: the end, a colon and a group, or an ellipsis. `more` reads the groups behind.
v6_rest : (Bool → Text → Bool) → ℕ → Bool → Text → Bool
unfolding v6_end
v6_rest more groups ellipsis [] = v6_end groups ellipsis []
v6_rest more groups ellipsis (c ∷ []) = false
v6_rest more groups ellipsis (c ∷ d ∷ s) =
    if not (c == b':')
    then false
    else if d == b':'
    then (if ellipsis then false else if is_empty s then v6_end groups true [] else more true s)
    else more ellipsis (d ∷ s)

-- The groups from number `groups` on, of which `left` may follow.
v6_groups : ℕ → ℕ → Bool → Text → Bool
unfolding v6_end v6_dotted v6_rest span_hex
v6_groups zero groups ellipsis s = v6_end groups ellipsis s
v6_groups (suc left) groups ellipsis s =
    let (n, rest) = span_hex s in
    if n == 0 || ltb 4 n
    then false
    else if starts (b'.' ∷ []) rest
    then v6_dotted groups ellipsis s
    else v6_rest (λ e t. v6_groups left (groups + 1) e t) (groups + 1) ellipsis rest

-- What stands behind a leading ellipsis, the ellipsis included in the text.
after_ellipsis : Text → Bool
unfolding v6_groups
after_ellipsis [] = false
after_ellipsis (c ∷ []) = false
after_ellipsis (c ∷ d ∷ s) = if is_empty s then true else v6_groups 8 0 true s

-- A zone is read by netip.ParseAddr and refused by net.ParseIP.
is_v6 : Text → Bool
unfolding v6_groups after_ellipsis
is_v6 s =
    if contains b'%' s
    then false
    else if starts (codes "::") s
    then after_ellipsis s
    else v6_groups 8 0 false s

-- The first of `.`, `:` and `%` decides which form is read.
by_first : Text → Text → Bool
unfolding is_v6 v4_fields
by_first s [] = false
by_first s (c ∷ rest) =
    let later = by_first s rest in
    if c == b'.'
    then v4_fields s 0 0 0 true
    else if c == b':'
    then is_v6 s
    else if c == b'%'
    then false
    else later

-- `net.ParseIP(s) != nil`.
unfoldable pub is_ip : Text → Bool
unfolding by_first
is_ip s = by_first s s

dotted : (is_ip (codes "10.1.2.3") ≡ true) × (is_ip (codes "10.1.2") ≡ false)
unfolding is_ip
dotted = (refl, refl)

odd_dotted :
    (is_ip (codes "10.01.2.3") ≡ false)
    × (is_ip (codes "10.1.2.256") ≡ false)
    × (is_ip (codes "10.1.2.3.") ≡ false)
unfolding is_ip
odd_dotted = (refl, refl, refl)

colons :
    (is_ip (codes "::1") ≡ true)
    × (is_ip (codes "::") ≡ true)
    × (is_ip (codes "2001:db8::ff00:42:8329") ≡ true)
    × (is_ip (codes "::ffff:10.1.2.3") ≡ true)
    × (is_ip (codes "1:2:3:4:5:6:7:8") ≡ true)
unfolding is_ip starts text_eq contains
colons = (refl, refl, refl, refl, refl)

odd_colons :
    (is_ip (codes "1::2::3") ≡ false)
    × (is_ip (codes "1:2:3:4:5:6:7") ≡ false)
    × (is_ip (codes "1:2:3:4:5:6:7:8:9") ≡ false)
    × (is_ip (codes "fe80::1%eth0") ≡ false)
    × (is_ip (codes "12345::") ≡ false)
unfolding is_ip starts text_eq contains
odd_colons = (refl, refl, refl, refl, refl)
