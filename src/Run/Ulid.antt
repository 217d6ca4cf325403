-- ===== src/Run/Ulid.antt =====
-- NewULID of internal/run/ulid.go. The random bytes are an argument.
pub mod Powers
pub mod Decode
pub mod Alphabet
mod Examples
use Prim.Native.Nat.{bit_or}
use teploy_sandbox.Prelude.{
  ℕ, zero, suc, ◌+◌, ◌-◌, ◌*◌, ◌/◌, ◌%◌, ◌^◌, true, false, ◌&&◌, List, [], ◌∷◌, ◌++◌, ltb, leb,
  ◌==◌, if◌then◌else◌, length, Text, codes,
}

-- ulidAlphabet.
abbrev pub ulid_alphabet : Text
ulid_alphabet = codes "0123456789ABCDEFGHJKMNPQRSTVWXYZ"

abbrev pub char_at : ℕ → Text → ℕ
char_at n [] = 0
char_at n (c ∷ s) = if n == 0 then c else char_at (n - 1) s

-- `ulidAlphabet[acc&31]`.
unfoldable pub ulid_char : ℕ → ℕ
ulid_char acc = char_at (acc % 32) ulid_alphabet

-- `bin[0]` to `bin[5]`.
unfoldable pub time_bytes : ℕ → List ℕ
time_bytes ms =
    ms / 2 ^ 40 % 256
    ∷ ms / 2 ^ 32 % 256
    ∷ ms / 2 ^ 24 % 256
    ∷ ms / 2 ^ 16 % 256
    ∷ ms / 2 ^ 8 % 256
    ∷ ms % 256
    ∷ []

-- `acc`, `bits`, and the characters of `out` behind `pos`.
pub record Encoder : Type 0 where
  pub acc : ℕ
  pub bits : ℕ
  pub out : Text

-- The inner loop. Each round takes five bits.
unfoldable pub emit : ℕ → Encoder → Encoder
unfolding ulid_char
emit zero e = e
emit (suc fuel) e = elim (leb 5 e.bits && ltb (length e.out) 26) [
  | false ↦ e
  | true ↦ emit fuel (record { acc = e.acc / 32; bits = e.bits - 5; out = ulid_char e.acc ∷ e.out })
]

-- One round of the outer loop.
unfoldable pub feed : ℕ → Encoder → Encoder
unfolding emit
feed byte e =
    emit (e.bits + 8)
      (record { acc = bit_or e.acc (byte * 2 ^ e.bits % 2 ^ 64); bits = e.bits + 8; out = e.out })

-- The outer loop, over the bytes from the last to the first.
unfoldable pub feed_all : List ℕ → Encoder → Encoder
unfolding feed
feed_all [] e = e
feed_all (byte ∷ rest) e = feed byte (feed_all rest e)

-- The last loop.
unfoldable pub finish : ℕ → Encoder → Encoder
unfolding ulid_char
finish zero e = e
finish (suc fuel) e = elim (ltb (length e.out) 26) [
  | false ↦ e
  | true ↦ finish fuel (record e { acc = e.acc / 32; out = ulid_char e.acc ∷ e.out })
]

-- NewULID at a time in milliseconds.
unfoldable pub new_ulid : ℕ → List ℕ → Text
unfolding time_bytes feed_all finish
new_ulid ms random =
    (finish 26 (feed_all (time_bytes ms ++ random) (record { acc = 0; bits = 0; out = [] }))).out
