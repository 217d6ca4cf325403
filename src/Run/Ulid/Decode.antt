-- ===== src/Run/Ulid/Decode.antt =====
-- Reading a ULID of internal/run/ulid.go back: its characters are the digits to base 32 of its bytes.
use Prim.Native.Nat.{bit_or}
use native.Mathlib.Nat.{pow-suc, mul-add, mul_assoc, mul_comm, mul_left_comm, mul-le-mul_right}
use teploy_sandbox.Prelude.{
  ℕ, zero, suc, ◌+◌, ◌-◌, ◌*◌, ◌/◌, ◌%◌, ◌^◌, ◌≤◌, ◌<◌, ◌≡◌, refl, sym, ap, ◌∙◌, inl, inr, Bool,
  true, false, ◌&&◌, List, [], ◌∷◌, ◌++◌, arith, ltb, leb, ◌==◌, if◌then◌else◌, ==_iff, Bool-cases,
  and_iff, length, All, All-append, Text,
}
use teploy_sandbox.Run.Ulid.{
  ulid_alphabet, ulid_char, time_bytes, Encoder, emit, feed, feed_all, finish, new_ulid,
}
use teploy_sandbox.Run.Ulid.Powers.{two_pow-add, thirty_two_pow, byte_pow, bit_or-shifted}

-- The digit that a character stands for.
unfoldable pub index_of : ℕ → Text → ℕ
index_of c [] = 0
index_of c (first ∷ rest) = let later = index_of c rest in if first == c then 0 else later + 1

unfoldable pub ulid_digit : ℕ → ℕ
unfolding index_of
ulid_digit c = index_of c ulid_alphabet

-- The number that a text writes to base 32, and the one that bytes write to base 256.
unfoldable pub ulid_value : Text → ℕ
unfolding ulid_digit
ulid_value [] = 0
ulid_value (c ∷ rest) = ulid_digit c * 32 ^ length rest + ulid_value rest

unfoldable pub bytes_value : List ℕ → ℕ
bytes_value [] = 0
bytes_value (b ∷ rest) = b * 256 ^ length rest + bytes_value rest

reads_back : ℕ → Bool
unfolding ulid_digit ulid_char
reads_back d = ulid_digit (ulid_char d) == d % 32

all_below : ℕ → (ℕ → Bool) → Bool
all_below zero p = true
all_below (suc n) p = p n && all_below n p

all_below-lt : (n : ℕ) (p : ℕ → Bool) → all_below n p ≡ true → (d : ℕ) → d < n → p d ≡ true
unfolding all_below
all_below-lt zero p h d l = absurd (omega (arith, l))
all_below-lt (suc n) p h d l = elim (Bool-cases (d == n)) [
  | inl e ↦ let same : d ≡ n = (==_iff d n).0 e in rw same (((and_iff (p n) (all_below n p)).0 h).0)
  | inr e ↦ all_below-lt n p (((and_iff (p n) (all_below n p)).0 h).1) d (ground (arith, e, l))
]

ulid_char-mod : (d : ℕ) → ulid_char d ≡ ulid_char (d % 32)
unfolding ulid_char
ulid_char-mod d = let e : d % 32 % 32 ≡ d % 32 = omega arith in rw e refl

digits_read_back : all_below 32 reads_back ≡ true
unfolding all_below reads_back
digits_read_back = refl

pub ulid_digit-ulid_char : (d : ℕ) → ulid_digit (ulid_char d) ≡ d % 32
unfolding reads_back
ulid_digit-ulid_char d =
    let small : d % 32 < 32 = omega arith in
    let read = all_below-lt 32 reads_back digits_read_back (d % 32) small in
    let e : d % 32 % 32 ≡ d % 32 = omega arith in
    ap ulid_digit (ulid_char-mod d) ∙ (==_iff _ _).0 read ∙ e

-- The characters written and the bits held make up the number `value` of `count` bytes.
pub record Holds (count value : ℕ) (e : Encoder) : Type 0 where
  pub bits : e.bits + 5 * length e.out ≡ 8 * count
  pub small : e.acc < 2 ^ e.bits
  pub number : 32 ^ length e.out * e.acc + ulid_value e.out ≡ value

-- Writing one character.
write_digit-number :
    (acc : ℕ) (out : Text)
    → 32 ^ length (ulid_char acc ∷ out) * (acc / 32) + ulid_value (ulid_char acc ∷ out)
      ≡ 32 ^ length out * acc + ulid_value out
unfolding ulid_value
write_digit-number acc out =
    let p = 32 ^ length out in
    let power : 32 ^ length (ulid_char acc ∷ out) ≡ p * 32 = pow-suc 32 (length out) in
    let parts : p * acc ≡ p * (32 * (acc / 32)) + p * (acc % 32) =
      ap (λ n. p * n) (omega arith) ∙ mul-add p (32 * (acc / 32)) (acc % 32) in
    let high : p * 32 * (acc / 32) ≡ p * (32 * (acc / 32)) = mul_assoc p 32 (acc / 32) in
    let low : ulid_digit (ulid_char acc) * p ≡ p * (acc % 32) =
      ap (λ n. n * p) (ulid_digit-ulid_char acc) ∙ mul_comm (acc % 32) p in
    ap (λ n. n * (acc / 32) + (ulid_digit (ulid_char acc) * p + ulid_value out)) power
    ∙ omega (arith, parts, high, low)

shifted_small : (acc bits : ℕ) → 5 ≤ bits → acc < 2 ^ bits → acc / 32 < 2 ^ (bits - 5)
shifted_small acc bits five h =
    let e : bits - 5 + 5 ≡ bits = omega (arith, five) in
    let power : 2 ^ bits ≡ 2 ^ (bits - 5) * 32 =
      ap (λ n. 2 ^ n) (sym e) ∙ two_pow-add (bits - 5) 5 in
    omega (arith, power, h)

emit-Holds :
    (fuel count value : ℕ) (e : Encoder)
    → e.bits ≤ fuel
    → count ≤ 16
    → Holds count value e
    → Holds count value (emit fuel e) × ((emit fuel e).bits < 5)
unfolding emit
emit-Holds zero count value e l c h = (h, omega (arith, l))
emit-Holds (suc fuel) count value e l c h =
    elim (Bool-cases (leb 5 e.bits && ltb (length e.out) 26)) [
      | inr n ↦ rw (n, emit) (h, ground (arith, n, h.bits, c))
      | inl y ↦
          let five : 5 ≤ e.bits = ground (arith, y) in
          rw (y, emit)
            (emit-Holds fuel count value _ (omega (arith, l)) c (record {
              bits = omega (arith, five, h.bits);
              small = shifted_small e.acc e.bits five h.small;
              number = write_digit-number e.acc e.out ∙ h.number;
            }))
    ]

small_power : (bits : ℕ) → bits < 5 → 2 ^ bits ≤ 16
small_power zero h = omega arith
small_power (suc zero) h = omega arith
small_power (suc (suc zero)) h = omega arith
small_power (suc (suc (suc zero))) h = omega arith
small_power (suc (suc (suc (suc zero)))) h = omega arith
small_power (suc (suc (suc (suc (suc n))))) h = absurd (omega (arith, h))

-- The place of the next byte.
place_of_byte :
    (bits written count : ℕ)
    → bits + 5 * written ≡ 8 * count
    → 32 ^ written * 2 ^ bits ≡ 256 ^ count
place_of_byte bits written count h =
    ap (λ n. n * 2 ^ bits) (thirty_two_pow written)
    ∙ mul_comm (2 ^ (5 * written)) (2 ^ bits)
    ∙ sym (two_pow-add bits (5 * written))
    ∙ ap (λ n. 2 ^ n) h
    ∙ sym (byte_pow count)

feed-Holds :
    (byte count value : ℕ) (e : Encoder)
    → byte < 256
    → count < 16
    → e.bits < 5
    → Holds count value e
    → Holds (count + 1) (byte * 256 ^ count + value) (feed byte e) × ((feed byte e).bits < 5)
unfolding feed
feed-Holds byte count value e b c few h =
    let p = 32 ^ length e.out in
    let q = 2 ^ e.bits in
    let sixteen = small_power e.bits few in
    let place = place_of_byte e.bits (length e.out) count h.bits in
    let at_most : byte * q ≤ 255 * q = mul-le-mul_right q (omega (arith, b)) in
    let bounded : byte * q < 2 ^ 64 = omega (arith, at_most, sixteen) in
    let kept : byte * q % 2 ^ 64 ≡ byte * q = omega (arith, bounded) in
    let joined : bit_or e.acc (byte * q % 2 ^ 64) ≡ e.acc + byte * q =
      ap (bit_or e.acc) kept ∙ bit_or-shifted e.acc e.bits byte h.small in
    emit-Holds (e.bits + 8) (count + 1) (byte * 256 ^ count + value) _ (omega arith)
      (omega (arith, c))
      (record {
        bits = omega (arith, h.bits);
        small = rw (joined, two_pow-add e.bits 8) (omega (arith, at_most, h.small));
        number =
            ap (λ a. p * a + ulid_value e.out) joined
            ∙ omega (
              arith,
              mul-add p e.acc (byte * q),
              mul_left_comm p byte q,
              ap (λ n. byte * n) place,
              h.number,
            );
      })

-- Every byte is one.
abbrev pub AreBytes : List ℕ → Type 0
AreBytes = All (λ byte. byte < 256)

feed_all-Holds :
    (bytes : List ℕ)
    → AreBytes bytes
    → length bytes ≤ 16
    → let e = feed_all bytes (record { acc = 0; bits = 0; out = [] }) in
      Holds (length bytes) (bytes_value bytes) e × (e.bits < 5)
unfolding feed_all bytes_value ulid_value
feed_all-Holds [] h l = (record { bits = refl; small = omega arith; number = refl }, omega arith)
feed_all-Holds (byte ∷ rest) h l =
    let (held, few) = feed_all-Holds rest h.1 (omega (arith, l)) in
    let (held', few') =
      feed-Holds byte (length rest) (bytes_value rest) _ h.0 (omega (arith, l)) few held in
    let next : length rest + 1 ≡ suc (length rest) = omega arith in (rw next at held', few')

-- The last loop writes the one character that is left, and no bit is left over.
finish-last :
    (e : Encoder)
    → length e.out ≡ 25
    → finish 26 e ≡ record e { acc = e.acc / 32; out = ulid_char e.acc ∷ e.out }
unfolding finish
finish-last e h =
    let more : ltb (length e.out) 26 ≡ true = ground (arith, h) in
    let full : ltb (length (ulid_char e.acc ∷ e.out)) 26 ≡ false = ground (arith, h) in
    rw (more, finish) (rw (full, finish) refl)

finish-Holds :
    (value : ℕ) (e : Encoder)
    → Holds 16 value e
    → e.bits < 5
    → (length (finish 26 e).out ≡ 26) × (ulid_value (finish 26 e).out ≡ value)
finish-Holds value e h few =
    let written : length e.out ≡ 25 = omega (arith, h.bits, few) in
    let three : e.bits ≡ 3 = omega (arith, h.bits, few) in
    let eight : 2 ^ e.bits ≡ 8 = ap (λ n. 2 ^ n) three in
    let none_left : e.acc / 32 ≡ 0 = omega (arith, h.small, eight) in
    let last = ulid_char e.acc ∷ e.out in
    let number : 32 ^ length last * (e.acc / 32) + ulid_value last ≡ value =
      write_digit-number e.acc e.out ∙ h.number in
    let nothing : 32 ^ length last * (e.acc / 32) ≡ 0 =
      ap (λ n. 32 ^ length last * n) none_left ∙ omega arith in
    rw (finish-last e written) (omega (arith, written), omega (arith, number, nothing))

time_bytes-AreBytes : (ms : ℕ) → AreBytes (time_bytes ms)
unfolding time_bytes
time_bytes-AreBytes ms =
    (omega arith, (omega arith, (omega arith, (omega arith, (omega arith, (omega arith, tt))))))

-- With ten random bytes, NewULID writes 26 characters, and they are the digits to base 32 of the
-- number that the 16 bytes write to base 256, the 48-bit time first.
pub new_ulid-value :
    (ms : ℕ) (random : List ℕ)
    → AreBytes random
    → length random ≡ 10
    → (length (new_ulid ms random) ≡ 26)
      × (ulid_value (new_ulid ms random) ≡ bytes_value (time_bytes ms ++ random))
unfolding new_ulid time_bytes
new_ulid-value ms random h ten =
    let bytes = time_bytes ms ++ random in
    let sixteen : length bytes ≡ 16 = omega (arith, ten) in
    let (held, few) =
      feed_all-Holds bytes (All-append _ (time_bytes ms) random (time_bytes-AreBytes ms) h)
        (omega (arith, sixteen)) in
    let held' = rw sixteen at held in finish-Holds (bytes_value bytes) _ held' few

bytes_value-lt : (bytes : List ℕ) → AreBytes bytes → bytes_value bytes < 256 ^ length bytes
unfolding bytes_value
bytes_value-lt [] h = omega arith
bytes_value-lt (b ∷ rest) h =
    let at_most : b * 256 ^ length rest ≤ 255 * 256 ^ length rest =
      mul-le-mul_right (256 ^ length rest) (omega (arith, h.0)) in
    omega (arith, at_most, bytes_value-lt rest h.1, pow-suc 256 (length rest))

-- The time of a number of 16 bytes.
time-bytes_value :
    (ms : ℕ) (random : List ℕ)
    → length random ≡ 10
    → ms < 2 ^ 48
    → bytes_value (time_bytes ms ++ random) ≡ ms * 256 ^ 10 + bytes_value random
unfolding bytes_value time_bytes
time-bytes_value ms random ten h = rw ten (omega (arith, h))

-- Of two ULIDs, the one of the earlier millisecond is the smaller number.
pub new_ulid-orders :
    (ms ms' : ℕ) (random random' : List ℕ)
    → AreBytes random
    → AreBytes random'
    → length random ≡ 10
    → length random' ≡ 10
    → ms < ms'
    → ms' < 2 ^ 48
    → ulid_value (new_ulid ms random) < ulid_value (new_ulid ms' random')
new_ulid-orders ms ms' random random' h h' ten ten' l small =
    let (width, number) = new_ulid-value ms random h ten in
    let (width', number') = new_ulid-value ms' random' h' ten' in
    let below = bytes_value-lt random h in
    let below' : bytes_value random < 256 ^ 10 = rw ten at below in
    omega (
      arith,
      number,
      number',
      time-bytes_value ms random ten (omega (arith, l, small)),
      time-bytes_value ms' random' ten' small,
      below',
      l,
    )
