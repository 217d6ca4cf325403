-- ===== src/Run/Ulid/Alphabet.antt =====
-- The characters of a ULID (ulid.go: NewULID, ulidAlphabet).
use teploy_sandbox.Prelude.{
  ℕ, zero, suc, ◌+◌, ◌-◌, ◌%◌, ◌<◌, ◌≡◌, refl, inl, inr, Bool, true, not, ◌&&◌, List, [], ◌∷◌, ◌++◌,
  arith, ltb, leb, ◌==◌, Bool-cases, length, all, Text, is_space,
}
use teploy_sandbox.Run.Ulid.{
  ulid_alphabet, char_at, ulid_char, time_bytes, Encoder, emit, feed, feed_all, finish, new_ulid,
}

abbrev pub is_graphic : ℕ → Bool
is_graphic c = not (is_space c) && ltb c 128

char_at-all :
    (p : ℕ → Bool) (s : Text) (n : ℕ) → all p s ≡ true → n < length s → p (char_at n s) ≡ true
char_at-all p [] n h small = absurd (omega arith)
char_at-all p (c ∷ s) n h small = elim (Bool-cases (n == 0)) [
  | inl zero_now ↦ rw zero_now (ground (arith, h))
  | inr later ↦
      let rest : all p s ≡ true = ground (arith, h) in
      let smaller : n - 1 < length s = ground (arith, small, later) in
      rw later (char_at-all p s (n - 1) rest smaller)
]

ulid_char-graphic : (n : ℕ) → is_graphic (ulid_char n) ≡ true
unfolding ulid_char
ulid_char-graphic n = char_at-all is_graphic ulid_alphabet (n % 32) refl (omega arith)

emit-all :
    (fuel : ℕ) (e : Encoder) → all is_graphic e.out ≡ true → all is_graphic (emit fuel e).out ≡ true
unfolding emit
emit-all zero e h = h
emit-all (suc fuel) e h = elim (Bool-cases (leb 5 e.bits && ltb (length e.out) 26)) [
  | inl more ↦ rw (more, emit) (emit-all fuel _ (rw (ulid_char-graphic e.acc) h))
  | inr full ↦ rw (full, emit) h
]

feed_all-all :
    (bytes : List ℕ) (e : Encoder)
    → all is_graphic e.out ≡ true
    → all is_graphic (feed_all bytes e).out ≡ true
unfolding feed_all feed
feed_all-all [] e h = h
feed_all-all (byte ∷ rest) e h =
    let before = feed_all rest e in emit-all (before.bits + 8) _ (feed_all-all rest e h)

finish-all :
    (fuel : ℕ) (e : Encoder)
    → all is_graphic e.out ≡ true
    → all is_graphic (finish fuel e).out ≡ true
unfolding finish
finish-all zero e h = h
finish-all (suc fuel) e h = elim (Bool-cases (ltb (length e.out) 26)) [
  | inl more ↦ rw (more, finish) (finish-all fuel _ (rw (ulid_char-graphic e.acc) h))
  | inr full ↦ rw (full, finish) h
]

pub new_ulid-all : (ms : ℕ) (random : List ℕ) → all is_graphic (new_ulid ms random) ≡ true
unfolding new_ulid
new_ulid-all ms random =
    let before = feed_all (time_bytes ms ++ random) (record { acc = 0; bits = 0; out = [] }) in
    finish-all 26 before
      (feed_all-all (time_bytes ms ++ random) (record { acc = 0; bits = 0; out = [] }) refl)
