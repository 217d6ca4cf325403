-- ===== src/Run/Ulid/Examples.antt =====
-- ULIDs of two times.
use teploy_sandbox.Prelude.{ℕ, ◌≡◌, refl, List, [], ◌∷◌, ◌++◌, arith, length, codes}
use teploy_sandbox.Run.Ulid.{new_ulid, time_bytes, ulid_char, emit, feed, feed_all, finish}
use teploy_sandbox.Run.Ulid.Decode.{ulid_value, bytes_value, AreBytes, new_ulid-value}

abbrev random_1 : List ℕ
random_1 = 255 ∷ 1 ∷ 2 ∷ 3 ∷ 4 ∷ 5 ∷ 6 ∷ 7 ∷ 8 ∷ 9 ∷ []

abbrev random_2 : List ℕ
random_2 = 0 ∷ 0 ∷ 0 ∷ 0 ∷ 0 ∷ 0 ∷ 0 ∷ 0 ∷ 0 ∷ 0 ∷ []

random_1-AreBytes : AreBytes random_1
random_1-AreBytes = (
  omega arith,
  (
    omega arith,
    (
      omega arith,
      (
        omega arith,
        (
          omega arith,
          (omega arith, (omega arith, (omega arith, (omega arith, (omega arith, tt))))),
        ),
      ),
    ),
  ),
)

random_2-AreBytes : AreBytes random_2
random_2-AreBytes = (
  omega arith,
  (
    omega arith,
    (
      omega arith,
      (
        omega arith,
        (
          omega arith,
          (omega arith, (omega arith, (omega arith, (omega arith, (omega arith, tt))))),
        ),
      ),
    ),
  ),
)

new_ulid_runs : new_ulid 1764171000000 random_1 ≡ codes "01KB0CJA60ZW0G40R40M30E209"
unfolding new_ulid time_bytes feed_all feed emit finish ulid_char
new_ulid_runs = refl

new_ulid-value_example :
    (length (new_ulid 1764171000000 random_1) ≡ 26)
    × (ulid_value (new_ulid 1764171000000 random_1)
        ≡ bytes_value (time_bytes 1764171000000 ++ random_1))
new_ulid-value_example = new_ulid-value 1764171000000 random_1 random_1-AreBytes refl
