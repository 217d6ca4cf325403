-- ===== src/Server/Token/Reload.antt =====
-- A token that LoadOrMintToken returned is the one that it returns the next time (server.go).
use teploy_sandbox.Prelude.{
  ℕ, ◌≤◌, ◌≡◌, refl, ap, Bool, true, false, not, ◌&&◌, Option, none, some, [], ◌∷◌, ◌++◌, arith,
  ltb, length, length-append, all, all-append, all_mono, Text, codes, is_space, trim_space,
  byte_length, trim_space-line_end, ok,
}
use teploy_sandbox.Run.Ulid.{new_ulid}
use teploy_sandbox.Run.Ulid.Decode.{AreBytes, new_ulid-value}
use teploy_sandbox.Run.Ulid.Alphabet.{is_graphic, new_ulid-all}
use teploy_sandbox.Server.Token.{
  TokenFile, TokenDisk, Minting, dir_of, minted_token, mint, is_token, mode_after, store, reuse,
  load_or_mint_token,
}

-- The random bytes are bytes, ten for each ULID.
pub record HasBytes (m : Minting) : Type 0 where
  pub bytes_first : AreBytes m.random_first
  pub ten_first : length m.random_first ≡ 10
  pub bytes_second : AreBytes m.random_second
  pub ten_second : length m.random_second ≡ 10

length-byte_length : (s : Text) → length s ≤ byte_length s
unfolding byte_length
length-byte_length [] = omega arith
length-byte_length (c ∷ s) = ground (arith, length-byte_length s)

minted_token-length : (m : Minting) → HasBytes m → length (minted_token m) ≡ 52
unfolding minted_token
minted_token-length m h =
    let first = (new_ulid-value m.ms_first m.random_first h.bytes_first h.ten_first).0 in
    let second = (new_ulid-value m.ms_second m.random_second h.bytes_second h.ten_second).0 in
    let both =
      length-append (new_ulid m.ms_first m.random_first) (new_ulid m.ms_second m.random_second) in
    omega arith

minted_token-all : (m : Minting) → all (λ c. not (is_space c)) (minted_token m) ≡ true
unfolding minted_token
minted_token-all m =
    let first = new_ulid m.ms_first m.random_first in
    let second = new_ulid m.ms_second m.random_second in
    let both : all is_graphic (first ++ second) ≡ true =
      rw
        (
          all-append is_graphic first second,
          new_ulid-all m.ms_first m.random_first,
          new_ulid-all m.ms_second m.random_second,
        )
        refl in
    all_mono is_graphic (λ c. not (is_space c)) (first ++ second) graphic_word both
  where
    no_space : (b other : Bool) → (not b && other) ≡ true → not b ≡ true
    no_space true other e = cc
    no_space false other e = refl

    graphic_word : (c : ℕ) → is_graphic c ≡ true → not (is_space c) ≡ true
    graphic_word c g = no_space (is_space c) (ltb c 128) g

-- The line end behind the token is trimmed.
minted_token-trim : (m : Minting) → trim_space (minted_token m ++ codes "\n") ≡ minted_token m
minted_token-trim m = trim_space-line_end (minted_token m) (minted_token-all m)

minted_token-is_token : (m : Minting) → HasBytes m → is_token (minted_token m ++ codes "\n") ≡ true
unfolding is_token
minted_token-is_token m h =
    let long = length-byte_length (minted_token m) in
    let fifty_two = minted_token-length m h in
    rw (minted_token-trim m) (ground (arith, long, fifty_two))

-- What a later call returns, and the mode of a new file.
abbrev Reloads : TokenDisk → Minting → Text → Option TokenFile → Text → Option TokenFile → Type 0
Reloads e n path file token after =
    (load_or_mint_token e n path after ≡ (ok token, after))
    × (file ≡ none → after ≡ some (record { content = token ++ codes "\n"; mode = 0o600 }))

minted-Reloads :
    (e : TokenDisk) (m n : Minting) (path : Text) (file : Option TokenFile) (token : Text)
    → HasBytes m
    → e.reads ≡ true
    → minted_token m ≡ token
    → Reloads e n path file token
        (some (record { content = minted_token m ++ codes "\n"; mode = mode_after file }))
unfolding load_or_mint_token mode_after
minted-Reloads e m n path file token h reads same = (
  rw (reads, minted_token-is_token m h, minted_token-trim m, same) refl,
  λ fresh. rw (fresh, same) refl,
)

store-Reloads :
    (dir writes : Bool) (d e : TokenDisk) (m n : Minting) (path : Text) (file : Option TokenFile)
    (token : Text)
    → HasBytes m
    → e.reads ≡ true
    → (store dir writes d m file).0 ≡ ok token
    → Reloads e n path file token (store dir writes d m file).1
unfolding store
store-Reloads false writes d e m n path file token h reads good = ground arith
store-Reloads true false d e m n path file token h reads good = ground arith
store-Reloads true true d e m n path file token h reads good =
    minted-Reloads e m n path file token h reads cc

mint-Reloads :
    (d e : TokenDisk) (m n : Minting) (path : Text) (file : Option TokenFile) (token : Text)
    → HasBytes m
    → e.reads ≡ true
    → (mint d m path file).0 ≡ ok token
    → Reloads e n path file token (mint d m path file).1
unfolding mint
mint-Reloads d e m n path file token h reads good =
    store-Reloads (d.makes_dir (dir_of path)) d.writes d e m n path file token h reads good

reuse-Reloads :
    (known : Bool) (d e : TokenDisk) (m n : Minting) (path : Text) (file : TokenFile) (token : Text)
    → HasBytes m
    → e.reads ≡ true
    → (d.reads && is_token file.content) ≡ known
    → (reuse known d m path file).0 ≡ ok token
    → Reloads e n path (some file) token (reuse known d m path file).1
unfolding reuse load_or_mint_token
reuse-Reloads true d e m n path file token h reads known good =
    let is_one : is_token file.content ≡ true = ground (arith, known) in
    (rw (reads, is_one) (ap (λ r. (r, some file)) good), λ absent. ground arith)
reuse-Reloads false d e m n path file token h reads known good =
    mint-Reloads d e m n path (some file) token h reads good

-- If LoadOrMintToken returns a token and os.ReadFile does not fail on the file the next time, then
-- whatever the clock, the random bytes and the other file calls say then, it returns the same token
-- and leaves the file as it is; and if there was no file, the new one has the mode 0600. The random
-- bytes are ten for each of the two ULIDs.
pub load_or_mint_token-reload :
    (d e : TokenDisk) (m n : Minting) (path : Text) (file : Option TokenFile) (token : Text)
    → HasBytes m
    → e.reads ≡ true
    → (load_or_mint_token d m path file).0 ≡ ok token
    → let after = (load_or_mint_token d m path file).1 in
      (load_or_mint_token e n path after ≡ (ok token, after))
      × (file ≡ none → after ≡ some (record { content = token ++ codes "\n"; mode = 0o600 }))
unfolding load_or_mint_token
load_or_mint_token-reload d e m n path none token h reads good =
    mint-Reloads d e m n path none token h reads good
load_or_mint_token-reload d e m n path (some file) token h reads good =
    reuse-Reloads (d.reads && is_token file.content) d e m n path file token h reads refl good
