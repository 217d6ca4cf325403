-- ===== src/Server/Token/Examples.antt =====
-- The theorem on the token at a concrete start of the daemon (server.go: LoadOrMintToken).
use teploy_sandbox.Prelude.{
  ℕ, ◌≡◌, refl, true, Option, none, some, List, [], ◌∷◌, ◌++◌, arith, Text, codes, ok,
}
use teploy_sandbox.Run.Ulid.Decode.{AreBytes}
use teploy_sandbox.Server.Token.{
  TokenFile, TokenDisk, Minting, dir_of, minted_token, load_or_mint_token,
}
use teploy_sandbox.Server.Token.Reload.{HasBytes, load_or_mint_token-reload}

abbrev token_path : Text
token_path = codes "/var/lib/teploy/sandbox.token"

abbrev disk : TokenDisk
disk = record { reads = true; makes_dir = λ dir. true; writes = true; torn = none }

abbrev ten_bytes : List ℕ
ten_bytes = 1 ∷ 2 ∷ 3 ∷ 4 ∷ 5 ∷ 6 ∷ 7 ∷ 8 ∷ 9 ∷ 255 ∷ []

abbrev first_start : Minting
first_start = record {
  ms_first = 1764171000000;
  ms_second = 1764171000001;
  random_first = ten_bytes;
  random_second = ten_bytes;
}

abbrev second_start : Minting
second_start = record first_start { ms_first = 1764172000000 }

ten_bytes-AreBytes : AreBytes ten_bytes
ten_bytes-AreBytes = (
  omega arith,
  (
    omega arith,
    (
      omega arith,
      (
        omega arith,
        (
          omega arith,
          (omega arith, (omega arith, (omega arith, (omega arith, (omega arith, tt))))),
        ),
      ),
    ),
  ),
)

first_start-HasBytes : HasBytes first_start
first_start-HasBytes = record {
  bytes_first = ten_bytes-AreBytes;
  ten_first = refl;
  bytes_second = ten_bytes-AreBytes;
  ten_second = refl;
}

minted : (load_or_mint_token disk first_start token_path none).0 ≡ ok (minted_token first_start)
unfolding load_or_mint_token
minted = refl

directories : (dir_of token_path ≡ codes "/var/lib/teploy") × (dir_of (codes "/token") ≡ codes ".")
unfolding dir_of
directories = (refl, refl)

load_or_mint_token-reload_example :
    let file : Option TokenFile = none in
    let after = (load_or_mint_token disk first_start token_path none).1 in
    let token = minted_token first_start in
    (load_or_mint_token disk second_start token_path after ≡ (ok token, after))
    × (file ≡ none → after ≡ some (record { content = token ++ codes "\n"; mode = 0o600 }))
load_or_mint_token-reload_example =
    load_or_mint_token-reload disk disk first_start second_start token_path none
      (minted_token first_start) first_start-HasBytes refl minted
