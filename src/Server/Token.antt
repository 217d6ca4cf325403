-- ===== src/Server/Token.antt =====
-- LoadOrMintToken of internal/server/server.go. What os.ReadFile, os.MkdirAll and os.WriteFile
-- answer is an argument, and so are the clock's readings and the random bytes of the two ULIDs.

pub mod Reload
mod Examples
use teploy_sandbox.Prelude.{
  ℕ, Bool, true, false, ◌&&◌, Option, none, some, List, [], ◌∷◌, ◌++◌, leb, ◌==◌, if◌then◌else◌,
  Text, codes, trim_space, is_empty, byte_length, Result, ok, err, internal,
}
use teploy_sandbox.Run.Ulid.{new_ulid}

-- The file at the token's path, with its permission bits.
pub record TokenFile : Type 0 where
  pub content : Text
  pub mode : ℕ

-- Whether os.ReadFile reads a file that is there; a write that fails leaves `torn`.
pub record TokenDisk : Type 0 where
  pub reads : Bool
  pub makes_dir : Text → Bool
  pub writes : Bool
  pub torn : Option TokenFile

pub record Minting : Type 0 where
  pub ms_first : ℕ
  pub ms_second : ℕ
  pub random_first : List ℕ
  pub random_second : List ℕ

-- The text before the last slash, if there is one.
unfoldable pub before_last_slash : Text → Option Text
before_last_slash [] = none
before_last_slash (c ∷ s) = elim (before_last_slash s) [
  | some front ↦ some (c ∷ front)
  | none ↦ if c == b'/' then some [] else none
]

unfoldable pub dir_of : Text → Text
unfolding before_last_slash
dir_of path = elim (before_last_slash path) [
  | none ↦ codes "."
  | some front ↦ if is_empty front then codes "." else front
]

unfoldable pub minted_token : Minting → Text
minted_token m = new_ulid m.ms_first m.random_first ++ new_ulid m.ms_second m.random_second

-- os.WriteFile gives a new file the mode 0600, and leaves that of an old one.
unfoldable pub mode_after : Option TokenFile → ℕ
mode_after none = 0o600
mode_after (some file) = file.mode

-- What is left, by whether the directory is there and whether the file was written.
unfoldable pub store :
    Bool → Bool → TokenDisk → Minting → Option TokenFile → Result Text × Option TokenFile
unfolding minted_token mode_after
store false writes d m file = (err internal, file)
store true false d m file = (err internal, d.torn)
store true true d m file = (
  ok (minted_token m),
  some (record { content = minted_token m ++ codes "\n"; mode = mode_after file }),
)

unfoldable pub mint : TokenDisk → Minting → Text → Option TokenFile → Result Text × Option TokenFile
unfolding dir_of store
mint d m path file = store (d.makes_dir (dir_of path)) d.writes d m file

-- Whether the file's text is taken as the token.
unfoldable pub is_token : Text → Bool
is_token content = leb 32 (byte_length (trim_space content))

-- With a file there, by whether it can be read and its text is a token.
unfoldable pub reuse :
    Bool → TokenDisk → Minting → Text → TokenFile → Result Text × Option TokenFile
unfolding mint
reuse true d m path file = (ok (trim_space file.content), some file)
reuse false d m path file = mint d m path (some file)

-- LoadOrMintToken.
unfoldable pub load_or_mint_token :
    TokenDisk → Minting → Text → Option TokenFile → Result Text × Option TokenFile
unfolding mint is_token reuse
load_or_mint_token d m path none = mint d m path none
load_or_mint_token d m path (some file) = reuse (d.reads && is_token file.content) d m path file
