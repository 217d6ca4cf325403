-- ===== src/Run/Cache/Tree.antt =====
-- Directory trees and their copies (cache.go: copyTree, dirSize). A tree lists its entries by
-- relative path, in the order in which filepath.WalkDir visits them, so that a directory stands
-- before what it holds.
pub mod Copy
use teploy_sandbox.Prelude.{
  ℕ, ◌+◌, Bool, true, false, Option, none, some, [], ◌∷◌, if◌then◌else◌, Text, byte_length, Table,
  lookup, insert, Result,
}

-- An entry, with its mode. A special file is a device, a socket or a pipe.
pub data Node : Type 0 where
  directory : ℕ → Node
  regular : ℕ → Text → Node
  symlink : Text → Node
  special : Node

abbrev pub Tree : Type 0
Tree = Table Node

-- Why a file call of a copy fails: what it names does not exist, or for any other reason.
pub data Fault : Type 0 where
  gone broken : Fault

-- The answers of the host's file system. `hidden` holds of an entry that somebody removes, with
-- what it holds, before the walk of a copy reads the directory in which it stands, so that the walk
-- passes over it, `fault` is the failure that a copy meets at an entry of its source, `merge` what
-- MkdirAll, Symlink and OpenFile make of an entry that the destination has already, `through` what
-- a reader finds behind a symbolic link, `removes` whether RemoveAll succeeds, and `writes` whether
-- a directory or a file can be made.
pub record Disk : Type 0 where
  pub hidden : Text → Bool
  pub fault : Text → Option Fault
  pub merge : Node → Node → Option Node
  pub through : Text → Result Text
  pub removes : Text → Bool
  pub writes : Text → Bool

unfoldable pub is_special : Node → Bool
is_special special = true
is_special (directory mode) = false
is_special (regular mode content) = false
is_special (symlink target) = false

-- One entry into the destination.
unfoldable pub place_node : Disk → Text → Node → Tree → Option Tree
unfolding is_special
place_node disk path node dst = if is_special node then some dst else elim (lookup path dst) [
  | none ↦ some (insert path node dst)
  | some old ↦ elim (disk.merge old node) [
    | none ↦ none
    | some merged ↦ some (insert path merged dst)
  ]
]

-- What a copy returns, and the destination as it leaves it, which may not exist.
pub record Copied : Type 0 where
  pub failure : Option Fault
  pub tree : Option Tree

-- copyTree, from a source that exists.
unfoldable pub copy_walk : Disk → Tree → Tree → Copied
unfolding place_node
copy_walk disk [] dst = record { failure = none; tree = some dst }
copy_walk disk (entry ∷ rest) dst = elim (disk.hidden entry.0) [
  | true ↦ copy_walk disk rest dst
  | false ↦ elim (disk.fault entry.0) [
    | some fault ↦ record { failure = some fault; tree = some dst }
    | none ↦ elim (place_node disk entry.0 entry.1 dst) [
      | none ↦ record { failure = some broken; tree = some dst }
      | some dst' ↦ copy_walk disk rest dst'
    ]
  ]
]

-- copyTree. The walk of a source that does not exist fails before it makes anything.
unfoldable pub copy_tree : Disk → Option Tree → Option Tree → Copied
unfolding copy_walk
copy_tree disk none dst = record { failure = some gone; tree = dst }
copy_tree disk (some src) none = copy_walk disk src []
copy_tree disk (some src) (some dst) = copy_walk disk src dst

-- dirSize: the bytes of the regular files. Their sum is taken to be exact.
unfoldable pub node_size : Node → ℕ
node_size (regular mode content) = byte_length content
node_size (directory mode) = 0
node_size (symlink target) = 0
node_size special = 0

unfoldable pub dir_size : Tree → ℕ
unfolding node_size
dir_size [] = 0
dir_size (entry ∷ rest) = node_size entry.1 + dir_size rest
