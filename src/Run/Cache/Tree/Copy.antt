-- ===== src/Run/Cache/Tree/Copy.antt =====
-- What a copy into a fresh directory holds (cache.go: copyTree).
use teploy_sandbox.Prelude.{
  ◌≡◌, refl, sym, ap, ◌∙◌, inl, inr, true, false, none, some, [], ◌∷◌, ◌++◌, arith, if◌then◌else◌,
  Bool-cases, Option-cases, All, Text, text_eq_iff, lookup, insert,
}
use mathlib.Core.List.{append-nil, append_assoc}
use teploy_sandbox.Run.Cache.Tree.{Node, Tree, Disk, is_special, place_node, copy_walk, copy_tree}

-- No path is listed twice.
unfoldable pub Distinct : Tree → Type 0
Distinct [] = Unit
Distinct (entry ∷ rest) = (lookup entry.0 rest ≡ none) × Distinct rest

-- The entries that a copy is made of.
unfoldable pub ordinary : Tree → Tree
unfolding is_special
ordinary [] = []
ordinary (entry ∷ rest) =
    let kept = ordinary rest in if is_special entry.1 then kept else entry ∷ kept

-- The entries that the walk of a copy comes by.
unfoldable pub visible : Disk → Tree → Tree
visible disk [] = []
visible disk (entry ∷ rest) =
    let kept = visible disk rest in if disk.hidden entry.0 then kept else entry ∷ kept

visible_lem :
    (disk : Disk) (tree : Tree)
    → ((path : Text) → disk.hidden path ≡ false)
    → visible disk tree ≡ tree
unfolding visible
visible_lem disk [] h = refl
visible_lem disk (entry ∷ rest) h = rw (h entry.0, visible_lem disk rest h) refl

insert-fresh :
    (path : Text) (node : Node) (tree : Tree)
    → lookup path tree ≡ none
    → insert path node tree ≡ tree ++ ((path, node) ∷ [])
unfolding lookup insert
insert-fresh path node [] h = refl
insert-fresh path node (entry ∷ rest) h = ground (arith, insert-fresh path node rest)

lookup-append :
    (path : Text) (front back : Tree)
    → lookup path (front ++ back)
      ≡ (elim (lookup path front) [ none ↦ lookup path back | some node ↦ some node ])
unfolding lookup
lookup-append path [] back = refl
lookup-append path (entry ∷ rest) back = ground (arith, lookup-append path rest back)

-- A path that the source lists is not in the destination.
Apart : Tree → Tree → Type 0
Apart src dst = All (λ (entry : Text × Node). lookup entry.0 dst ≡ none) src

Apart-place_node :
    (src dst : Tree) (path : Text) (node : Node)
    → lookup path src ≡ none
    → Apart src dst
    → Apart src (dst ++ ((path, node) ∷ []))
unfolding Apart lookup
Apart-place_node [] dst path node h k = tt
Apart-place_node (entry ∷ rest) dst path node h k = (
  ground (
    arith,
    lookup-append entry.0 dst ((path, node) ∷ []),
    text_eq_iff entry.0 path,
    text_eq_iff path entry.0,
  ),
  Apart-place_node rest dst path node (ground arith) k.1,
)

copy_walk-Apart :
    (disk : Disk) (src dst : Tree)
    → Distinct src
    → Apart src dst
    → (copy_walk disk src dst).failure ≡ none
    → (copy_walk disk src dst).tree ≡ some (dst ++ ordinary (visible disk src))
unfolding copy_walk Distinct Apart ordinary visible
copy_walk-Apart disk [] dst d a h = ap some (sym (append-nil dst))
copy_walk-Apart disk ((path, node) ∷ rest) dst d a h = elim (Bool-cases (disk.hidden path)) [
  | inl hid ↦
      let h' : (copy_walk disk rest dst).failure ≡ none = rw (hid, copy_walk) at h in
      rw (hid, copy_walk, visible) (copy_walk-Apart disk rest dst d.1 a.1 h')
  | inr seen ↦ elim (Option-cases (disk.fault path)) [
    | inr (fault, e) ↦ absurd (ground arith)
    | inl e ↦ elim (Bool-cases (is_special node)) [
      | inl sp ↦
          let h' : (copy_walk disk rest dst).failure ≡ none =
            rw (seen, e, sp, copy_walk, place_node) at h in
          rw (seen, e, sp, copy_walk, place_node, ordinary, visible)
            (copy_walk-Apart disk rest dst d.1 a.1 h')
      | inr ord ↦
          let grown : Tree = dst ++ ((path, node) ∷ []) in
          let h' : (copy_walk disk rest grown).failure ≡ none =
            rw (seen, e, ord, a.0, copy_walk, place_node, insert-fresh path node dst a.0) at h in
          let ih =
            copy_walk-Apart disk rest grown d.1 (Apart-place_node rest dst path node d.0 a.1) h' in
          rw (seen, e, ord, a.0, copy_walk, place_node, insert-fresh path node dst a.0, visible)
            (ih ∙ ap some (append_assoc dst ((path, node) ∷ []) (ordinary (visible disk rest))))
    ]
  ]
]

-- Whatever lookups miss in a tree they miss in its ordinary entries.
lookup-ordinary-none :
    (path : Text) (tree : Tree) → lookup path tree ≡ none → lookup path (ordinary tree) ≡ none
unfolding lookup ordinary
lookup-ordinary-none path [] h = refl
lookup-ordinary-none path (entry ∷ rest) h = ground (arith, lookup-ordinary-none path rest)

pub ordinary-Distinct : (tree : Tree) → Distinct tree → Distinct (ordinary tree)
unfolding Distinct ordinary
ordinary-Distinct [] d = tt
ordinary-Distinct (entry ∷ rest) d = elim (Bool-cases (is_special entry.1)) [
  | inl sp ↦ rw sp (ordinary-Distinct rest d.1)
  | inr ord ↦ rw ord (lookup-ordinary-none entry.0 rest d.0, ordinary-Distinct rest d.1)
]

pub ordinary-twice : (tree : Tree) → ordinary (ordinary tree) ≡ ordinary tree
unfolding ordinary
ordinary-twice [] = refl
ordinary-twice (entry ∷ rest) = ground (arith, ordinary-twice rest)

Apart-nil : (src : Tree) → Apart src []
unfolding Apart lookup
Apart-nil [] = tt
Apart-nil (entry ∷ rest) = (refl, Apart-nil rest)

pub copy_tree-fresh :
    (disk : Disk) (src : Tree)
    → Distinct src
    → (copy_tree disk (some src) none).failure ≡ none
    → (copy_tree disk (some src) none).tree ≡ some (ordinary (visible disk src))
unfolding copy_tree
copy_tree-fresh disk src d h = copy_walk-Apart disk src [] d (Apart-nil src) h

-- A disk on which nothing fails.
unfoldable pub Quiet : Disk → Type 0
Quiet disk =
    ((path : Text) → disk.fault path ≡ none)
    × ((path : Text) → disk.removes path ≡ true)
    × ((path : Text) → disk.writes path ≡ true)
    × ((path : Text) → disk.hidden path ≡ false)

copy_walk-Quiet :
    (disk : Disk) (src dst : Tree)
    → ((path : Text) → disk.fault path ≡ none)
    → ((path : Text) → disk.hidden path ≡ false)
    → Distinct src
    → Apart src dst
    → (copy_walk disk src dst).failure ≡ none
unfolding copy_walk Distinct Apart
copy_walk-Quiet disk [] dst q v d a = refl
copy_walk-Quiet disk ((path, node) ∷ rest) dst q v d a = elim (Bool-cases (is_special node)) [
  | inl sp ↦
      rw (v path, q path, sp, copy_walk, place_node) (copy_walk-Quiet disk rest dst q v d.1 a.1)
  | inr ord ↦
      rw (v path, q path, ord, a.0, copy_walk, place_node, insert-fresh path node dst a.0)
        (copy_walk-Quiet disk rest (dst ++ ((path, node) ∷ [])) q v d.1
          (Apart-place_node rest dst path node d.0 a.1))
]

pub copy_tree-Quiet :
    (disk : Disk) (src : Tree)
    → Quiet disk
    → Distinct src
    → copy_tree disk (some src) none ≡ record { failure = none; tree = some (ordinary src) }
unfolding copy_tree Quiet
copy_tree-Quiet disk src q d =
    let done : (copy_walk disk src []).failure ≡ none =
      copy_walk-Quiet disk src [] q.0 q.3 d (Apart-nil src) in
    let whole : (copy_walk disk src []).tree ≡ some (ordinary src) =
      copy_walk-Apart disk src [] d (Apart-nil src) done
      ∙ ap (λ t. some (ordinary t)) (visible_lem disk src q.3) in
    λ i. record { failure = done i; tree = whole i }
