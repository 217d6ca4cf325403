-- ===== src/Run/Cache/Lock/Hash.antt =====
-- What two lockfile hashes of cache.go tell of the volumes (LockHash, detectRepoDir).
use teploy_sandbox.Prelude.{
  ◌≡◌, refl, sym, ap, ◌∙◌, ◌↔◌, inl, inr, true, false, ◌&&◌, ◌||◌, List, [], ◌∷◌, ◌++◌, arith, leb,
  ◌==◌, Bool-cases, and_iff, all, any, All, append_cancel, Text, codes, contains,
  split-append_cancel, contains-append, Result, ok, err, Result-cases,
}
use teploy_sandbox.Run.Cache.Tree.{Node, directory, regular, symlink, special, Tree, Disk}
use teploy_sandbox.Run.Cache.Store.{Digest}
use teploy_sandbox.Run.Cache.Lock.{
  lockfiles, is_dir_name, is_candidate, candidates, detect_repo_dir, has_lockfile, lock_lines,
  lock_hash_of,
}
use teploy_sandbox.Run.Cache.Lock.Names.{
  lockfiles-AreWords, IsDigest, SameFiles, SameFiles-lock_lines, lock_lines-SameFiles,
}

is_dir_name-line : (name : Text) → is_dir_name name ≡ true → contains b'\n' name ≡ false
unfolding is_dir_name contains
is_dir_name-line [] h = refl
is_dir_name-line (c ∷ name) h = go (c ∷ name) h
  where
    go :
        (s : Text)
        → all
            (λ d.
              (leb b'a' d && leb d b'z')
              || (leb b'0' d && leb d b'9')
              || d == b'.'
              || d == b'_'
              || d == b'-')
            s
          ≡ true
        → any (λ d. d == b'\n') s ≡ false
    go [] k = refl
    go (d ∷ s) k = ground (arith, go s)

is_candidate-is_dir_name :
    (disk : Disk) (tree : Tree) (name : Text) (node : Node)
    → is_candidate disk tree (name, node) ≡ true
    → is_dir_name name ≡ true
unfolding is_candidate
is_candidate-is_dir_name disk tree name (directory mode) h =
    ((and_iff (is_dir_name name) (has_lockfile disk tree name)).0 h).0
is_candidate-is_dir_name disk tree name (regular mode content) h = cc
is_candidate-is_dir_name disk tree name (symlink target) h = cc
is_candidate-is_dir_name disk tree name special h = cc

candidates-line :
    (disk : Disk) (tree entries : Tree)
    → All (λ dir. contains b'\n' dir ≡ false) (candidates disk tree entries)
unfolding candidates
candidates-line disk tree [] = tt
candidates-line disk tree ((name, node) ∷ rest) =
    elim (Bool-cases (is_candidate disk tree (name, node))) [
      | inl c ↦
          rw (c, candidates)
            (
              is_dir_name-line name (is_candidate-is_dir_name disk tree name node c),
              candidates-line disk tree rest,
            )
      | inr c ↦ rw (c, candidates) (candidates-line disk tree rest)
    ]

detect_repo_dir-line :
    (disk : Disk) (tree : Tree) → contains b'\n' (detect_repo_dir disk tree) ≡ false
unfolding detect_repo_dir contains
detect_repo_dir-line disk tree = elim (Bool-cases (has_lockfile disk tree (codes "."))) [
  | inl h ↦ rw (h, detect_repo_dir) refl
  | inr h ↦
      rw (h, detect_repo_dir) (pick (candidates disk tree tree) (candidates-line disk tree tree))
]
  where
    pick :
        (dirs : List Text)
        → All (λ dir. contains b'\n' dir ≡ false) dirs
        → contains b'\n' (elim dirs [ dir ∷ [] ↦ dir | _ ↦ codes "." ]) ≡ false
    pick [] k = refl
    pick (dir ∷ []) k = k.0
    pick (dir ∷ other ∷ dirs) k = refl

module _ ⦃d : Digest⦄ where
  hash_of : Text → Text → Text
  hash_of dir lines = d.hex ((codes "dir " ++ dir) ++ (b'\n' ∷ lines))

  lock_hash_of-ok :
      (disk : Disk) (tree : Tree) (hash dir : Text)
      → lock_hash_of disk tree ≡ ok (hash, dir)
      → (lines : Text) × (lock_lines disk tree dir lockfiles ≡ ok lines)
        × (hash ≡ hash_of dir lines)
        × (dir ≡ detect_repo_dir disk tree)
  unfolding lock_hash_of hash_of
  lock_hash_of-ok disk tree hash dir h =
      let found = detect_repo_dir disk tree in
      elim (Result-cases (lock_lines disk tree found lockfiles)) [
        | inl (e, k) ↦
            let refused : ◌≡◌ {A = Result (Text × Text)} (err e) (ok (hash, dir)) =
              rw (k, lock_hash_of) at h in
            absurd (cc)
        | inr (lines, k) ↦
            let made : ◌≡◌ {A = Result (Text × Text)} (ok (hash_of found lines, found))
                (ok (hash, dir)) =
              rw (k, lock_hash_of) at h in
            let same : found ≡ dir = cc in
            (
              lines,
              rw same at k,
              let whole : hash_of found lines ≡ hash = cc in
                  sym whole ∙ ap (λ t. hash_of t lines) same,
              sym same,
            )
      ]

  -- Two volumes that LockHash can read have the same hash exactly when their repositories stand in
  -- directories of the same name and every lockfile is missing from both or has the same content in
  -- both. SHA-256 is taken to have no collisions.
  pub lock_hash-equal_iff :
      (disk disk' : Disk) (tree tree' : Tree) (hash hash' dir dir' : Text)
      → IsDigest d
      → lock_hash_of disk tree ≡ ok (hash, dir)
      → lock_hash_of disk' tree' ≡ ok (hash', dir')
      → (hash ≡ hash') ↔ ((dir ≡ dir') × SameFiles disk tree dir disk' tree' dir' lockfiles)
  unfolding hash_of contains IsDigest
  lock_hash-equal_iff disk disk' tree tree' hash hash' dir dir' g h h' =
      let (lines, k, made, found) = lock_hash_of-ok disk tree hash dir h in
      let (lines', k', made', found') = lock_hash_of-ok disk' tree' hash' dir' h' in
      (
        λ e.
            let one_line : (dir : Text)
                → contains b'\n' dir ≡ false
                → contains b'\n' (codes "dir " ++ dir) ≡ false =
              λ dir plain. contains-append b'\n' (codes "dir ") dir ∙ ground (arith, plain) in
            let texts = g.0 _ _ (sym made ∙ e ∙ made') in
            let (first, rest) =
              split-append_cancel b'\n' (codes "dir " ++ dir) (codes "dir " ++ dir') lines lines'
                (one_line dir (rw found (detect_repo_dir-line disk tree)))
                (one_line dir' (rw found' (detect_repo_dir-line disk' tree'))) texts in
            let (front, same) = append_cancel (codes "dir ") (codes "dir ") dir dir' first refl in
            (
              same,
              SameFiles-lock_lines disk disk' tree tree' dir dir' lockfiles lines g
                  lockfiles-AreWords k (k' ∙ ap ok (sym rest)),
            ),
        λ s.
            let both =
              sym k ∙ lock_lines-SameFiles disk disk' tree tree' dir dir' lockfiles s.1 ∙ k' in
            let lines_same : lines ≡ lines' = cc in
            made ∙ (λ i. hash_of (s.0 i) (lines_same i)) ∙ sym made',
      )
