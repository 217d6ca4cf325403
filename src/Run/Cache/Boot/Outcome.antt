-- ===== src/Run/Cache/Boot/Outcome.antt =====
-- What Boot of cache.go leaves, whatever other goroutines and the file system do.
use teploy_sandbox.Prelude.{
  ℕ, zero, suc, ◌≡◌, refl, ap, arith, ◌∙◌, inl, inr, true, Option, none, some, [], Bool-cases,
  Option-cases, Text, codes, text_eq_refl, CaseTable, lookup, lookup-erase, lookup-insert_self,
  Result, ok, err, Error, not_found, bad_request, lease_held, lease_superseded, busy, internal,
  Result-cases,
}
use teploy_sandbox.Run.Types.{WarmManifest}
use teploy_sandbox.Run.Cache.Tree.{Tree, Disk, gone, broken, copy_tree}
use teploy_sandbox.Run.Cache.Store.{
  Store, Digest, slug_key, gen_path, run_path, mark, unmark, generation, repo_at, manifest,
  touch_last_used,
}
use teploy_sandbox.Run.Cache.Tree.Copy.{Distinct, ordinary, visible, copy_tree-fresh}
use teploy_sandbox.Run.Cache.Store.Marks.{unmark-repos, unmark-volumes, touch_last_used-volumes}
use teploy_sandbox.Run.Cache.Boot.{
  Volume, Others, met, run_name, put_volume, remove_volume, cold_volume, boot_attempts, boot,
}

abbrev volume_of : Text → Store → Option Tree
volume_of name s = lookup name s.volumes

-- Other goroutines leave the volume `name` alone.
unfoldable pub Spares : Others → Text → Type 0
Spares others name =
    ((n : ℕ) (s : Store) → lookup name (others.before n s).volumes ≡ lookup name s.volumes)
    × ((n : ℕ) (s : Store) → lookup name (others.during n s).volumes ≡ lookup name s.volumes)

-- No generation lists a path twice.
unfoldable pub IsSingle : Store → Type 0
IsSingle s = (key gen : Text) (tree : Tree) → generation key gen s ≡ some tree → Distinct tree

-- Whatever other goroutines make of the generations, they list no path twice.
unfoldable pub KeepsSingle : Others → Type 0
unfolding IsSingle
KeepsSingle others =
    ((n : ℕ) (s : Store) → IsSingle s → IsSingle (others.before n s))
    × ((n : ℕ) (s : Store) → IsSingle s → IsSingle (others.during n s))

IsSingle-repos : (s s' : Store) → s'.repos ≡ s.repos → IsSingle s → IsSingle s'
unfolding IsSingle generation repo_at
IsSingle-repos s s' e h = λ key gen tree found. h key gen tree (rw e at found)

put_volume-repos :
    (name : Text) (tree : Option Tree) (s : Store) → (put_volume name tree s).repos ≡ s.repos
unfolding put_volume
put_volume-repos name none s = refl
put_volume-repos name (some tree) s = refl

remove_volume-repos :
    (disk : Disk) (name : Text) (s : Store) → (remove_volume disk name s).repos ≡ s.repos
unfolding remove_volume
remove_volume-repos disk name s = ground arith

-- The ways in which a boot of the volume `name` ends.
pub data Outcome ⦃d : Digest⦄ (disk : Disk) (others : Others) (slug name : Text)
    (r : Result Volume × Store) : Type 0 where
  warm :
      (n : ℕ) (read : Store) (mf : WarmManifest) (tree copy : Tree)
      → r.0 ≡ ok (record { dir = run_path name; template = some mf })
      → manifest slug read ≡ ok mf
      → generation (slug_key slug) mf.gen (others.before n read) ≡ some tree
      → lookup name r.1.volumes ≡ some copy
      → copy ≡ ordinary (visible (met others n disk) tree)
      → Outcome disk others slug name r
  cold :
      r.0 ≡ ok (record { dir = run_path name; template = none })
      → lookup name r.1.volumes ≡ some []
      → Outcome disk others slug name r
  failed :
      (e : Error) → r.0 ≡ err e → lookup name r.1.volumes ≡ none → Outcome disk others slug name r

cold_volume-Outcome :
    ⦃d : Digest⦄ (disk : Disk) (others : Others) (slug name : Text) (s : Store)
    → lookup name s.volumes ≡ none
    → Outcome disk others slug name (cold_volume disk name s)
unfolding cold_volume put_volume
cold_volume-Outcome disk others slug name s h = elim (Bool-cases (disk.writes (run_path name))) [
  | inl w ↦
      cold (rw (w, cold_volume) refl)
        (rw (w, cold_volume, h) (lookup-insert_self name [] s.volumes))
  | inr w ↦ failed internal (rw (w, cold_volume) refl) (rw (w, cold_volume) h)
]

module _ ⦃d : Digest⦄ where
  remove_volume_lem :
      (disk : Disk) (name : Text) (s : Store)
      → disk.removes (run_path name) ≡ true
      → lookup name (remove_volume disk name s).volumes ≡ none
  unfolding remove_volume
  remove_volume_lem disk name s h =
      rw (h, remove_volume, lookup-erase name name s.volumes, text_eq_refl name) refl

  stopped :
      (disk : Disk) (others : Others) (slug name : Text) (e : Error) (s : Store)
      (r : Result Volume × Store)
      → r ≡ (err e, s)
      → lookup name s.volumes ≡ none
      → Outcome disk others slug name r
  stopped disk others slug name e s r h k = failed e (ap (λ p. p.0) h) (rw h k)

  -- A copy into a fresh directory that does not fail has a source, and makes the entries that it
  -- sees.
  copy_tree-whole :
      (disk : Disk) (src : Option Tree)
      → ((tree : Tree) → src ≡ some tree → Distinct tree)
      → (copy_tree disk src none).failure ≡ none
      → (tree : Tree) × (src ≡ some tree)
        × (copy_tree disk (some tree) none
            ≡ record { failure = none; tree = some (ordinary (visible disk tree)) })
  unfolding copy_tree
  copy_tree-whole disk none d h = let failed : some gone ≡ none = h in absurd (cc failed)
  copy_tree-whole disk (some tree) d h = (
    tree,
    refl,
    λ i. record { failure = h i; tree = copy_tree-fresh disk tree (d tree refl) h i },
  )

  -- The store behind a copy, and the volume in it.
  copied_into : Disk → Others → Text → Text → ℕ → Store → WarmManifest → Store
  copied_into disk others slug name n seen mf = unmark (gen_path (slug_key slug) mf.gen) (
      others.during n (
        put_volume name
          (copy_tree (met others n disk) (generation (slug_key slug) mf.gen seen)
            (lookup name seen.volumes)).tree
          (mark (gen_path (slug_key slug) mf.gen) seen)))

  copied-volume :
      (others : Others) (name key dir : Text) (now n : ℕ) (copy : Tree) (seen : Store)
      → Spares others name
      → lookup name
          (touch_last_used key now
            (unmark dir (others.during n (put_volume name (some copy) (mark dir seen))))).volumes
        ≡ some copy
  unfolding Spares put_volume
  copied-volume others name key dir now n copy seen sp =
      let copied = others.during n (put_volume name (some copy) (mark dir seen)) in
      rw (touch_last_used-volumes key now (unmark dir copied), unmark-volumes dir copied)
        (sp.1 n (put_volume name (some copy) (mark dir seen))
          ∙ lookup-insert_self name copy (mark dir seen).volumes)

  boot_attempts-Outcome :
      (disk : Disk) (others : Others) (slug name : Text) (now n : ℕ) (s : Store)
      → disk.removes (run_path name) ≡ true
      → Spares others name
      → KeepsSingle others
      → IsSingle s
      → lookup name s.volumes ≡ none
      → Outcome disk others slug name (boot_attempts disk others slug name now n s)
  unfolding boot_attempts Spares KeepsSingle copied_into mark
  boot_attempts-Outcome disk others slug name now zero s r sp ks si h =
      cold_volume-Outcome disk others slug name s h
  boot_attempts-Outcome disk others slug name now (suc n) s r sp ks si h =
      elim (Result-cases (manifest slug s)) [
        | inl (not_found, e) ↦ rw (e, boot_attempts) (cold_volume-Outcome disk others slug name s h)
        | inl (bad_request, e) ↦
            stopped disk others slug name bad_request s _ (rw (e, boot_attempts) refl) h
        | inl (lease_held, e) ↦
            stopped disk others slug name lease_held s _ (rw (e, boot_attempts) refl) h
        | inl (lease_superseded, e) ↦
            stopped disk others slug name lease_superseded s _ (rw (e, boot_attempts) refl) h
        | inl (busy, e) ↦ stopped disk others slug name busy s _ (rw (e, boot_attempts) refl) h
        | inl (internal, e) ↦
            stopped disk others slug name internal s _ (rw (e, boot_attempts) refl) h
        | inr (mf, e) ↦
            let key = slug_key slug in
            let seen = others.before n s in
            let absent : lookup name seen.volumes ≡ none = sp.0 n s ∙ h in
            let after = copied_into disk others slug name n seen mf in
            let removed = remove_volume_lem disk name after r in
            let single = ks.0 n s si in
            let copied =
              put_volume name
                (copy_tree (met others n disk) (generation key mf.gen seen)
                  (lookup name seen.volumes)).tree
                (mark (gen_path key mf.gen) seen) in
            let copied-single : IsSingle copied =
              IsSingle-repos seen copied (put_volume-repos name _ _) single in
            let left-single : IsSingle (remove_volume disk name after) =
              IsSingle-repos (others.during n copied) (remove_volume disk name after)
                (remove_volume-repos disk name after ∙ unmark-repos _ _)
                (ks.1 n copied copied-single) in
            elim (Option-cases
              (copy_tree (met others n disk) (generation key mf.gen seen)
                (lookup name seen.volumes)).failure) [
                  | inl whole ↦
                      let whole' : (copy_tree (met others n disk) (generation key mf.gen seen)
                            none).failure
                          ≡ none =
                        rw absent at whole in
                      let (tree, found, made) =
                        copy_tree-whole (met others n disk) _ (single key mf.gen) whole' in
                      let copy = ordinary (visible (met others n disk) tree) in
                      warm n s mf tree copy (rw (e, whole, boot_attempts) refl) e found
                        (rw (e, whole, boot_attempts, absent, found, made)
                          (copied-volume others name key (gen_path key mf.gen) now n copy seen sp))
                        refl
                  | inr (gone, f) ↦
                      rw (e, f, boot_attempts)
                        (boot_attempts-Outcome disk others slug name now n
                          (remove_volume disk name after) r sp ks left-single removed)
                  | inr (broken, f) ↦
                      failed internal (rw (e, f, boot_attempts) refl)
                        (rw (e, f, boot_attempts) removed)
                ]
      ]

  -- However the file system's calls fail, whatever a copy misses because others remove it
  -- meanwhile, and whatever other goroutines do to the store, short of touching the run's own
  -- directory or listing a path twice, a boot into a fresh directory that RemoveAll can clear ends
  -- in one of three ways: with a copy of the generation that a manifest it read names, which is
  -- every entry of it that is a directory, a file or a link and that nobody removed before its
  -- directory was read; with an empty directory and no template; or with an error and no directory.
  -- A copy that fails part of the way is never what it returns.
  pub boot-complete_or_cold :
      ⦃u : CaseTable⦄ (disk : Disk) (others : Others) (id slug : Text) (now : ℕ) (s : Store)
      → disk.removes (run_path (run_name id)) ≡ true
      → Spares others (run_name id)
      → KeepsSingle others
      → IsSingle s
      → lookup (run_name id) s.volumes ≡ none
      → Outcome disk others slug (run_name id) (boot disk others id slug now s)
  unfolding boot
  boot-complete_or_cold disk others id slug now s r sp ks si h =
      elim (Bool-cases (disk.writes (codes "runs"))) [
        | inl w ↦
            rw (w, boot) (boot_attempts-Outcome disk others slug (run_name id) now 3 s r sp ks si h)
        | inr w ↦ stopped disk others slug (run_name id) internal s _ (rw (w, boot) refl) h
      ]
