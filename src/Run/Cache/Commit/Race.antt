-- ===== src/Run/Cache/Commit/Race.antt =====
-- Two commits of one repository (cache.go: Commit, cleanGenerations): what a cleaner that has read
-- the manifest before another commit publishes does to the other's generation, and what boots find
-- then.
use teploy_sandbox.Prelude.{
  ℕ, zero, suc, ◌≡◌, refl, sym, ap, ◌∙◌, inl, inr, false, Option, none, some, ◌++◌, arith,
  Option-cases, Text, codes, text_eq, text_eq_refl, CaseTable, lookup, lookup-erase, ok,
}
use teploy_sandbox.Run.Types.{WarmManifest}
use teploy_sandbox.Run.Cache.Tree.{Tree, Disk, copy_tree, gone}
use teploy_sandbox.Run.Cache.Tree.Copy.{Quiet}
use teploy_sandbox.Run.Cache.Store.{
  holds, Store, Digest, slug_key, repo_at, document_at, generation, gen_path, run_path, busy_at,
  marks_on, manifest, manifest_from_dir, mark, unmark,
}
use teploy_sandbox.Run.Cache.Boot.{
  Others, run_name, put_volume, remove_volume, cold_volume, boot_attempts, boot,
}
use teploy_sandbox.Run.Cache.Commit.{delete_superseded, write_manifest, current_gen}
use teploy_sandbox.Run.Cache.Store.Marks.{unmark-repos}
use teploy_sandbox.Run.Cache.Commit.Written.{
  IsWellFormed, write_manifest-Written, manifest-document, manifest-Written, read_document-ok,
}
use teploy_sandbox.Run.Cache.Commit.Frame.{generation-repos, document_at-repos}
use teploy_sandbox.Run.Cache.Commit.Clean.{delete_superseded-Keeps, IsSpared}
use teploy_sandbox.Run.Cache.Commit.Stale.{IsStale, delete_superseded-removes}

-- Nobody else acts.
abbrev pub alone : Others
alone = record { before = λ n s. s; during = λ n s. s; removal = λ n path. none }

-- The manifest names a generation that is not there.
unfoldable pub IsDangling : ⦃d : Digest⦄ → Text → WarmManifest → Store → Type 0
IsDangling slug mf s = (manifest slug s ≡ ok mf) × (generation (slug_key slug) mf.gen s ≡ none)

module _ ⦃d : Digest⦄ where
  IsDangling-repos :
      (slug : Text) (mf : WarmManifest) (s s' : Store)
      → s'.repos ≡ s.repos
      → IsDangling slug mf s
      → IsDangling slug mf s'
  unfolding IsDangling manifest document_at repo_at generation
  IsDangling-repos slug mf s s' e h = rw e h

  cold_volume-template :
      (disk : Disk) (name : Text) (s : Store)
      → Quiet disk
      → (cold_volume disk name s).0 ≡ ok (record { dir = run_path name; template = none })
  unfolding cold_volume Quiet
  cold_volume-template disk name s q = rw (q.2 (run_path name), cold_volume) refl

  attempt-repos :
      (disk : Disk) (name dir : Text) (volume : Option Tree) (s : Store)
      → (remove_volume disk name (unmark dir (put_volume name volume (mark dir s)))).repos ≡ s.repos
  unfolding remove_volume unmark put_volume mark
  attempt-repos disk name dir none s = ground arith
  attempt-repos disk name dir (some tree) s = ground arith

  missing-copy :
      (disk : Disk) (src dst : Option Tree)
      → src ≡ none
      → (copy_tree disk src dst).failure ≡ some gone
  unfolding copy_tree
  missing-copy disk src dst h = rw h refl

  boot_attempts-dangling :
      (disk : Disk) (slug name : Text) (mf : WarmManifest) (now n : ℕ) (s : Store)
      → Quiet disk
      → IsDangling slug mf s
      → (boot_attempts disk alone slug name now n s).0
        ≡ ok (record { dir = run_path name; template = none })
  unfolding boot_attempts IsDangling
  boot_attempts-dangling disk slug name mf now zero s q h = cold_volume-template disk name s q
  boot_attempts-dangling disk slug name mf now (suc n) s q h =
      let dir = gen_path (slug_key slug) mf.gen in
      let volume = lookup name s.volumes in
      let copied = copy_tree disk (generation (slug_key slug) mf.gen s) volume in
      let failed : copied.failure ≡ some gone = missing-copy disk _ volume h.1 in
      let tried = remove_volume disk name (unmark dir (put_volume name copied.tree (mark dir s))) in
      rw (h.0, failed, boot_attempts)
        (boot_attempts-dangling disk slug name mf now n tried q
          (IsDangling-repos slug mf s tried (attempt-repos disk name dir copied.tree s) h))

  pub boot-dangling :
      ⦃u : CaseTable⦄ (disk : Disk) (id slug : Text) (mf : WarmManifest) (now : ℕ) (s : Store)
      → Quiet disk
      → IsDangling slug mf s
      → (boot disk alone id slug now s).0
        ≡ ok (record { dir = run_path (run_name id); template = none })
  unfolding boot Quiet
  boot-dangling disk id slug mf now s q h =
      rw (q.2 (codes "runs"), boot) (boot_attempts-dangling disk slug (run_name id) mf now 3 s q h)

-- A commit's cleanup has read the manifest in `s`. Then another commit of the repository publishes
-- `mf` and takes its mark off, and the cleanup goes on.
unfoldable pub overtaken_clean :
    Disk → (WarmManifest → ℕ) → Text → WarmManifest → Store → Option Store
unfolding write_manifest current_gen delete_superseded
overtaken_clean disk size key mf s = elim (write_manifest disk size key mf s) [
  | none ↦ none
  | some published ↦
      some (delete_superseded disk key (current_gen key s) (unmark (gen_path key mf.gen) published))
]

-- The other commit has copied its generation under a mark of its own, and the manifest that the
-- cleanup has read names another one.
pub record IsOvertaken ⦃d : Digest⦄ (slug : Text) (mf old : WarmManifest) (s : Store) : Type 0 where
  pub read : manifest slug s ≡ ok old
  pub other : text_eq mf.gen old.gen ≡ false
  pub formed : IsWellFormed mf
  pub marked : marks_on (gen_path (slug_key slug) mf.gen) s ≡ 1
  pub fresh : generation (slug_key slug) (codes "t-" ++ mf.gen) s ≡ none

unmark-frees :
    (dir : Text) (s s' : Store)
    → s'.in_use ≡ s.in_use
    → marks_on dir s ≡ 1
    → busy_at dir (unmark dir s') ≡ false
unfolding unmark busy_at marks_on
unmark-frees dir s s' e h =
    let count : marks_on dir s' ≡ 1 = rw e h in
    rw (count, unmark)
      (rw (lookup-erase dir dir s'.in_use, text_eq_refl dir, busy_at, marks_on) refl)

current_gen-manifest :
    ⦃d : Digest⦄ (slug : Text) (mf : WarmManifest) (s : Store)
    → manifest slug s ≡ ok mf
    → current_gen (slug_key slug) s ≡ mf.gen
unfolding current_gen manifest manifest_from_dir
current_gen-manifest slug mf s h =
    let (found, formed) =
      read_document-ok (document_at (slug_key slug) s) mf (sym (manifest-document slug s) ∙ h) in
    rw (found, current_gen, manifest_from_dir) refl

-- If a commit's cleanup reads the manifest before another commit of the repository publishes, and
-- deletes after the other has taken its mark off, it deletes the generation that the manifest then
-- names: with nothing failing on the file system, the manifest still names it, and a later boot
-- with nobody else at work returns an empty volume and no template.
pub overtaken_clean-loses_template :
    ⦃d : Digest⦄ ⦃u : CaseTable⦄ (disk : Disk) (size : WarmManifest → ℕ) (id slug : Text)
    (mf old : WarmManifest) (now : ℕ) (s after : Store)
    → Quiet disk
    → IsOvertaken slug mf old s
    → overtaken_clean disk size (slug_key slug) mf s ≡ some after
    → IsDangling slug mf after
      × ((boot disk alone id slug now after).0
          ≡ ok (record { dir = run_path (run_name id); template = none }))
unfolding overtaken_clean IsDangling IsStale IsWellFormed IsSpared
overtaken_clean-loses_template disk size id slug mf old now s after q o h =
    elim (Option-cases (write_manifest disk size (slug_key slug) mf s)) [
      | inl e ↦
          let refused : ◌≡◌ {A = Option Store} none (some after) = rw (e, overtaken_clean) at h in
          absurd (cc)
      | inr (published, e) ↦
          let key = slug_key slug in
          let w = write_manifest-Written disk size key mf s published e in
          let unmarked = unmark (gen_path key mf.gen) published in
          let same_repos = unmark-repos (gen_path key mf.gen) published in
          let current = current_gen-manifest slug old s o.read in
          let (found, old_formed) =
            read_document-ok (document_at key s) old (sym (manifest-document slug s) ∙ o.read) in
          let stale : IsStale key old.gen mf.gen unmarked = (
            ground
                (arith, o.other, unmark-frees (gen_path key mf.gen) s published w.in_use o.marked),
            generation-repos key _ published unmarked same_repos
                ∙ w.entries (codes "t-" ++ mf.gen)
                ∙ o.fresh,
          ) in
          let cleaned = delete_superseded disk key old.gen unmarked in
          let kept =
            delete_superseded-Keeps disk key old.gen old.gen unmarked old_formed.1 (inl refl) in
          let doc : document_at key cleaned ≡ some (holds mf) =
            kept.document ∙ document_at-repos key published unmarked same_repos ∙ w.document in
          let lost : IsDangling slug mf cleaned = (
            manifest-Written slug mf cleaned o.formed doc,
            delete_superseded-removes disk key old.gen mf.gen unmarked q o.formed.1 stale,
          ) in
          let done : some (delete_superseded disk key (current_gen key s) unmarked) ≡ some after =
            rw (e, overtaken_clean) at h in
          let same : cleaned ≡ after =
            ap (λ c. delete_superseded disk key c unmarked) (sym current) ∙ (cc) in
          rw (← same) (lost, boot-dangling disk id slug mf now cleaned q lost)
    ]
