-- ===== src/Run/Cache/Commit/Publish.antt =====
-- What a commit of cache.go that meets no failure publishes (Commit, with everything that it calls).
use teploy_sandbox.Prelude.{
  ℕ, ◌≡◌, refl, sym, ap, ◌∙◌, inl, true, false, Option, none, some, arith, Text, codes, is_empty,
  CaseTable, lookup, insert, Result, ok,
}
use teploy_sandbox.Run.Types.{WarmManifest}
use teploy_sandbox.Run.Cache.Tree.{Tree, Disk, copy_tree}
use teploy_sandbox.Run.Cache.Tree.Copy.{Distinct, Quiet, ordinary, copy_tree-Quiet}
use teploy_sandbox.Run.Cache.Store.{
  Repo, holds, Store, Digest, slug_key, repo_path, gen_path, run_path, mark, unmark, marks_on,
  is_gen_name, repo_at, with_repo, document_at, generation, touch_last_used,
}
use teploy_sandbox.Run.Cache.Store.Marks.{
  marks_on-mark, marks_on-unmark, marks_on-in_use, unmark-repos, unmark-volumes,
}
use teploy_sandbox.Run.Cache.Boot.{run_name}
use teploy_sandbox.Run.Cache.Lock.{volume_hash}
use teploy_sandbox.Run.Cache.Commit.{
  make_repo, change_entries, current_gen, clean_generations, write_manifest, commit_copy, publish,
  commit,
}
use teploy_sandbox.Run.Cache.Commit.Frame.{repo_at-generation, generation-repos}
use teploy_sandbox.Run.Cache.Commit.Clean.{delete_superseded-Keeps, IsSpared}
use teploy_sandbox.Run.Cache.Commit.Written.{write_manifest-Written, current_gen-holds}
use teploy_sandbox.Run.Cache.Commit.Shown.{
  Shown, Shown-start, Shown-Keeps, Shown-repos, Shown-Written, Shown-insert, touch_last_used-Keeps,
  make_repo-Keeps, make_repo-makes,
}
use teploy_sandbox.Run.Cache.Commit.Stale.{change_entries-in_use}

-- The manifest that a commit writes.
unfoldable pub committed : Text → Text → Text → Text → ℕ → WarmManifest
committed slug hash dir gen now = record {
  repo = slug;
  lock_hash = hash;
  repo_dir = dir;
  gen = gen;
  created_at = now;
}

-- A run has a volume to commit under a name that no generation of the repository has.
pub record CanCommit ⦃d : Digest⦄ ⦃u : CaseTable⦄ (disk : Disk) (id slug gen : Text) (tree : Tree)
    (s : Store) : Type 0 where
  pub quiet : Quiet disk
  pub volume : lookup (run_name id) s.volumes ≡ some tree
  pub distinct : Distinct tree
  pub fresh : generation (slug_key slug) gen s ≡ none
  pub shape : is_gen_name gen ≡ true
  pub named : is_empty slug ≡ false

module _ ⦃d : Digest⦄ ⦃u : CaseTable⦄ where
  -- The store behind the copy of a commit.
  marked_store : Text → Text → Text → Store → Store
  marked_store id key gen s =
      mark (run_path (run_name id)) (mark (gen_path key gen) (make_repo key s))

  copied_store : Text → Text → Text → Tree → Store → Store
  unfolding marked_store
  copied_store id key gen copy s =
      unmark (run_path (run_name id))
        (change_entries (insert gen copy) key (marked_store id key gen s))

  commit_copy-Quiet :
      (disk : Disk) (id slug gen : Text) (tree : Tree) (s : Store)
      → CanCommit disk id slug gen tree s
      → commit_copy disk id (slug_key slug) gen s ≡ (
        record { failure = none; tree = some (ordinary tree) },
        copied_store id (slug_key slug) gen (ordinary tree) s,
      )
  unfolding commit_copy copied_store marked_store mark
  commit_copy-Quiet disk id slug gen tree s c =
      let key = slug_key slug in
      let k = make_repo-Keeps key gen s in
      let marked = marked_store id key gen s in
      let source : lookup (run_name id) marked.volumes ≡ some tree =
        ap (lookup (run_name id)) k.volumes ∙ c.volume in
      let target : generation key gen marked ≡ none =
        generation-repos key gen (make_repo key s) marked refl ∙ k.current ∙ c.fresh in
      let copied : copy_tree disk (lookup (run_name id) marked.volumes) (generation key gen marked)
          ≡ record { failure = none; tree = some (ordinary tree) } =
        (λ i. copy_tree disk (source i) (target i))
        ∙ copy_tree-Quiet disk tree c.quiet c.distinct in
      rw copied refl

  copied_store-Shown :
      (id key gen : Text) (copy : Tree) (s : Store)
      → Shown key gen s (document_at key s) (some copy) (copied_store id key gen copy s)
  unfolding copied_store marked_store mark repo_at
  copied_store-Shown id key gen copy s =
      let marked = marked_store id key gen s in
      let (repo, made) = make_repo-makes key s in
      let start =
        Shown-Keeps key gen s _ _ s (make_repo key s) (make_repo-Keeps key gen s)
          (Shown-start key gen s) in
      let shown = Shown-repos key gen s _ _ (make_repo key s) marked refl refl start in
      let inserted = Shown-insert key gen s _ _ copy repo marked made shown in
      Shown-repos key gen s _ _ (change_entries (insert gen copy) key marked) _ (unmark-repos _ _)
        (unmark-volumes _ _) inserted

  copied_store-marks :
      (id key gen asked : Text) (copy : Tree) (s : Store)
      → marks_on asked (copied_store id key gen copy s) ≡ marks_on asked (mark (gen_path key gen) s)
  unfolding copied_store marked_store
  copied_store-marks id key gen asked copy s =
      let vol = run_path (run_name id) in
      let gp = gen_path key gen in
      let marked = marked_store id key gen s in
      let k = make_repo-Keeps key gen s in
      ground (
        arith,
        marks_on-unmark vol asked (change_entries (insert gen copy) key marked),
        marks_on-in_use asked marked (change_entries (insert gen copy) key marked)
            (change_entries-in_use (insert gen copy) key marked),
        marks_on-mark vol asked (mark gp (make_repo key s)),
        marks_on-mark gp asked (make_repo key s),
        marks_on-mark gp asked s,
        marks_on-in_use asked s (make_repo key s) k.in_use,
      )

  write_manifest-Quiet :
      (disk : Disk) (size : WarmManifest → ℕ) (key : Text) (mf : WarmManifest) (repo : Repo)
      (s : Store)
      → Quiet disk
      → repo_at key s ≡ some repo
      → (s' : Store) × (write_manifest disk size key mf s ≡ some s')
  unfolding write_manifest Quiet
  write_manifest-Quiet disk size key mf repo s q e = (
    with_repo key (record repo { manifest = some (holds mf); loose_bytes = size mf }) s,
    rw (e, q.2 (gen_path key (codes "manifest.json")), write_manifest) refl,
  )

  -- What is left of a commit once its manifest is in place_node.
  settled_store : Disk → Text → Text → ℕ → Store → Store
  settled_store disk key gen now s =
      touch_last_used key now (clean_generations disk key (unmark (gen_path key gen) s))

  settled_store-Shown :
      (disk : Disk) (key gen : Text) (mf : WarmManifest) (tree : Tree) (now : ℕ) (start s : Store)
      → is_gen_name gen ≡ true
      → mf.gen ≡ gen
      → Shown key gen start (some (holds mf)) (some tree) s
      → Shown key gen start (some (holds mf)) (some tree) (settled_store disk key gen now s)
        × ((dir : Text)
            → marks_on dir (settled_store disk key gen now s)
              ≡ marks_on dir (unmark (gen_path key gen) s))
  unfolding settled_store clean_generations IsSpared
  settled_store-Shown disk key gen mf tree now start s shape named h =
      let unmarked = unmark (gen_path key gen) s in
      let shown =
        Shown-repos key gen start _ _ s unmarked (unmark-repos _ s) (unmark-volumes _ s) h in
      let current = current_gen-holds key mf unmarked shown.document ∙ named in
      let cleaned = clean_generations disk key unmarked in
      let kept =
        delete_superseded-Keeps disk key (current_gen key unmarked) gen unmarked shape
          (inl (sym current)) in
      let touched = touch_last_used-Keeps key gen now cleaned in
      (
        Shown-Keeps key gen start _ _ cleaned _ touched
            (Shown-Keeps key gen start _ _ unmarked cleaned kept shown),
        λ dir.
            marks_on-in_use dir cleaned _ touched.in_use
            ∙ marks_on-in_use dir unmarked cleaned kept.in_use,
      )

  -- What a commit leaves.
  pub record Published (slug gen : Text) (mf : WarmManifest) (tree : Tree) (s : Store)
      (r : Result WarmManifest × Store) : Type 0 where
    pub answer : r.0 ≡ ok mf
    pub shown : Shown (slug_key slug) gen s (some (holds mf)) (some tree) r.1
    pub marks : (dir : Text) → marks_on dir r.1 ≡ marks_on dir s

  commit-publish :
      (disk : Disk) (size : WarmManifest → ℕ) (id slug gen hash dir : Text) (now : ℕ) (s : Store)
      → volume_hash disk id s ≡ ok (hash, dir)
      → disk.writes (repo_path (slug_key slug)) ≡ true
      → commit disk size id slug gen now s
        ≡ publish disk size
            (slug_key slug)
            (committed slug hash dir gen now)
            now
            (commit_copy disk id (slug_key slug) gen s)
  unfolding commit committed
  commit-publish disk size id slug gen hash dir now s h w = rw (h, w, commit) refl

  publish-settled :
      (disk : Disk) (size : WarmManifest → ℕ) (key : Text) (mf : WarmManifest) (now : ℕ)
      (tree : Option Tree) (s published : Store)
      → write_manifest disk size key mf s ≡ some published
      → publish disk size key mf now (record { failure = none; tree = tree }, s)
        ≡ (ok mf, settled_store disk key mf.gen now published)
  unfolding publish settled_store
  publish-settled disk size key mf now tree s published e = rw (e, publish) refl

  pub commit-Published :
      (disk : Disk) (size : WarmManifest → ℕ) (id slug gen hash dir : Text) (tree : Tree) (now : ℕ)
      (s : Store)
      → CanCommit disk id slug gen tree s
      → volume_hash disk id s ≡ ok (hash, dir)
      → Published slug gen
          (committed slug hash dir gen now)
          (ordinary tree)
          s
          (commit disk size id slug gen now s)
  unfolding committed Quiet
  commit-Published disk size id slug gen hash dir tree now s c h =
      let key = slug_key slug in
      let gp = gen_path key gen in
      let mf = committed slug hash dir gen now in
      let copied = copied_store id key gen (ordinary tree) s in
      let shown = copied_store-Shown id key gen (ordinary tree) s in
      let begun = commit_copy-Quiet disk id slug gen tree s c in
      let (repo, found) = repo_at-generation key gen (ordinary tree) copied shown.current in
      let (published, e) = write_manifest-Quiet disk size key mf repo copied c.quiet found in
      let w = write_manifest-Written disk size key mf copied published e in
      let shown' = Shown-Written key gen s _ _ mf copied published w shown in
      let (settled, same) =
        settled_store-Shown disk key gen mf (ordinary tree) now s published c.shape refl shown' in
      let ran : commit disk size id slug gen now s
          ≡ (ok mf, settled_store disk key gen now published) =
        commit-publish disk size id slug gen hash dir now s h (c.quiet.2 (repo_path key))
        ∙ ap (publish disk size key mf now) begun
        ∙ publish-settled disk size key mf now (some (ordinary tree)) copied published e in
      rw ran (record {
        answer = refl;
        shown = settled;
        marks = λ asked.
            same asked
            ∙ ground (
              arith,
              marks_on-unmark gp asked published,
              marks_on-in_use asked copied published w.in_use,
              copied_store-marks id key gen asked (ordinary tree) s,
              marks_on-mark gp asked s,
            );
      })
