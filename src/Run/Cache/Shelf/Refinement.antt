-- ===== src/Run/Cache/Shelf/Refinement.antt =====
-- CacheStore of cache.go implements the shelf.
use teploy_sandbox.Prelude.{
  ℕ, ◌≡◌, refl, sym, ap, ◌∙◌, inl, inr, false, Option, none, some, List, [], ◌∷◌, arith,
  if◌then◌else◌, Bool-cases, any, Text, codes, text_eq, text_eq_iff, text_eq_refl, CaseTable, Table,
  lookup, insert, erase, lookup-insert, lookup-erase, ok,
}
use teploy_sandbox.Run.Types.{WarmManifest}
use teploy_sandbox.Run.Cache.Tree.{Tree, Disk, Copied, copy_tree}
use teploy_sandbox.Run.Cache.Tree.Copy.{Quiet, ordinary, ordinary-Distinct, copy_tree-Quiet}
use teploy_sandbox.Run.Cache.Store.{
  Store, Digest, slug_key, gen_path, run_path, repo_path, mark, unmark, marks_on, busy_at,
  document_at, generation, repo_at, touch_last_used,
}
use teploy_sandbox.Run.Cache.Store.Marks.{
  marks_on-mark, marks_on-unmark, marks_on-in_use, unmark-repos, unmark-volumes,
  touch_last_used-volumes,
}
use teploy_sandbox.Run.Cache.Boot.{
  run_name, put_volume, remove_volume, cold_volume, boot_attempts, boot, boot_empty, release_run,
}
use teploy_sandbox.Run.Cache.Lock.{volume_hash}
use teploy_sandbox.Run.Cache.Lock.Names.{IsDigest}
use teploy_sandbox.Run.Cache.Commit.{commit, drop}
use teploy_sandbox.Run.Cache.Commit.Race.{alone}
use teploy_sandbox.Run.Cache.Commit.Frame.{repo_at-generation}
use teploy_sandbox.Run.Cache.Commit.Written.{
  manifest-Written, IsWellFormed, manifest-document, read_document,
}
use teploy_sandbox.Run.Cache.Commit.Shown.{touch_last_used-Keeps}
use teploy_sandbox.Run.Cache.Commit.Publish.{CanCommit, committed, commit-Published}
use teploy_sandbox.Run.Cache.Shelf.{
  Shelf, Op, commits, boots, boots_empty, releases, drops, fills, update, perform, perform_all, act,
  act_all, Allows, AllowsAll, first_content, Shelved, empty, stocked, Refines,
}
use teploy_sandbox.Run.Cache.Shelf.Templates.{
  SameReads, SameReads-repo_at, SameReads-repos, SameReads-trans, SameReads-Keeps,
  Shelved-SameReads, slug_key-text_eq,
}

module _ ⦃d : Digest⦄ where
  -- Only the volumes change.
  Refines-volumes :
      (s s' : Store) (shelf : Shelf) (volumes : Text → Option Tree)
      → Refines s shelf
      → ((key : Text) → SameReads key s s')
      → ((name : Text) → lookup name s'.volumes ≡ volumes name)
      → ((dir : Text) → marks_on dir s' ≡ marks_on dir s)
      → Refines s' (record shelf { volumes = volumes })
  Refines-volumes s s' shelf volumes h r v m = record {
    templates = λ slug.
        Shelved-SameReads slug s s' (shelf.templates slug) (r (slug_key slug)) (h.templates slug);
    volumes = v;
    idle = λ dir. m dir ∙ h.idle dir;
  }

  -- One run's volume is put in place_node, or removed.
  Refines-set :
      (s : Store) (shelf : Shelf) (name : Text) (tree : Tree)
      → Refines s shelf
      → Refines
          (record s { volumes = insert name tree s.volumes })
          (record shelf { volumes = update shelf.volumes name (some tree) })
  unfolding marks_on
  Refines-set s shelf name tree h =
      Refines-volumes s _ shelf _ h (λ key. SameReads-repos key s _ refl)
        (λ asked.
          lookup-insert name asked tree s.volumes
          ∙ ap (λ o. if text_eq name asked then some tree else o) (h.volumes asked))
        (λ dir. refl)

  Refines-clear :
      (s : Store) (shelf : Shelf) (name : Text)
      → Refines s shelf
      → Refines
          (record s { volumes = erase name s.volumes })
          (record shelf { volumes = update shelf.volumes name none })
  unfolding marks_on
  Refines-clear s shelf name h =
      Refines-volumes s _ shelf _ h (λ key. SameReads-repos key s _ refl)
        (λ asked.
          lookup-erase name asked s.volumes
          ∙ ap (λ o. if text_eq name asked then none else o) (h.volumes asked))
        (λ dir. refl)

  -- One slug's template changes.
  Refines-template :
      (s s' : Store) (shelf : Shelf) (slug : Text) (template : Option (WarmManifest × Tree))
      → IsDigest d
      → Refines s shelf
      → Shelved slug s' template
      → ((other : Text)
          → text_eq (slug_key slug) other ≡ false
          → repo_at other s' ≡ repo_at other s)
      → s'.volumes ≡ s.volumes
      → ((dir : Text) → marks_on dir s' ≡ marks_on dir s)
      → Refines s' (record shelf { templates = update shelf.templates slug template })
  Refines-template s s' shelf slug template g h t o v m = record {
    templates = each;
    volumes = λ name. ap (lookup name) v ∙ h.volumes name;
    idle = λ dir. m dir ∙ h.idle dir;
  }
    where
      each :
          (asked : Text)
          → Shelved asked s' (if text_eq slug asked then template else shelf.templates asked)
      each asked = elim (Bool-cases (text_eq slug asked)) [
        | inl e ↦ let same : slug ≡ asked = (text_eq_iff slug asked).0 e in rw e (rw same at t)
        | inr e ↦
            let apart = slug_key-text_eq slug asked g ∙ e in
            rw e (
              Shelved-SameReads asked s s' (shelf.templates asked)
                (SameReads-repo_at (slug_key asked) s s' (o (slug_key asked) apart))
                (h.templates asked))
      ]

  idle-busy_at : (dir : Text) (s : Store) → marks_on dir s ≡ 0 → busy_at dir s ≡ false
  unfolding busy_at
  idle-busy_at dir s h = rw h refl

  idle-entries :
      (key : Text) (entries : Table Tree) (s : Store)
      → ((dir : Text) → marks_on dir s ≡ 0)
      → any (λ (entry : Text × Tree). busy_at (gen_path key entry.0) s) entries ≡ false
  idle-entries key [] s h = refl
  idle-entries key (entry ∷ rest) s h =
      rw (idle-busy_at (gen_path key entry.0) s (h _)) (idle-entries key rest s h)

  dropped-document :
      (key : Text) (s : Store) → document_at key (record s { repos = erase key s.repos }) ≡ none
  unfolding document_at repo_at
  dropped-document key s = rw (lookup-erase key key s.repos, text_eq_refl key, document_at) refl

  drop-Refines :
      (disk : Disk) (slug : Text) (s : Store) (shelf : Shelf)
      → IsDigest d
      → Quiet disk
      → Refines s shelf
      → Refines (drop disk slug s).1 (record shelf { templates = update shelf.templates slug none })
  unfolding drop Quiet read_document marks_on repo_at
  drop-Refines disk slug s shelf g q h = elim (h.templates slug) [
    | empty e m ↦
        rw (m, drop)
          (Refines-template s s shelf slug none g h (empty refl m) (λ other k. refl) refl
            (λ dir. refl))
    | stocked mf tree e m gen distinct ↦
        let key = slug_key slug in
        let (repo, found) = repo_at-generation key mf.gen tree s gen in
        rw (m, found, idle-entries key repo.entries s h.idle, q.1 (repo_path key), drop)
          (Refines-template s _ shelf slug none g h
            (empty refl (manifest-document slug _ ∙ ap read_document (dropped-document key s)))
            (λ other k. lookup-erase key other s.repos ∙ rw k refl) refl (λ dir. refl))
  ]

module _ ⦃d : Digest⦄ ⦃u : CaseTable⦄ where
  release_run-Refines :
      (disk : Disk) (id : Text) (s : Store) (shelf : Shelf)
      → Quiet disk
      → Refines s shelf
      → Refines
          (release_run disk id s)
          (record shelf { volumes = update shelf.volumes (run_name id) none })
  unfolding release_run remove_volume Quiet
  release_run-Refines disk id s shelf q h =
      rw
        (
          idle-busy_at (run_path (run_name id)) s (h.idle _),
          q.1 (run_path (run_name id)),
          release_run,
          remove_volume,
        )
        (Refines-clear s shelf (run_name id) h)

  cold_volume-store :
      (disk : Disk) (name : Text) (s : Store)
      → Quiet disk
      → lookup name s.volumes ≡ none
      → (cold_volume disk name s).1 ≡ record s { volumes = insert name [] s.volumes }
  unfolding cold_volume put_volume Quiet
  cold_volume-store disk name s q h = rw (q.2 (run_path name), h, cold_volume, put_volume) refl

  boot_empty-Refines :
      (disk : Disk) (id : Text) (s : Store) (shelf : Shelf)
      → Quiet disk
      → lookup (run_name id) s.volumes ≡ none
      → Refines s shelf
      → Refines
          (boot_empty disk id s).1
          (record shelf { volumes = update shelf.volumes (run_name id) (some []) })
  unfolding boot_empty Quiet
  boot_empty-Refines disk id s shelf q k h =
      rw (q.2 (codes "runs"), boot_empty, cold_volume-store disk (run_name id) s q k)
        (Refines-set s shelf (run_name id) [] h)

  -- The store behind a warm boot.
  warm_store : Text → Text → Text → ℕ → Option Tree → Store → Store
  warm_store key gen name now copy s =
      touch_last_used key now
        (unmark (gen_path key gen) (put_volume name copy (mark (gen_path key gen) s)))

  warm_store-marks :
      (key gen name dir : Text) (now : ℕ) (copy : Tree) (s : Store)
      → marks_on dir (warm_store key gen name now (some copy) s) ≡ marks_on dir s
  unfolding warm_store put_volume
  warm_store-marks key gen name dir now copy s =
      let gp = gen_path key gen in
      let put = put_volume name (some copy) (mark gp s) in
      let touched = touch_last_used-Keeps key gen now (unmark gp put) in
      ground (
        arith,
        marks_on-in_use dir (unmark gp put) (warm_store key gen name now (some copy) s)
            touched.in_use,
        marks_on-unmark gp dir put,
        marks_on-in_use dir (mark gp s) put refl,
        marks_on-mark gp dir s,
      )

  warm_store-Refines :
      (key gen name : Text) (now : ℕ) (copy : Tree) (s : Store) (shelf : Shelf)
      → Refines s shelf
      → Refines
          (warm_store key gen name now (some copy) s)
          (record shelf { volumes = update shelf.volumes name (some copy) })
  unfolding warm_store put_volume mark
  warm_store-Refines key gen name now copy s shelf h =
      let gp = gen_path key gen in
      let put = put_volume name (some copy) (mark gp s) in
      let freed = unmark gp put in
      Refines-volumes s (warm_store key gen name now (some copy) s) shelf _ h
        (λ k.
          SameReads-trans k s freed _ (SameReads-repos k s freed (unmark-repos gp put))
            (SameReads-Keeps key k freed _ (λ g. touch_last_used-Keeps key g now freed)))
        (λ asked.
          ap (lookup asked) (touch_last_used-volumes key now freed ∙ unmark-volumes gp put)
          ∙ lookup-insert name asked copy s.volumes
          ∙ ap (λ o. if text_eq name asked then some copy else o) (h.volumes asked))
        (λ dir. warm_store-marks key gen name dir now copy s)

  boot-Refines :
      (disk : Disk) (id slug : Text) (now : ℕ) (s : Store) (shelf : Shelf)
      → Quiet disk
      → lookup (run_name id) s.volumes ≡ none
      → Refines s shelf
      → Refines (boot disk alone id slug now s).1 (record shelf {
        volumes = update shelf.volumes (run_name id) (some (first_content (shelf.templates slug)));
      })
  unfolding boot boot_attempts Quiet warm_store first_content
  boot-Refines disk id slug now s shelf q k h = elim (h.templates slug) [
    | empty e m ↦
        rw
          (
            q.2 (codes "runs"),
            m,
            e,
            cold_volume-store disk (run_name id) s q k,
            boot,
            boot_attempts,
          )
          (Refines-set s shelf (run_name id) [] h)
    | stocked mf tree e m gen distinct ↦
        let key = slug_key slug in
        let name = run_name id in
        let copied = copy_tree disk (generation key mf.gen s) (lookup name s.volumes) in
        let whole : copied ≡ record { failure = none; tree = some (ordinary tree) } =
          (λ i. copy_tree disk (gen i) (k i)) ∙ copy_tree-Quiet disk tree q distinct in
        let made : Refines (warm_store key mf.gen name now copied.tree s)
            (record shelf { volumes = update shelf.volumes name (some (ordinary tree)) }) =
          rw (ap (λ (c : Copied). c.tree) whole)
            (warm_store-Refines key mf.gen name now (ordinary tree) s shelf h) in
        rw (q.2 (codes "runs"), m, e, ap (λ (c : Copied). c.failure) whole, boot, boot_attempts)
          made
  ]

  commit-Refines :
      (disk : Disk) (size : WarmManifest → ℕ) (id slug gen hash dir : Text) (tree : Tree) (now : ℕ)
      (s : Store) (shelf : Shelf)
      → IsDigest d
      → CanCommit disk id slug gen tree s
      → volume_hash disk id s ≡ ok (hash, dir)
      → Refines s shelf
      → Refines
          (commit disk size id slug gen now s).1
          (act disk size (hash, dir) (commits id slug gen now) shelf)
  unfolding act committed IsWellFormed
  commit-Refines disk size id slug gen hash dir tree now s shelf g c v h =
      let mf = committed slug hash dir gen now in
      let p = commit-Published disk size id slug gen hash dir tree now s c v in
      let after = (commit disk size id slug gen now s).1 in
      let held : shelf.volumes (run_name id) ≡ some tree =
        sym (h.volumes (run_name id)) ∙ c.volume in
      rw (held, act)
        (Refines-template s after shelf slug (some (mf, ordinary tree)) g h
          (stocked mf (ordinary tree) refl
            (manifest-Written slug mf after (c.named, c.shape) p.shown.document) p.shown.current
            (ordinary-Distinct tree c.distinct))
          p.shown.others p.shown.volumes p.marks)

  perform-Refines :
      (disk : Disk) (size : WarmManifest → ℕ) (hash : Text × Text) (op : Op) (s : Store)
      (shelf : Shelf)
      → IsDigest d
      → Quiet disk
      → Allows disk size hash op s
      → Refines s shelf
      → Refines (perform disk size op s) (act disk size hash op shelf)
  unfolding perform act Allows
  perform-Refines disk size (hash, dir) (commits id slug gen now) s shelf g q ((tree, c), v) h =
      commit-Refines disk size id slug gen hash dir tree now s shelf g c v h
  perform-Refines disk size hash (boots id slug now) s shelf g q a h =
      boot-Refines disk id slug now s shelf q a h
  perform-Refines disk size hash (boots_empty id) s shelf g q a h =
      boot_empty-Refines disk id s shelf q a h
  perform-Refines disk size hash (releases id) s shelf g q a h =
      release_run-Refines disk id s shelf q h
  perform-Refines disk size hash (drops slug) s shelf g q a h = drop-Refines disk slug s shelf g q h
  perform-Refines disk size hash (fills id tree) s shelf g q a h =
      Refines-set s shelf (run_name id) tree h

  -- Over any sequence of commits, boots, releases, drops and changes of volumes by their runs, made
  -- one after the other on a file system on which nothing fails, the store stands for what the same
  -- calls make of a shelf with one template for each repository and one volume for each run: a
  -- commit gives its repository the copy of the run's volume as its template and touches no other
  -- template, a boot gives its run a copy of the repository's template, or an empty volume where
  -- there is none, a release and a drop remove what they name, and no mark is left behind. A boot
  -- is made where the run has no volume, a commit of a volume that can be read under a generation
  -- name of its own; SHA-256 is taken to have no collisions.
  pub perform_all-Refines :
      (disk : Disk) (size : WarmManifest → ℕ) (ops : List ((Text × Text) × Op)) (s : Store)
      (shelf : Shelf)
      → IsDigest d
      → Quiet disk
      → AllowsAll disk size ops s
      → Refines s shelf
      → Refines (perform_all disk size ops s) (act_all disk size ops shelf)
  unfolding perform_all act_all AllowsAll
  perform_all-Refines disk size [] s shelf g q a h = h
  perform_all-Refines disk size ((hash, op) ∷ ops) s shelf g q (a, later) h =
      perform_all-Refines disk size ops (perform disk size op s) (act disk size hash op shelf) g q
        later (perform-Refines disk size hash op s shelf g q a h)
