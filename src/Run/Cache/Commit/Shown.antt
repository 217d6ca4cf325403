-- ===== src/Run/Cache/Commit/Shown.antt =====
-- What the steps of Commit of cache.go make of the document and of the generation of a slug, and
-- that they leave all else alone.
use teploy_sandbox.Prelude.{
  ℕ, ◌≡◌, refl, ap, ◌∙◌, inl, inr, false, Option, some, Option-cases, Text, text_eq, text_eq_refl,
  lookup, insert, lookup-insert_self,
}
use teploy_sandbox.Run.Types.{WarmManifest}
use teploy_sandbox.Run.Cache.Tree.{Tree}
use teploy_sandbox.Run.Cache.Store.{
  Repo, Document, holds, Store, repo_at, document_at, generation, touch_last_used,
}
use teploy_sandbox.Run.Cache.Commit.{make_repo, change_entries, empty_repo}
use teploy_sandbox.Run.Cache.Commit.Frame.{
  Keeps, Keeps-refl, repo_at-with_repo, generation-change_entries, generation-repos,
  document_at-repos,
}
use teploy_sandbox.Run.Cache.Commit.Written.{Written}

-- Since `start`, the slug has come to this document and this tree, and the other slugs and the
-- volumes are as they were.
pub record Shown (key gen : Text) (start : Store) (doc : Option Document) (tree : Option Tree)
    (s : Store) : Type 0 where
  pub document : document_at key s ≡ doc
  pub current : generation key gen s ≡ tree
  pub others : (other : Text) → text_eq key other ≡ false → repo_at other s ≡ repo_at other start
  pub volumes : s.volumes ≡ start.volumes

module _ (key gen : Text) (start : Store) where
  pub Shown-start : Shown key gen start (document_at key start) (generation key gen start) start
  Shown-start = record { document = refl; current = refl; others = λ other h. refl; volumes = refl }

  pub Shown-Keeps :
      (doc : Option Document) (tree : Option Tree) (s s' : Store)
      → Keeps key gen s s'
      → Shown key gen start doc tree s
      → Shown key gen start doc tree s'
  Shown-Keeps doc tree s s' k h = record {
    document = k.document ∙ h.document;
    current = k.current ∙ h.current;
    others = λ other e. k.others other e ∙ h.others other e;
    volumes = k.volumes ∙ h.volumes;
  }

  pub Shown-repos :
      (doc : Option Document) (tree : Option Tree) (s s' : Store)
      → s'.repos ≡ s.repos
      → s'.volumes ≡ s.volumes
      → Shown key gen start doc tree s
      → Shown key gen start doc tree s'
  unfolding repo_at
  Shown-repos doc tree s s' e v h = record {
    document = document_at-repos key s s' e ∙ h.document;
    current = generation-repos key gen s s' e ∙ h.current;
    others = λ other k. ap (lookup other) e ∙ h.others other k;
    volumes = v ∙ h.volumes;
  }

  pub Shown-Written :
      (doc : Option Document) (tree : Option Tree) (mf : WarmManifest) (s s' : Store)
      → Written key mf s s'
      → Shown key gen start doc tree s
      → Shown key gen start (some (holds mf)) tree s'
  Shown-Written doc tree mf s s' w h = record {
    document = w.document;
    current = w.entries gen ∙ h.current;
    others = λ other e. w.others other e ∙ h.others other e;
    volumes = w.volumes ∙ h.volumes;
  }

  pub Shown-insert :
      (doc : Option Document) (tree : Option Tree) (copy : Tree) (repo : Repo) (s : Store)
      → repo_at key s ≡ some repo
      → Shown key gen start doc tree s
      → Shown key gen start doc (some copy) (change_entries (insert gen copy) key s)
  unfolding change_entries document_at
  Shown-insert doc tree copy repo s e h =
      let here =
        repo_at-with_repo key key (record repo { entries = insert gen copy repo.entries }) s in
      let doc' : repo.manifest ≡ doc = rw (e, document_at) at h.document in
      record {
        document = rw (e, change_entries) (rw (here, text_eq_refl key, document_at) doc');
        current =
            generation-change_entries (insert gen copy) key gen s
            ∙ rw e (lookup-insert_self gen copy repo.entries);
        others = λ other k.
            rw (e, change_entries) (repo_at-with_repo key other _ s ∙ rw k (h.others other k));
        volumes = rw (e, change_entries) h.volumes;
      }

pub touch_last_used-Keeps :
    (key gen : Text) (now : ℕ) (s : Store) → Keeps key gen s (touch_last_used key now s)
unfolding touch_last_used document_at generation
touch_last_used-Keeps key gen now s = elim (Option-cases (repo_at key s)) [
  | inl e ↦ rw (e, touch_last_used) (Keeps-refl key gen s)
  | inr (repo, e) ↦
      let here = repo_at-with_repo key key (record repo { last_used = some now }) s in
      rw (e, touch_last_used)
        (record {
          document = rw (here, text_eq_refl key, e, document_at) refl;
          current = rw (here, text_eq_refl key, e, generation) refl;
          others = λ other k. repo_at-with_repo key other _ s ∙ rw k refl;
          volumes = refl;
          in_use = refl;
        })
]

pub make_repo-Keeps : (key gen : Text) (s : Store) → Keeps key gen s (make_repo key s)
unfolding make_repo document_at generation lookup
make_repo-Keeps key gen s = elim (Option-cases (repo_at key s)) [
  | inr (repo, e) ↦ rw (e, make_repo) (Keeps-refl key gen s)
  | inl e ↦
      let here = repo_at-with_repo key key empty_repo s in
      rw (e, make_repo)
        (record {
          document = rw (here, text_eq_refl key, e, document_at) refl;
          current = rw (here, text_eq_refl key, e, generation) refl;
          others = λ other k. repo_at-with_repo key other _ s ∙ rw k refl;
          volumes = refl;
          in_use = refl;
        })
]

pub make_repo-makes :
    (key : Text) (s : Store) → (repo : Repo) × (repo_at key (make_repo key s) ≡ some repo)
unfolding make_repo
make_repo-makes key s = elim (Option-cases (repo_at key s)) [
  | inr (repo, e) ↦ (repo, rw (e, make_repo) e)
  | inl e ↦ (
    empty_repo,
    rw (e, make_repo) (repo_at-with_repo key key empty_repo s ∙ rw (text_eq_refl key) refl),
  )
]
