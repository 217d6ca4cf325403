-- ===== src/Run/Cache/Commit/Written.antt =====
-- What a manifest that writeManifest of cache.go has put in place_node makes of the reads.
use teploy_sandbox.Prelude.{
  ℕ, ◌≡◌, refl, ap, ◌∙◌, inl, inr, true, false, not, ◌||◌, Option, none, some, arith, if◌then◌else◌,
  Bool-cases, Option-cases, Text, codes, text_eq, text_eq_refl, is_empty, Result, ok, err,
  not_found, bad_request, internal,
}
use teploy_sandbox.Run.Types.{WarmManifest}
use teploy_sandbox.Run.Cache.Tree.{Disk}
use teploy_sandbox.Run.Cache.Store.{
  Repo, Document, unreadable, garbled, holds, Store, Digest, slug_key, repo_at, with_repo,
  document_at, generation, gen_path, is_gen_name, manifest, manifest_from_dir,
}
use teploy_sandbox.Run.Cache.Commit.{write_manifest, current_gen}
use teploy_sandbox.Run.Cache.Commit.Frame.{repo_at-with_repo}

-- A manifest that Manifest accepts.
unfoldable pub IsWellFormed : WarmManifest → Type 0
IsWellFormed mf = (is_empty mf.repo ≡ false) × (is_gen_name mf.gen ≡ true)

-- Manifest reads the document and nothing else of the store.
unfoldable pub read_document : Option Document → Result WarmManifest
read_document none = err not_found
read_document (some unreadable) = err internal
read_document (some garbled) = err bad_request
read_document (some (holds mf)) =
    if is_empty mf.repo || not (is_gen_name mf.gen) then err bad_request else ok mf

pub manifest-document :
    ⦃d : Digest⦄ (slug : Text) (s : Store)
    → manifest slug s ≡ read_document (document_at (slug_key slug) s)
unfolding manifest read_document
manifest-document slug s = elim (Option-cases (document_at (slug_key slug) s)) [
  | inl e ↦ rw (e, manifest) refl
  | inr (doc, e) ↦ rw (e, manifest) (each doc)
]
  where
    each :
        (doc : Document)
        → (elim doc as (λ x. Result WarmManifest) [
          | unreadable ↦ err internal
          | garbled ↦ err bad_request
          | holds mf ↦
              if is_empty mf.repo || not (is_gen_name mf.gen) then err bad_request else ok mf
        ])
          ≡ read_document (some doc)
    each unreadable = refl
    each garbled = refl
    each (holds mf) = refl

-- What writeManifest leaves, where it succeeds.
pub record Written (key : Text) (mf : WarmManifest) (s s' : Store) : Type 0 where
  pub document : document_at key s' ≡ some (holds mf)
  pub entries : (gen : Text) → generation key gen s' ≡ generation key gen s
  pub others : (other : Text) → text_eq key other ≡ false → repo_at other s' ≡ repo_at other s
  pub volumes : s'.volumes ≡ s.volumes
  pub in_use : s'.in_use ≡ s.in_use

pub write_manifest-Written :
    (disk : Disk) (size : WarmManifest → ℕ) (key : Text) (mf : WarmManifest) (s s' : Store)
    → write_manifest disk size key mf s ≡ some s'
    → Written key mf s s'
unfolding write_manifest document_at generation
write_manifest-Written disk size key mf s s' h = elim (Option-cases (repo_at key s)) [
  | inl e ↦
      let refused : ◌≡◌ {A = Option Store} none (some s') = rw (e, write_manifest) at h in
      absurd (cc)
  | inr (repo, e) ↦ elim (Bool-cases (disk.writes (gen_path key (codes "manifest.json")))) [
    | inr w ↦
        let refused : ◌≡◌ {A = Option Store} none (some s') = rw (e, w, write_manifest) at h in
        absurd (cc)
    | inl w ↦
        let repo' : Repo = record repo { manifest = some (holds mf); loose_bytes = size mf } in
        let done : some (with_repo key repo' s) ≡ some s' = rw (e, w, write_manifest) at h in
        let made : with_repo key repo' s ≡ s' = cc in
        let here = repo_at-with_repo key key repo' s in
        rw (← made) (record {
          document = rw (here, text_eq_refl key, document_at) refl;
          entries = λ gen. rw (here, text_eq_refl key, e, generation) refl;
          others = λ other k. repo_at-with_repo key other repo' s ∙ rw k refl;
          volumes = refl;
          in_use = refl;
        })
  ]
]

pub manifest-Written :
    ⦃d : Digest⦄ (slug : Text) (mf : WarmManifest) (s : Store)
    → IsWellFormed mf
    → document_at (slug_key slug) s ≡ some (holds mf)
    → manifest slug s ≡ ok mf
unfolding IsWellFormed read_document
manifest-Written slug mf s w h = manifest-document slug s ∙ ap read_document h ∙ rw (w.0, w.1) refl

pub read_document-ok :
    (doc : Option Document) (mf : WarmManifest)
    → read_document doc ≡ ok mf
    → (doc ≡ some (holds mf)) × IsWellFormed mf
unfolding read_document IsWellFormed
read_document-ok none mf h = absurd (cc)
read_document-ok (some unreadable) mf h = absurd (cc)
read_document-ok (some garbled) mf h = absurd (cc)
read_document-ok (some (holds found)) mf h =
    elim (Bool-cases (is_empty found.repo || not (is_gen_name found.gen))) [
      | inl bad ↦
          let refused : ◌≡◌ {A = Result WarmManifest} (err bad_request) (ok mf) = rw bad at h in
          absurd (cc)
      | inr good ↦
          let accepted : ok found ≡ ok mf = rw good at h in
          let same : found ≡ mf = cc in
          let good' : (is_empty mf.repo || not (is_gen_name mf.gen)) ≡ false = rw same at good in
          (ap (λ m. some (holds m)) same, ground arith)
    ]

pub current_gen-holds :
    (key : Text) (mf : WarmManifest) (s : Store)
    → document_at key s ≡ some (holds mf)
    → current_gen key s ≡ mf.gen
unfolding current_gen manifest_from_dir
current_gen-holds key mf s h = rw (h, current_gen, manifest_from_dir) refl
