-- ===== src/Run/Cache/Shelf/Templates.antt =====
-- When the templates of cache.go read the same in two stores.
use teploy_sandbox.Prelude.{
  ◌≡◌, refl, sym, ap, ◌∙◌, inl, inr, Option, [], arith, Bool-cases, Text, text_eq, text_eq_iff,
  text_eq_refl,
}
use teploy_sandbox.Run.Types.{WarmManifest}
use teploy_sandbox.Run.Cache.Tree.{Tree}
use teploy_sandbox.Run.Cache.Store.{
  Store, Digest, slug_key, document_at, generation, manifest, repo_at,
}
use teploy_sandbox.Run.Cache.Lock.Names.{IsDigest}
use teploy_sandbox.Run.Cache.Shelf.{Shelved, empty, stocked}
use teploy_sandbox.Run.Cache.Commit.Written.{manifest-document, read_document}
use teploy_sandbox.Run.Cache.Commit.Frame.{Keeps, generation-repos, document_at-repos}

-- A slug's directory reads the same.
pub record SameReads (key : Text) (s s' : Store) : Type 0 where
  pub document : document_at key s' ≡ document_at key s
  pub current : (gen : Text) → generation key gen s' ≡ generation key gen s

pub SameReads-repo_at :
    (key : Text) (s s' : Store) → repo_at key s' ≡ repo_at key s → SameReads key s s'
unfolding document_at generation
SameReads-repo_at key s s' e = record {
  document = rw (e, document_at) refl;
  current = λ gen. rw (e, generation) refl;
}

pub SameReads-repos : (key : Text) (s s' : Store) → s'.repos ≡ s.repos → SameReads key s s'
SameReads-repos key s s' e = record {
  document = document_at-repos key s s' e;
  current = λ gen. generation-repos key gen s s' e;
}

pub SameReads-trans :
    (key : Text) (s s' s'' : Store)
    → SameReads key s s'
    → SameReads key s' s''
    → SameReads key s s''
SameReads-trans key s s' s'' a b = record {
  document = b.document ∙ a.document;
  current = λ gen. b.current gen ∙ a.current gen;
}

pub SameReads-Keeps :
    (key asked : Text) (s s' : Store) → ((gen : Text) → Keeps key gen s s') → SameReads asked s s'
SameReads-Keeps key asked s s' k = elim (Bool-cases (text_eq key asked)) [
  | inr e ↦ SameReads-repo_at asked s s' ((k []).others asked e)
  | inl e ↦
      let same : key ≡ asked = (text_eq_iff key asked).0 e in
      rw (← same) (record { document = (k []).document; current = λ gen. (k gen).current })
]

module _ ⦃d : Digest⦄ where
  pub manifest-SameReads :
      (slug : Text) (s s' : Store)
      → SameReads (slug_key slug) s s'
      → manifest slug s' ≡ manifest slug s
  manifest-SameReads slug s s' r =
      manifest-document slug s' ∙ ap read_document r.document ∙ sym (manifest-document slug s)

  pub Shelved-SameReads :
      (slug : Text) (s s' : Store) (template : Option (WarmManifest × Tree))
      → SameReads (slug_key slug) s s'
      → Shelved slug s template
      → Shelved slug s' template
  Shelved-SameReads slug s s' template r (empty e m) = empty e (manifest-SameReads slug s s' r ∙ m)
  Shelved-SameReads slug s s' template r (stocked mf tree e m g distinct) =
      stocked mf tree e (manifest-SameReads slug s s' r ∙ m) (r.current mf.gen ∙ g) distinct

  -- Without collisions two slugs have two directories.
  pub slug_key-text_eq :
      (slug asked : Text)
      → IsDigest d
      → text_eq (slug_key slug) (slug_key asked) ≡ text_eq slug asked
  unfolding slug_key IsDigest
  slug_key-text_eq slug asked g = elim (Bool-cases (text_eq slug asked)) [
    | inl e ↦
        let same : slug ≡ asked = (text_eq_iff slug asked).0 e in
        rw (same, text_eq_refl asked) (text_eq_refl (d.hex asked))
    | inr e ↦ elim (Bool-cases (text_eq (d.hex slug) (d.hex asked))) [
      | inr n ↦ n ∙ sym e
      | inl n ↦
          let same : slug ≡ asked = g.0 slug asked ((text_eq_iff (d.hex slug) (d.hex asked)).0 n) in
          absurd (ground (arith, (text_eq_iff slug asked).1 same, e))
    ]
  ]
