-- ===== src/Run/Cache/Commit/Frame.antt =====
-- What the changes to the directories beside a manifest leave alone (cache.go: cleanGenerations and
-- the calls it makes).
use teploy_sandbox.Prelude.{
  ◌≡◌, refl, ◌∙◌, inl, inr, false, not, ◌||◌, Option, none, some, if◌then◌else◌, Bool-cases,
  Option-cases, Text, text_eq, text_eq_refl, Table, lookup, insert, erase, lookup-insert,
  lookup-erase,
}
use teploy_sandbox.Run.Cache.Tree.{Tree, Disk}
use teploy_sandbox.Run.Cache.Store.{
  Repo, Store, repo_at, with_repo, document_at, generation, gen_path,
}
use teploy_sandbox.Run.Cache.Commit.{change_entries, remove_gen, rename_gen, is_occupied}

-- From `s` to `s'` nothing has changed but directories of the slug with the key `key`, and not
-- `gen` of them.
pub record Keeps (key gen : Text) (s s' : Store) : Type 0 where
  pub document : document_at key s' ≡ document_at key s
  pub current : generation key gen s' ≡ generation key gen s
  pub others : (other : Text) → text_eq key other ≡ false → repo_at other s' ≡ repo_at other s
  pub volumes : s'.volumes ≡ s.volumes
  pub in_use : s'.in_use ≡ s.in_use

pub Keeps-refl : (key gen : Text) (s : Store) → Keeps key gen s s
Keeps-refl key gen s = record {
  document = refl;
  current = refl;
  others = λ other h. refl;
  volumes = refl;
  in_use = refl;
}

pub Keeps-trans :
    (key gen : Text) (s s' s'' : Store)
    → Keeps key gen s s'
    → Keeps key gen s' s''
    → Keeps key gen s s''
Keeps-trans key gen s s' s'' a b = record {
  document = b.document ∙ a.document;
  current = b.current ∙ a.current;
  others = λ other h. b.others other h ∙ a.others other h;
  volumes = b.volumes ∙ a.volumes;
  in_use = b.in_use ∙ a.in_use;
}

-- Reading behind a change of a slug's directory.
pub repo_at-with_repo :
    (key asked : Text) (repo : Repo) (s : Store)
    → repo_at asked (with_repo key repo s)
      ≡ (if text_eq key asked then some repo else repo_at asked s)
unfolding repo_at with_repo
repo_at-with_repo key asked repo s = lookup-insert key asked repo s.repos

pub generation-change_entries :
    (f : Table Tree → Table Tree) (key gen : Text) (s : Store)
    → generation key gen (change_entries f key s)
      ≡ (elim (repo_at key s) [ none ↦ none | some repo ↦ lookup gen (f repo.entries) ])
unfolding generation change_entries
generation-change_entries f key gen s = elim (Option-cases (repo_at key s)) [
  | inl e ↦ rw (e, change_entries) (rw (e, generation) refl)
  | inr (repo, e) ↦
      rw (e, change_entries)
        (rw
          (
            repo_at-with_repo key key (record repo { entries = f repo.entries }) s,
            text_eq_refl key,
            generation,
          )
          refl)
]

pub change_entries-Keeps :
    (f : Table Tree → Table Tree) (key gen : Text) (s : Store)
    → ((entries : Table Tree) → lookup gen (f entries) ≡ lookup gen entries)
    → Keeps key gen s (change_entries f key s)
unfolding change_entries generation document_at
change_entries-Keeps f key gen s h = elim (Option-cases (repo_at key s)) [
  | inl e ↦ rw (e, change_entries) (Keeps-refl key gen s)
  | inr (repo, e) ↦
      let here = repo_at-with_repo key key (record repo { entries = f repo.entries }) s in
      rw (e, change_entries)
        (record {
          document = rw (here, text_eq_refl key, e, document_at) refl;
          current = rw (here, text_eq_refl key, e, generation) (h repo.entries);
          others = λ other k. repo_at-with_repo key other _ s ∙ rw k refl;
          volumes = refl;
          in_use = refl;
        })
]

pub remove_gen-Keeps :
    (disk : Disk) (key gen name : Text) (s : Store)
    → text_eq name gen ≡ false
    → Keeps key gen s (remove_gen disk key name s)
unfolding remove_gen
remove_gen-Keeps disk key gen name s h = elim (Bool-cases (disk.removes (gen_path key name))) [
  | inl r ↦
      rw (r, remove_gen)
        (change_entries-Keeps (erase name) key gen s
          λ entries. lookup-erase name gen entries ∙ rw h refl)
  | inr r ↦ rw (r, remove_gen) (Keeps-refl key gen s)
]

pub rename_gen-some :
    (disk : Disk) (key name trash : Text) (s s' : Store)
    → rename_gen disk key name trash s ≡ some s'
    → (tree : Tree) × (s'
        ≡ change_entries (λ entries. insert trash tree (erase name entries)) key s)
unfolding rename_gen
rename_gen-some disk key name trash s s' e = elim (Option-cases (generation key name s)) [
  | inl g ↦
      let refused : ◌≡◌ {A = Option Store} none (some s') = rw (g, rename_gen) at e in absurd (cc)
  | inr (tree, g) ↦
      elim (Bool-cases
        (not (disk.writes (gen_path key trash)) || is_occupied (generation key trash s))) [
          | inl o ↦
              let refused : ◌≡◌ {A = Option Store} none (some s') = rw (g, o, rename_gen) at e in
              absurd (cc)
          | inr o ↦
              let moved : some
                    (change_entries (λ entries. insert trash tree (erase name entries)) key s)
                  ≡ some s' =
                rw (g, o, rename_gen) at e in
              (tree, cc)
        ]
]

pub rename_gen-Keeps :
    (disk : Disk) (key gen name trash : Text) (s s' : Store)
    → text_eq name gen ≡ false
    → text_eq trash gen ≡ false
    → rename_gen disk key name trash s ≡ some s'
    → Keeps key gen s s'
rename_gen-Keeps disk key gen name trash s s' h k e =
    let (tree, moved) = rename_gen-some disk key name trash s s' e in
    rw moved (
      change_entries-Keeps (λ entries. insert trash tree (erase name entries)) key gen s
        λ entries.
          lookup-insert trash gen tree (erase name entries)
          ∙ rw k (lookup-erase name gen entries ∙ rw h refl))

pub generation-repos :
    (key gen : Text) (s s' : Store)
    → s'.repos ≡ s.repos
    → generation key gen s' ≡ generation key gen s
unfolding generation repo_at
generation-repos key gen s s' e = rw e refl

pub document_at-repos :
    (key : Text) (s s' : Store) → s'.repos ≡ s.repos → document_at key s' ≡ document_at key s
unfolding document_at repo_at
document_at-repos key s s' e = rw e refl

pub repo_at-generation :
    (key gen : Text) (tree : Tree) (s : Store)
    → generation key gen s ≡ some tree
    → (repo : Repo) × (repo_at key s ≡ some repo)
unfolding generation
repo_at-generation key gen tree s h = elim (Option-cases (repo_at key s)) [
  | inr found ↦ found
  | inl e ↦
      let missing : ◌≡◌ {A = Option Tree} none (some tree) = rw (e, generation) at h in absurd (cc)
]
