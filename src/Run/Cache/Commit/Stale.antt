-- ===== src/Run/Cache/Commit/Stale.antt =====
-- The generations that a pass of cleanGenerations of cache.go removes.
use teploy_sandbox.Prelude.{
  ◌≡◌, refl, ◌∙◌, ◌≢◌, inl, inr, true, false, ◌||◌, Option, none, some, [], ◌∷◌, ◌++◌, arith,
  Bool-cases, Option-cases, Text, codes, text_eq, text_eq_iff, text_eq_refl, Table, lookup, insert,
  erase, lookup-insert, lookup-erase,
}
use teploy_sandbox.Run.Cache.Tree.{Tree, Disk}
use teploy_sandbox.Run.Cache.Tree.Copy.{Quiet}
use teploy_sandbox.Run.Cache.Store.{
  Repo, Store, repo_at, with_repo, generation, gen_path, is_gen_name, busy_at,
}
use teploy_sandbox.Run.Cache.Commit.{
  change_entries, remove_gen, rename_gen, clean_entry, clean_entries, delete_superseded,
}
use teploy_sandbox.Run.Cache.Commit.Frame.{rename_gen-some, generation-change_entries}
use teploy_sandbox.Run.Cache.Commit.Clean.{
  trash-ne-gen, busy_at-in_use, left, finished, trashed, clean_entry-Round,
}

-- A change of the entries that makes no directory `gen` makes none.
change_entries-absent :
    (f : Table Tree → Table Tree) (key gen : Text) (s : Store)
    → ((entries : Table Tree) → lookup gen entries ≡ none → lookup gen (f entries) ≡ none)
    → generation key gen s ≡ none
    → generation key gen (change_entries f key s) ≡ none
unfolding generation
change_entries-absent f key gen s h k = generation-change_entries f key gen s ∙ go
  where
    go :
        (elim (repo_at key s) as (λ o. Option Tree) [
          | none ↦ none
          | some repo ↦ lookup gen (f repo.entries)
        ])
        ≡ none
    go = elim (Option-cases (repo_at key s)) [
      | inl e ↦ rw e refl
      | inr (repo, e) ↦
          let k' : lookup gen repo.entries ≡ none = rw (e, generation) at k in
          rw e (h repo.entries k')
    ]

-- A change whose entries have no directory `gen` removes it.
change_entries-removes :
    (f : Table Tree → Table Tree) (key gen : Text) (s : Store)
    → ((entries : Table Tree) → lookup gen (f entries) ≡ none)
    → generation key gen (change_entries f key s) ≡ none
change_entries-removes f key gen s h = generation-change_entries f key gen s ∙ go (repo_at key s)
  where
    go :
        (o : Option Repo)
        → (elim o as (λ x. Option Tree) [ none ↦ none | some repo ↦ lookup gen (f repo.entries) ])
          ≡ none
    go none = refl
    go (some repo) = h repo.entries

remove_gen-absent :
    (disk : Disk) (key gen name : Text) (s : Store)
    → generation key gen s ≡ none
    → generation key gen (remove_gen disk key name s) ≡ none
unfolding remove_gen
remove_gen-absent disk key gen name s h = elim (Bool-cases (disk.removes (gen_path key name))) [
  | inl r ↦
      rw (r, remove_gen)
        (change_entries-absent (erase name) key gen s
          (λ entries k. lookup-erase name gen entries ∙ ground (arith, k)) h)
  | inr r ↦ rw (r, remove_gen) h
]

rename_gen-absent :
    (disk : Disk) (key gen name trash : Text) (s s' : Store)
    → text_eq trash gen ≡ false
    → rename_gen disk key name trash s ≡ some s'
    → generation key gen s ≡ none
    → generation key gen s' ≡ none
rename_gen-absent disk key gen name trash s s' k e h =
    let (tree, moved) = rename_gen-some disk key name trash s s' e in
    rw moved (
      change_entries-absent (λ entries. insert trash tree (erase name entries)) key gen s
        (λ entries a.
          lookup-insert trash gen tree (erase name entries)
          ∙ rw k (lookup-erase name gen entries ∙ ground (arith, a)))
        h)

clean_entry-absent :
    (disk : Disk) (key current gen name : Text) (s : Store)
    → text_eq (codes "t-" ++ name) gen ≡ false
    → generation key gen s ≡ none
    → generation key gen (clean_entry disk key current name s) ≡ none
clean_entry-absent disk key current gen name s k h =
    elim (clean_entry-Round disk key current name s) [
      | left e ↦ rw e h
      | finished n e ↦ rw e (remove_gen-absent disk key gen name s h)
      | trashed s' c r e ↦ rw e (
          remove_gen-absent disk key gen (codes "t-" ++ name) s'
            (rename_gen-absent disk key gen name _ s s' k r h))
    ]

clean_entries-absent :
    (disk : Disk) (key current gen : Text) (names : Table Tree) (s : Store)
    → is_gen_name gen ≡ true
    → generation key gen s ≡ none
    → generation key gen (clean_entries disk key current names s) ≡ none
unfolding clean_entries
clean_entries-absent disk key current gen [] s shape h = h
clean_entries-absent disk key current gen (entry ∷ rest) s shape h =
    clean_entries-absent disk key current gen rest _ shape
      (clean_entry-absent disk key current gen entry.0 s (trash-ne-gen entry.0 gen shape) h)

pub change_entries-in_use :
    (f : Table Tree → Table Tree) (key : Text) (s : Store)
    → (change_entries f key s).in_use ≡ s.in_use
unfolding change_entries with_repo
change_entries-in_use f key s = elim (Option-cases (repo_at key s)) [
  | inl e ↦ rw (e, change_entries) refl
  | inr (repo, e) ↦ rw (e, change_entries) refl
]

remove_gen-in_use :
    (disk : Disk) (key name : Text) (s : Store) → (remove_gen disk key name s).in_use ≡ s.in_use
unfolding remove_gen
remove_gen-in_use disk key name s = elim (Bool-cases (disk.removes (gen_path key name))) [
  | inl r ↦ rw (r, remove_gen) (change_entries-in_use (erase name) key s)
  | inr r ↦ rw (r, remove_gen) refl
]

clean_entry-in_use :
    (disk : Disk) (key current name : Text) (s : Store)
    → (clean_entry disk key current name s).in_use ≡ s.in_use
clean_entry-in_use disk key current name s = elim (clean_entry-Round disk key current name s) [
  | left e ↦ rw e refl
  | finished n e ↦ rw e (remove_gen-in_use disk key name s)
  | trashed s' c r e ↦
      let (tree, moved) = rename_gen-some disk key name (codes "t-" ++ name) s s' r in
      rw e (
        remove_gen-in_use disk key (codes "t-" ++ name) s'
        ∙ rw moved (change_entries-in_use _ key s))
]

unfoldable pub IsStale : Text → Text → Text → Store → Type 0
IsStale key current gen s =
    ((text_eq gen current || busy_at (gen_path key gen) s) ≡ false)
    × (generation key (codes "t-" ++ gen) s ≡ none)

clean_entry-removes :
    (disk : Disk) (key current gen : Text) (s : Store)
    → Quiet disk
    → is_gen_name gen ≡ true
    → IsStale key current gen s
    → generation key gen (clean_entry disk key current gen s) ≡ none
unfolding clean_entry Quiet rename_gen IsStale
clean_entry-removes disk key current gen s q n stale = elim (Option-cases (generation key gen s)) [
  | inl g ↦ clean_entry-absent disk key current gen gen s (trash-ne-gen gen gen n) g
  | inr (tree, g) ↦
      let trash = codes "t-" ++ gen in
      let f : Table Tree → Table Tree = λ entries. insert trash tree (erase gen entries) in
      let gone : generation key gen (change_entries f key s) ≡ none =
        change_entries-removes f key gen s (λ entries.
          lookup-insert trash gen tree (erase gen entries)
          ∙ rw (trash-ne-gen gen gen n)
              (lookup-erase gen gen entries ∙ rw (text_eq_refl gen) refl)) in
      rw (n, stale.0, g, stale.1, q.2 (gen_path key trash), clean_entry, rename_gen)
        (remove_gen-absent disk key gen trash _ gone)
]

clean_entry-removes_named :
    (disk : Disk) (key current gen name : Text) (s : Store)
    → Quiet disk
    → is_gen_name gen ≡ true
    → IsStale key current gen s
    → name ≡ gen
    → generation key gen (clean_entry disk key current name s) ≡ none
clean_entry-removes_named disk key current gen name s q n stale e =
    rw e (clean_entry-removes disk key current gen s q n stale)

clean_entries-removes :
    (disk : Disk) (key current gen : Text) (names : Table Tree) (s : Store)
    → Quiet disk
    → is_gen_name gen ≡ true
    → IsStale key current gen s
    → lookup gen names ≢ none
    → generation key gen (clean_entries disk key current names s) ≡ none
unfolding clean_entries lookup IsStale text_eq
clean_entries-removes disk key current gen [] s q n stale listed = absurd (listed refl)
clean_entries-removes disk key current gen (entry ∷ rest) s q n stale listed =
    elim (Bool-cases (text_eq entry.0 gen)) [
      | inl e ↦ clean_entries-absent disk key current gen rest _ n (
          clean_entry-removes_named disk key current gen entry.0 s q n stale
            ((text_eq_iff entry.0 gen).0 e))
      | inr e ↦
          let listed' : lookup gen rest ≢ none = rw e at listed in
          let next = clean_entry disk key current entry.0 s in
          let quiet =
            busy_at-in_use (gen_path key gen) s next
              (clean_entry-in_use disk key current entry.0 s) in
          clean_entries-removes disk key current gen rest next q n
            (
              rw quiet stale.0,
              clean_entry-absent disk key current (codes "t-" ++ gen) entry.0 s e stale.1,
            )
            listed'
    ]

-- A pass removes every generation that it does not take for the current one and that is not in use.
pub delete_superseded-removes :
    (disk : Disk) (key current gen : Text) (s : Store)
    → Quiet disk
    → is_gen_name gen ≡ true
    → IsStale key current gen s
    → generation key gen (delete_superseded disk key current s) ≡ none
unfolding delete_superseded generation
delete_superseded-removes disk key current gen s q n stale = elim (Option-cases (repo_at key s)) [
  | inl e ↦ rw (e, delete_superseded) (rw (e, generation) refl)
  | inr (repo, e) ↦ elim (Option-cases (lookup gen repo.entries)) [
    | inl g ↦
        let absent : generation key gen s ≡ none = rw (e, generation) g in
        rw (e, delete_superseded)
          (clean_entries-absent disk key current gen repo.entries s n absent)
    | inr (tree, g) ↦
        rw (e, delete_superseded)
          (clean_entries-removes disk key current gen repo.entries s q n stale (λ h. cc))
  ]
]
