-- ===== src/Run/Cache/Commit/Clean.antt =====
-- What cleanGenerations of cache.go spares and what it removes.
use teploy_sandbox.Prelude.{
  ◌≡◌, refl, ◌∙◌, ◌⊎◌, inl, inr, true, false, ◌||◌, some, [], ◌∷◌, ◌++◌, arith, Bool-cases,
  Option-cases, Text, codes, text_eq, text_eq_iff, starts, Table,
}
use teploy_sandbox.Run.Cache.Tree.{Tree, Disk}
use teploy_sandbox.Run.Cache.Store.{Store, repo_at, gen_path, is_gen_name, busy_at, marks_on}
use teploy_sandbox.Run.Cache.Commit.{
  remove_gen, rename_gen, clean_entry, clean_entries, delete_superseded,
}
use teploy_sandbox.Run.Cache.Commit.Frame.{
  Keeps, Keeps-refl, Keeps-trans, remove_gen-Keeps, rename_gen-Keeps,
}

pub trash-ne-gen :
    (name gen : Text) → is_gen_name gen ≡ true → text_eq (codes "t-" ++ name) gen ≡ false
unfolding is_gen_name text_eq
trash-ne-gen name [] h = refl
trash-ne-gen name (g ∷ []) h = absurd (cc)
trash-ne-gen name (g ∷ dash ∷ gen) h = ground arith

shapeless-ne-gen :
    (name gen : Text) → is_gen_name name ≡ false → is_gen_name gen ≡ true → text_eq name gen ≡ false
shapeless-ne-gen name gen h k = elim (Bool-cases (text_eq name gen)) [
  | inl e ↦ let same : name ≡ gen = (text_eq_iff name gen).0 e in absurd (cc)
  | inr e ↦ e
]

-- A round of the loop leaves the generation that the pass spares, and one that is in use.
unfoldable pub IsSpared : Text → Text → Text → Store → Type 0
IsSpared key current gen s = (gen ≡ current) ⊎ (busy_at (gen_path key gen) s ≡ true)

pub busy_at-in_use :
    (dir : Text) (s s' : Store) → s'.in_use ≡ s.in_use → busy_at dir s' ≡ busy_at dir s
unfolding busy_at marks_on
busy_at-in_use dir s s' e = rw e refl

unspared-ne-spared :
    (key current gen name : Text) (s : Store)
    → (text_eq name current || busy_at (gen_path key name) s) ≡ false
    → IsSpared key current gen s
    → text_eq name gen ≡ false
unfolding IsSpared
unspared-ne-spared key current gen name s c spared = elim (Bool-cases (text_eq name gen)) [
  | inr e ↦ e
  | inl e ↦
      let same : name ≡ gen = (text_eq_iff name gen).0 e in
      let c' : (text_eq gen current || busy_at (gen_path key gen) s) ≡ false = rw same at c in
      elim spared [
        | inl is_current ↦
            let found : text_eq gen current ≡ true = (text_eq_iff gen current).1 is_current in
            absurd (ground (arith, found, c'))
        | inr in_use ↦ absurd (ground (arith, in_use, c'))
      ]
]

-- What a round does to a directory: nothing, it removes what an earlier pass has renamed, or it
-- renames a generation and removes it.
pub data Round (disk : Disk) (key current name : Text) (s r : Store) : Type 0 where
  left : r ≡ s → Round disk key current name s r
  finished :
      is_gen_name name ≡ false → r ≡ remove_gen disk key name s → Round disk key current name s r
  trashed :
      (s' : Store)
      → (text_eq name current || busy_at (gen_path key name) s) ≡ false
      → rename_gen disk key name (codes "t-" ++ name) s ≡ some s'
      → r ≡ remove_gen disk key (codes "t-" ++ name) s'
      → Round disk key current name s r

pub clean_entry-Round :
    (disk : Disk) (key current name : Text) (s : Store)
    → Round disk key current name s (clean_entry disk key current name s)
unfolding clean_entry
clean_entry-Round disk key current name s = elim (Bool-cases (is_gen_name name)) [
  | inr n ↦ elim (Bool-cases (starts (codes "t-g-") name)) [
    | inr t ↦ left (rw (n, t, clean_entry) refl)
    | inl t ↦ finished n (rw (n, t, clean_entry) refl)
  ]
  | inl n ↦ elim (Bool-cases (text_eq name current || busy_at (gen_path key name) s)) [
    | inl c ↦ left (rw (n, c, clean_entry) refl)
    | inr c ↦ elim (Option-cases (rename_gen disk key name (codes "t-" ++ name) s)) [
      | inl r ↦ left (rw (n, c, r, clean_entry) refl)
      | inr (s', r) ↦ trashed s' c r (rw (n, c, r, clean_entry) refl)
    ]
  ]
]

clean_entry-Keeps :
    (disk : Disk) (key current gen name : Text) (s : Store)
    → is_gen_name gen ≡ true
    → IsSpared key current gen s
    → Keeps key gen s (clean_entry disk key current name s)
clean_entry-Keeps disk key current gen name s shape spared =
    elim (clean_entry-Round disk key current name s) [
      | left e ↦ rw e (Keeps-refl key gen s)
      | finished n e ↦
          rw e (remove_gen-Keeps disk key gen name s (shapeless-ne-gen name gen n shape))
      | trashed s' c r e ↦
          let other = unspared-ne-spared key current gen name s c spared in
          let trash = trash-ne-gen name gen shape in
          rw e (
            Keeps-trans key gen s s' _ (rename_gen-Keeps disk key gen name _ s s' other trash r)
              (remove_gen-Keeps disk key gen (codes "t-" ++ name) s' trash))
    ]

clean_entries-Keeps :
    (disk : Disk) (key current gen : Text) (names : Table Tree) (s : Store)
    → is_gen_name gen ≡ true
    → IsSpared key current gen s
    → Keeps key gen s (clean_entries disk key current names s)
unfolding clean_entries IsSpared
clean_entries-Keeps disk key current gen [] s shape spared = Keeps-refl key gen s
clean_entries-Keeps disk key current gen (entry ∷ rest) s shape spared =
    let first = clean_entry-Keeps disk key current gen entry.0 s shape spared in
    Keeps-trans key gen s _ _ first
      (clean_entries-Keeps disk key current gen rest _ shape (keep spared first))
  where
    keep :
        IsSpared key current gen s
        → Keeps key gen s (clean_entry disk key current entry.0 s)
        → IsSpared key current gen (clean_entry disk key current entry.0 s)
    keep (inl e) k = inl e
    keep (inr e) k = inr (busy_at-in_use (gen_path key gen) s _ k.in_use ∙ e)

pub delete_superseded-Keeps :
    (disk : Disk) (key current gen : Text) (s : Store)
    → is_gen_name gen ≡ true
    → IsSpared key current gen s
    → Keeps key gen s (delete_superseded disk key current s)
unfolding delete_superseded
delete_superseded-Keeps disk key current gen s shape spared = elim (Option-cases (repo_at key s)) [
  | inl e ↦ rw (e, delete_superseded) (Keeps-refl key gen s)
  | inr (repo, e) ↦
      rw (e, delete_superseded)
        (clean_entries-Keeps disk key current gen repo.entries s shape spared)
]
