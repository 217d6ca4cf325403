-- ===== src/Run/Cache/Lock/Names.antt =====
-- What two lockfile hashes of cache.go tell of two volumes (LockHash).
use teploy_sandbox.Prelude.{
  ◌≡◌, refl, sym, ap, ◌∙◌, ◌≢◌, ◌⊎◌, inl, inr, true, false, List, [], ◌∷◌, ◌++◌, arith, length,
  length-append, any, All, append_cancel, Text, text_eq, text_eq_refl, contains, split,
  split-append, split-append_cancel, contains-append, Result, ok, err, Error, not_found,
  bad_request, lease_held, lease_superseded, busy, internal, Result-cases,
}
use mathlib.Core.List.{append_assoc}
use teploy_sandbox.Run.Cache.Tree.{Tree, Disk}
use teploy_sandbox.Run.Cache.Store.{Digest}
use teploy_sandbox.Run.Cache.Lock.{lockfiles, file_in, read_lockfile, lock_lines}

-- Different words without spaces or line ends.
unfoldable pub AreWords : List Text → Type 0
AreWords [] = Unit
AreWords (name ∷ names) =
    (contains b'\n' name ≡ false)
    × (contains b' ' name ≡ false)
    × (any (text_eq name) names ≡ false)
    × AreWords names

pub lockfiles-AreWords : AreWords lockfiles
unfolding AreWords contains text_eq
lockfiles-AreWords = (
  refl,
  refl,
  refl,
  (
    refl,
    refl,
    refl,
    (
      refl,
      refl,
      refl,
      (
        refl,
        refl,
        refl,
        (
          refl,
          refl,
          refl,
          (
            refl,
            refl,
            refl,
            (
              refl,
              refl,
              refl,
              (
                refl,
                refl,
                refl,
                (refl, refl, refl, (refl, refl, refl, (refl, refl, refl, (refl, refl, refl, tt)))),
              ),
            ),
          ),
        ),
      ),
    ),
  ),
)

-- The digest is taken to have no collisions. Its hexadecimal digits hold no line end.
unfoldable pub IsDigest : Digest → Type 0
IsDigest d =
    ((s t : Text) → d.hex s ≡ d.hex t → s ≡ t) × ((t : Text) → contains b'\n' (d.hex t) ≡ false)

first_word : Text → Text
first_word text = elim (split text b' ') [ [] ↦ [] | word ∷ words ↦ word ]

first_word-append :
    (name rest : Text) → contains b' ' name ≡ false → first_word (name ++ (b' ' ∷ rest)) ≡ name
unfolding first_word
first_word-append name rest h = rw (first_word, split-append b' ' name rest h) refl

module _ ⦃d : Digest⦄ where
  line_of : Text → Text → Text → Text
  line_of name content lines = (name ++ (b' ' ∷ d.hex content)) ++ (b'\n' ∷ lines)

  first_word-line :
      (name content lines : Text)
      → contains b' ' name ≡ false
      → first_word (line_of name content lines) ≡ name
  unfolding line_of
  first_word-line name content lines h =
      ap first_word (append_assoc name (b' ' ∷ d.hex content) (b'\n' ∷ lines))
      ∙ first_word-append name (d.hex content ++ (b'\n' ∷ lines)) h

  line-ne-nil : (name content lines : Text) → line_of name content lines ≢ []
  unfolding line_of
  line-ne-nil name content lines e =
      let measured = length-append (name ++ (b' ' ∷ d.hex content)) (b'\n' ∷ lines) in
      let nothing : length ((name ++ (b' ' ∷ d.hex content)) ++ (b'\n' ∷ lines)) ≡ 0 =
        ap length e in
      omega (arith, measured, nothing)

  -- A file is missing and has no line, or it has one in front of the others.
  lock_lines-cases :
      (disk : Disk) (tree : Tree) (dir name : Text) (names : List Text) (lines : Text)
      → lock_lines disk tree dir (name ∷ names) ≡ ok lines
      → ((read_lockfile disk tree (file_in dir name) ≡ err not_found)
          × (lock_lines disk tree dir names ≡ ok lines))
        ⊎ ((content later : Text) × (read_lockfile disk tree (file_in dir name) ≡ ok content)
            × (lock_lines disk tree dir names ≡ ok later)
            × (lines ≡ line_of name content later))
  unfolding lock_lines line_of
  lock_lines-cases disk tree dir name names lines h =
      elim (Result-cases (read_lockfile disk tree (file_in dir name))) [
        | inl (not_found, e) ↦ inl (e, rw (e, lock_lines) at h)
        | inl (bad_request, e) ↦ absurd (refused bad_request (rw (e, lock_lines) at h))
        | inl (lease_held, e) ↦ absurd (refused lease_held (rw (e, lock_lines) at h))
        | inl (lease_superseded, e) ↦ absurd (refused lease_superseded (rw (e, lock_lines) at h))
        | inl (busy, e) ↦ absurd (refused busy (rw (e, lock_lines) at h))
        | inl (internal, e) ↦ absurd (refused internal (rw (e, lock_lines) at h))
        | inr (content, e) ↦ elim (Result-cases (lock_lines disk tree dir names)) [
          | inl (e', k) ↦ absurd (refused e' (rw (e, k, lock_lines) at h))
          | inr (later, k) ↦
              let made : ok (line_of name content later) ≡ ok lines = rw (e, k, lock_lines) at h in
              inr (content, later, e, k, cc)
        ]
      ]
    where
      refused : (e : Error) → ◌≡◌ {A = Result Text} (err e) (ok lines) → ⊥
      refused e k = cc

  -- Lines begin with the name of a file.
  first_word-lock_lines :
      (disk : Disk) (tree : Tree) (dir : Text) (names : List Text) (lines : Text)
      → AreWords names
      → lock_lines disk tree dir names ≡ ok lines
      → (lines ≡ []) ⊎ (any (text_eq (first_word lines)) names ≡ true)
  unfolding lock_lines AreWords
  first_word-lock_lines disk tree dir [] lines w h = inl (cc)
  first_word-lock_lines disk tree dir (name ∷ names) lines w h =
      elim (lock_lines-cases disk tree dir name names lines h) [
        | inl (e, k) ↦ elim (first_word-lock_lines disk tree dir names lines w.3 k) [
          | inl none_left ↦ inl none_left
          | inr known ↦ inr (ground (arith, known))
        ]
        | inr (content, later, e, k, made) ↦
            inr (rw (made, first_word-line name content later w.1, text_eq_refl name) refl)
      ]

  -- The files of a directory read the same in two volumes.
  unfoldable pub SameFiles : Disk → Tree → Text → Disk → Tree → Text → List Text → Type 0
  SameFiles disk tree dir disk' tree' dir' names =
      All
        (λ name.
          read_lockfile disk tree (file_in dir name)
          ≡ read_lockfile disk' tree' (file_in dir' name))
        names

  -- The line of a file in front of the others.
  add_line : Text → Result Text → Result Text → Result Text
  add_line name read others = elim read [
    | err not_found ↦ others
    | err e ↦ err e
    | ok content ↦ elim others [ err e ↦ err e | ok lines ↦ ok (line_of name content lines) ]
  ]

  lock_lines-add_line :
      (disk : Disk) (tree : Tree) (dir name : Text) (names : List Text)
      → lock_lines disk tree dir (name ∷ names)
        ≡ add_line name
            (read_lockfile disk tree (file_in dir name))
            (lock_lines disk tree dir names)
  unfolding lock_lines add_line line_of
  lock_lines-add_line disk tree dir name names = refl

  pub lock_lines-SameFiles :
      (disk disk' : Disk) (tree tree' : Tree) (dir dir' : Text) (names : List Text)
      → SameFiles disk tree dir disk' tree' dir' names
      → lock_lines disk tree dir names ≡ lock_lines disk' tree' dir' names
  unfolding SameFiles lock_lines
  lock_lines-SameFiles disk disk' tree tree' dir dir' [] h = refl
  lock_lines-SameFiles disk disk' tree tree' dir dir' (name ∷ names) h =
      let later = lock_lines-SameFiles disk disk' tree tree' dir dir' names h.1 in
      lock_lines-add_line disk tree dir name names
      ∙ (λ i. add_line name (h.0 i) (later i))
      ∙ sym (lock_lines-add_line disk' tree' dir' name names)

  -- A file that one volume lacks has no line in the other.
  missing-ne-line :
      (disk : Disk) (tree : Tree) (dir name content later : Text) (names : List Text) (lines : Text)
      → AreWords (name ∷ names)
      → lock_lines disk tree dir names ≡ ok lines
      → lines ≢ line_of name content later
  unfolding AreWords
  missing-ne-line disk tree dir name content later names lines w h e =
      elim (first_word-lock_lines disk tree dir names lines w.3 h) [
        | inl none_left ↦ line-ne-nil name content later (sym e ∙ none_left)
        | inr known ↦
            let first : first_word lines ≡ name =
              ap first_word e ∙ first_word-line name content later w.1 in
            let known' : any (text_eq name) names ≡ true = rw first at known in absurd (cc)
      ]

  line-injective :
      (name content content' later later' : Text)
      → IsDigest d
      → contains b'\n' name ≡ false
      → line_of name content later ≡ line_of name content' later'
      → (content ≡ content') × (later ≡ later')
  unfolding line_of IsDigest contains
  line-injective name content content' later later' g h e =
      let whole : (c : Text) → contains b'\n' (name ++ (b' ' ∷ d.hex c)) ≡ false =
        λ c. contains-append b'\n' name (b' ' ∷ d.hex c) ∙ ground (arith, h, g.1 c) in
      let (line, rest) =
        split-append_cancel b'\n' (name ++ (b' ' ∷ d.hex content)) (name ++ (b' ' ∷ d.hex content'))
          later later' (whole content) (whole content') e in
      let (same, hashes) =
        append_cancel name name (b' ' ∷ d.hex content) (b' ' ∷ d.hex content') line refl in
      (g.0 content content' (cc), rest)

  pub SameFiles-lock_lines :
      (disk disk' : Disk) (tree tree' : Tree) (dir dir' : Text) (names : List Text) (lines : Text)
      → IsDigest d
      → AreWords names
      → lock_lines disk tree dir names ≡ ok lines
      → lock_lines disk' tree' dir' names ≡ ok lines
      → SameFiles disk tree dir disk' tree' dir' names
  unfolding SameFiles AreWords
  SameFiles-lock_lines disk disk' tree tree' dir dir' [] lines g w h h' = tt
  SameFiles-lock_lines disk disk' tree tree' dir dir' (name ∷ names) lines g w h h' =
      elim (lock_lines-cases disk tree dir name names lines h) [
        | inl (e, k) ↦ elim (lock_lines-cases disk' tree' dir' name names lines h') [
          | inl (e', k') ↦ (
            e ∙ sym e',
            SameFiles-lock_lines disk disk' tree tree' dir dir' names lines g w.3 k k',
          )
          | inr (content', later', e', k', made') ↦
              absurd (missing-ne-line disk tree dir name content' later' names lines w k made')
        ]
        | inr (content, later, e, k, made) ↦
            elim (lock_lines-cases disk' tree' dir' name names lines h') [
              | inl (e', k') ↦
                  absurd (missing-ne-line disk' tree' dir' name content later names lines w k' made)
              | inr (content', later', e', k', made') ↦
                  let (line, rest) =
                    line-injective name content content' later later' g w.0 (sym made ∙ made') in
                  (
                    e ∙ ap ok line ∙ sym e',
                    SameFiles-lock_lines disk disk' tree tree' dir dir' names later g w.3 k
                        (k' ∙ ap ok (sym rest)),
                  )
            ]
      ]
