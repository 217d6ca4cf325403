-- ===== src/Prelude/Strings.antt =====
-- Go strings as their code points, with what the program uses of the packages strings and unicode.
use Prim.Native.Nat.{ℕ, ◌+◌}
use Prim.Native.Char.{code}
use Prim.Native.String.{String}
use mathlib.Core.Path.{◌≡◌, refl, sym, ap, ◌∙◌}
use mathlib.Core.Logic.{◌↔◌, inl, inr}
use mathlib.Core.Bool.{Bool, true, false, not, ◌&&◌, ◌||◌}
use mathlib.Core.List.{
  List, [], ◌∷◌, ◌++◌, reverse, reverse-cons, reverse-reverse, reverse-append, map,
}
use native.Mathlib.Omega.{arith}
use teploy_sandbox.Prelude.Tests.{==_iff, ltb, leb, ◌==◌, Bool-cases, if◌then◌else◌}
use teploy_sandbox.Prelude.Lists.{any, all, all-append, any-append}

abbrev pub Text : Type 0
Text = List ℕ

-- The code points of a literal.
abbrev pub codes : String → Text
codes String.[] = []
codes (String.◌∷◌ c s) = code c ∷ codes s

unfoldable pub text_eq : Text → Text → Bool
text_eq [] [] = true
text_eq [] (d ∷ t) = false
text_eq (c ∷ s) [] = false
text_eq (c ∷ s) (d ∷ t) = c == d && text_eq s t

pub text_eq_iff : (s t : Text) → (text_eq s t ≡ true) ↔ (s ≡ t)
unfolding text_eq
text_eq_iff [] [] = ground arith
text_eq_iff [] (d ∷ t) = ground arith
text_eq_iff (c ∷ s) [] = ground arith
text_eq_iff (c ∷ s) (d ∷ t) = ground (arith, text_eq_iff s t)

pub text_eq_refl : (s : Text) → text_eq s s ≡ true
text_eq_refl s = (text_eq_iff s s).1 refl

-- unicode.IsSpace.
abbrev pub is_space : ℕ → Bool
is_space c =
    (leb 9 c && leb c 13)
    || c == 0x20
    || c == 0x85
    || c == 0xA0
    || c == 0x1680
    || (leb 0x2000 c && leb c 0x200A)
    || c == 0x2028
    || c == 0x2029
    || c == 0x202F
    || c == 0x205F
    || c == 0x3000

unfoldable pub trim_left : Text → Text
trim_left [] = []
trim_left (c ∷ s) = if is_space c then trim_left s else c ∷ s

-- strings.TrimSpace.
unfoldable pub trim_space : Text → Text
unfolding trim_left
trim_space s = reverse (trim_left (reverse (trim_left s)))

abbrev pub is_empty : Text → Bool
is_empty [] = true
is_empty (c ∷ s) = false

-- strings.HasPrefix(s, p), with the prefix first.
unfoldable pub starts : Text → Text → Bool
starts [] s = true
starts (p ∷ ps) [] = false
starts (p ∷ ps) (c ∷ s) = p == c && starts ps s

-- strings.HasSuffix(s, p), with the suffix first.
unfoldable pub ends : Text → Text → Bool
unfolding starts
ends p s = starts (reverse p) (reverse s)

-- strings.TrimPrefix and strings.TrimSuffix, for one character.
unfoldable pub trim_prefix : ℕ → Text → Text
trim_prefix p [] = []
trim_prefix p (c ∷ s) = if c == p then s else c ∷ s

unfoldable pub trim_suffix : ℕ → Text → Text
unfolding trim_prefix
trim_suffix p s = reverse (trim_prefix p (reverse s))

-- strings.ContainsRune and strings.ContainsAny.
unfoldable pub contains : ℕ → Text → Bool
contains c = any (λ d. d == c)

unfoldable pub contains_any : Text → Text → Bool
unfolding contains
contains_any cs = any (λ d. contains d cs)

-- strings.Contains(s, t), with the part first.
unfoldable pub has_part : Text → Text → Bool
unfolding starts
has_part t [] = starts t []
has_part t (c ∷ s) = starts t (c ∷ s) || has_part t s

-- Puts a character in front of the first part.
unfoldable pub onto_first : ℕ → List Text → List Text
onto_first c [] = (c ∷ []) ∷ []
onto_first c (p ∷ ps) = (c ∷ p) ∷ ps

-- strings.Split(s, sep), for a separator of one character.
unfoldable pub split : Text → ℕ → List Text
unfolding onto_first
split [] sep = [] ∷ []
split (c ∷ s) sep = let rest = split s sep in if c == sep then [] ∷ rest else onto_first c rest

-- strings.Join(parts, sep), for a separator of one character.
unfoldable pub join : List Text → ℕ → Text
join [] sep = []
join (p ∷ []) sep = p
join (p ∷ q ∷ ps) sep = p ++ (sep ∷ join (q ∷ ps) sep)

-- `len(s)`: the bytes of a text in UTF-8.
abbrev pub rune_bytes : ℕ → ℕ
rune_bytes c = if ltb c 0x80 then 1 else if ltb c 0x800 then 2 else if ltb c 0x10000 then 3 else 4

unfoldable pub byte_length : Text → ℕ
byte_length [] = 0
byte_length (c ∷ s) = rune_bytes c + byte_length s

-- The case tables of the package unicode, beyond ASCII.
pub record CaseTable : Type 0 where
  pub lower_beyond_ascii : ℕ → ℕ

-- strings.ToLower.
module _ ⦃u : CaseTable⦄ where
  unfoldable pub lower_rune : ℕ → ℕ
  lower_rune c =
      if ltb c 0x80
      then (if leb b'A' c && leb c b'Z' then c + 32 else c)
      else u.lower_beyond_ascii c

  unfoldable pub to_lower : Text → Text
  unfolding lower_rune
  to_lower = map lower_rune

pub starts-append : (p s : Text) → starts p (p ++ s) ≡ true
unfolding starts
starts-append [] s = refl
starts-append (c ∷ p) s = ground (arith, starts-append p s)

-- A part that a split gives holds no separator, and joining the parts gives the text back.
onto_first-ne :
    (c sep : ℕ) (ps : List Text)
    → (c == sep) ≡ false
    → any (contains sep) ps ≡ false
    → any (contains sep) (onto_first c ps) ≡ false
unfolding onto_first contains
onto_first-ne c sep [] h k = ground arith
onto_first-ne c sep (p ∷ ps) h k = ground arith

pub split_without : (s : Text) (sep : ℕ) → any (contains sep) (split s sep) ≡ false
unfolding split contains
split_without [] sep = refl
split_without (c ∷ s) sep = ground (arith, onto_first-ne c sep (split s sep), split_without s sep)

split-ne-nil : (s : Text) (sep : ℕ) → (p : Text) × (ps : List Text) × (split s sep ≡ p ∷ ps)
unfolding split contains
split-ne-nil [] sep = ([], [], refl)
split-ne-nil (c ∷ s) sep = go (c == sep) (split s sep)
  where
    go :
        (b : Bool) (r : List Text)
        → (p : Text) × (ps : List Text) × ((if b then [] ∷ r else onto_first c r) ≡ p ∷ ps)
    go true r = ([], r, refl)
    go false [] = (c ∷ [], [], refl)
    go false (p ∷ ps) = (c ∷ p, ps, refl)

pub join-split : (s : Text) (sep : ℕ) → join (split s sep) sep ≡ s
unfolding join split
join-split [] sep = refl
join-split (c ∷ s) sep = go (split s sep) (split-ne-nil s sep) (join-split s sep)
  where
    go :
        (r : List Text)
        → (p : Text) × (ps : List Text) × (r ≡ p ∷ ps)
        → join r sep ≡ s
        → join (if c == sep then [] ∷ r else onto_first c r) sep ≡ c ∷ s
    go [] (p, ps, e) h = cc
    go (p ∷ []) _ h = ground arith
    go (p ∷ q ∷ ps) _ h = ground arith

onto_first-all :
    (p : ℕ → Bool) (c : ℕ) (ps : List Text)
    → all (all p) (onto_first c ps) ≡ (p c && all (all p) ps)
unfolding onto_first
onto_first-all p c [] = ground arith
onto_first-all p c (q ∷ ps) = ground arith

-- What holds of the characters of all parts holds of the text, but for the separators.
pub split-all :
    (p : ℕ → Bool) (s : Text) (sep : ℕ)
    → all (all p) (split s sep) ≡ true
    → all (λ c. p c || c == sep) s ≡ true
unfolding split
split-all p [] sep h = refl
split-all p (c ∷ s) sep h = elim (Bool-cases (c == sep)) [
  | inl e ↦ ground (arith, split-all p s sep)
  | inr e ↦ ground (arith, onto_first-all p c (split s sep), split-all p s sep)
]

-- A text without spaces is trimmed already.
abbrev Spaceless : Text → Type 0
Spaceless s = all (λ c. not (is_space c)) s ≡ true

trim_left-Spaceless : (s : Text) → Spaceless s → trim_left s ≡ s
unfolding trim_left
trim_left-Spaceless [] h = refl
trim_left-Spaceless (c ∷ s) h = rw (not_true (is_space c) (and_left _ _ h))
  where
    not_true : (b : Bool) → not b ≡ true → b ≡ false
    not_true true e = cc
    not_true false e = refl

    and_left : (a b : Bool) → (a && b) ≡ true → a ≡ true
    and_left true b e = refl
    and_left false b e = cc

pub all-reverse : (p : ℕ → Bool) (s : Text) → all p s ≡ true → all p (reverse s) ≡ true
all-reverse p [] h = refl
all-reverse p (c ∷ s) h =
    rw (reverse-cons c s, all-append p (reverse s) (c ∷ [])) (ground (arith, all-reverse p s))

pub trim_space-Spaceless : (s : Text) → all (λ c. not (is_space c)) s ≡ true → trim_space s ≡ s
unfolding trim_space
trim_space-Spaceless s h =
    rw
      (
        trim_left-Spaceless s h,
        trim_left-Spaceless (reverse s) (all-reverse (λ c. not (is_space c)) s h),
      )
      (reverse-reverse s)

-- A line end behind a text without spaces is trimmed.
pub trim_space-line_end :
    (s : Text) → all (λ c. not (is_space c)) s ≡ true → trim_space (s ++ codes "\n") ≡ s
unfolding trim_space trim_left
trim_space-line_end [] h = refl
trim_space-line_end (c ∷ s) h =
    let word : is_space c ≡ false = ground (arith, h) in
    let left : trim_left (c ∷ (s ++ codes "\n")) ≡ c ∷ (s ++ codes "\n") = rw word refl in
    let rest =
      trim_left-Spaceless (reverse (c ∷ s)) (all-reverse (λ d. not (is_space d)) (c ∷ s) h) in
    ap (λ t. reverse (trim_left (reverse t))) left
    ∙ ap (λ t. reverse (trim_left t)) (reverse-append (c ∷ s) (codes "\n"))
    ∙ ap reverse rest
    ∙ reverse-reverse (c ∷ s)

pub starts_iff : (p s : Text) → (starts p s ≡ true) ↔ ((r : Text) × (s ≡ p ++ r))
unfolding starts
starts_iff [] s = (λ h. (s, refl), λ h. refl)
starts_iff (c ∷ p) [] = (λ h. cc, λ (r, e). cc)
starts_iff (c ∷ p) (d ∷ s) = (
  λ h.
      let both : (c ≡ d) × (starts p s ≡ true) = ground arith in
      let (r, e) = (starts_iff p s).0 both.1 in (r, cc),
  λ (r, e). let rest = (starts_iff p s).1 (r, cc) in ground arith,
)

pub ends_iff : (p s : Text) → (ends p s ≡ true) ↔ ((x : Text) × (s ≡ x ++ p))
unfolding ends
ends_iff p s = (
  λ h.
      let (r, e) = (starts_iff (reverse p) (reverse s)).0 h in
      (
        reverse r,
        sym (reverse-reverse s)
            ∙ ap reverse e
            ∙ reverse-append (reverse p) r
            ∙ ap (◌++◌ (reverse r)) (reverse-reverse p),
      ),
  λ (x, e). (starts_iff (reverse p) (reverse s)).1 (reverse x, ap reverse e ∙ reverse-append x p),
)

-- A split at the first separator.
pub split-append :
    (sep : ℕ) (line rest : Text)
    → contains sep line ≡ false
    → split (line ++ (sep ∷ rest)) sep ≡ line ∷ split rest sep
unfolding split contains onto_first
split-append sep [] rest h = rw ((==_iff sep sep).1 refl) refl
split-append sep (c ∷ line) rest h =
    let other : (c == sep) ≡ false = ground arith in
    let later : contains sep line ≡ false = ground arith in
    rw (other, split) (rw (split-append sep line rest later) refl)

pub split_line :
    (line rest : Text)
    → contains b'\n' line ≡ false
    → split (line ++ (b'\n' ∷ rest)) b'\n' ≡ line ∷ split rest b'\n'
split_line line rest h = split-append b'\n' line rest h

-- A text with a separator in it is cut at the first in one way.
pub split-append_cancel :
    (sep : ℕ) (line line' rest rest' : Text)
    → contains sep line ≡ false
    → contains sep line' ≡ false
    → line ++ (sep ∷ rest) ≡ line' ++ (sep ∷ rest')
    → (line ≡ line') × (rest ≡ rest')
split-append_cancel sep line line' rest rest' h h' e =
    let parts : line ∷ split rest sep ≡ line' ∷ split rest' sep =
      sym (split-append sep line rest h)
      ∙ ap (λ t. split t sep) e
      ∙ split-append sep line' rest' h' in
    let later : split rest sep ≡ split rest' sep = cc in
    (cc, sym (join-split rest sep) ∙ ap (λ ps. join ps sep) later ∙ join-split rest' sep)

pub contains-append : (d : ℕ) (s t : Text) → contains d (s ++ t) ≡ (contains d s || contains d t)
unfolding contains
contains-append d s t = any-append (λ c. c == d) s t
