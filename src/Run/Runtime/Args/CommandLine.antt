-- ===== src/Run/Runtime/Args/CommandLine.antt =====
-- Reading the options of a command line of docker run back (runtime.go: createArgs).
use mathlib.Core.List.{append-nil}
use teploy_sandbox.Prelude.{
  ◌≡◌, refl, ap, ◌∙◌, inl, inr, Bool, true, false, not, ◌||◌, List, [], ◌∷◌, ◌++◌, if◌then◌else◌,
  Bool-cases, Text, codes, text_eq, starts,
}

-- The options of docker run that take no value, of those that the daemon passes.
unfoldable pub is_flag : Text → Bool
is_flag a = text_eq a (codes "-d") || text_eq a (codes "--init")

-- Where a reader of a command line stands: before an option or the first operand, or before the value
-- of an option, which it keeps or not.
pub data Place : Type 0 where
  at_option : Place
  at_value : Bool → Place

-- The values that a command line gives the option `name`, up to its first operand.
unfoldable pub values : Text → Place → List Text → List Text
values name at_option [] = []
values name (at_value keep) [] = []
values name at_option (a ∷ rest) =
    let behind_flag = values name at_option rest in
    let behind_option = values name (at_value (text_eq a name)) rest in
    if not (starts (codes "-") a) then [] else if is_flag a then behind_flag else behind_option
values name (at_value keep) (v ∷ rest) =
    let others = values name at_option rest in if keep then v ∷ others else others

-- A sequence of options, each with its value if it takes one.
pub data Whole : List Text → Type 0 where
  nothing : Whole []
  a_flag :
      (a : Text) {rest : List Text}
      → starts (codes "-") a ≡ true
      → is_flag a ≡ true
      → Whole rest
      → Whole (a ∷ rest)
  an_option :
      (a v : Text) {rest : List Text}
      → starts (codes "-") a ≡ true
      → is_flag a ≡ false
      → Whole rest
      → Whole (a ∷ v ∷ rest)

pub values-append :
    (name : Text) {front : List Text} (back : List Text)
    → Whole front
    → values name at_option (front ++ back)
      ≡ values name at_option front ++ values name at_option back
unfolding values
values-append name back nothing = refl
values-append name back (a_flag a {rest = rest} dash flag w) =
    rw (dash, values) (rw (flag, values) (values-append name back w))
values-append name back (an_option a v {rest = rest} dash plain w) =
    let later = values-append name back w in
    rw (dash, values)
      (rw (plain, values)
        (elim (Bool-cases (text_eq a name)) [
          | inl same ↦ rw (same, values) (ap (◌∷◌ v) later)
          | inr other ↦ rw (other, values) later
        ]))

pub Whole-append : {front back : List Text} → Whole front → Whole back → Whole (front ++ back)
Whole-append nothing w = w
Whole-append (a_flag a dash flag rest) w = a_flag a dash flag (Whole-append rest w)
Whole-append (an_option a v dash plain rest) w = an_option a v dash plain (Whole-append rest w)

pub maybe-Whole : (b : Bool) (xs : List Text) → Whole xs → Whole (if b then xs else [])
maybe-Whole true xs w = w
maybe-Whole false xs w = nothing

pub unless-Whole : (b : Bool) (xs : List Text) → Whole xs → Whole (if b then [] else xs)
unless-Whole true xs w = nothing
unless-Whole false xs w = w

pub operand_ends :
    (name image : Text) (rest : List Text)
    → starts (codes "-") image ≡ false
    → values name at_option (image ∷ rest) ≡ []
unfolding values
operand_ends name image rest h = rw (h, values) refl

-- The values of the parts, in order, of options in six parts before an operand.
pub values-parts :
    (name image : Text) (a b c d e f rest : List Text)
    → Whole a
    → Whole b
    → Whole c
    → Whole d
    → Whole e
    → Whole f
    → starts (codes "-") image ≡ false
    → values name at_option ((a ++ (b ++ (c ++ (d ++ (e ++ f))))) ++ image ∷ rest)
      ≡ values name at_option a
        ++ (values name at_option b
            ++ (values name at_option c
                ++ (values name at_option d
                    ++ (values name at_option e ++ values name at_option f))))
values-parts name image a b c d e f rest wa wb wc wd we wf h =
    let of = values name at_option in
    let wef = Whole-append we wf in
    let wdf = Whole-append wd wef in
    let wcf = Whole-append wc wdf in
    let wbf = Whole-append wb wcf in
    values-append name (image ∷ rest) (Whole-append wa wbf)
    ∙ ap (λ x. of (a ++ (b ++ (c ++ (d ++ (e ++ f))))) ++ x) (operand_ends name image rest h)
    ∙ append-nil _
    ∙ values-append name (b ++ (c ++ (d ++ (e ++ f)))) wa
    ∙ ap (◌++◌ (of a)) (
        values-append name (c ++ (d ++ (e ++ f))) wb
        ∙ ap (◌++◌ (of b)) (
            values-append name (d ++ (e ++ f)) wc
            ∙ ap (◌++◌ (of c))
                (values-append name (e ++ f) wd ∙ ap (◌++◌ (of d)) (values-append name f we))))

-- An option that is there or not, read for another name.
pub elsewhere :
    (name o v : Text)
    → starts (codes "-") o ≡ true
    → is_flag o ≡ false
    → text_eq o name ≡ false
    → values name at_option (o ∷ v ∷ []) ≡ []
unfolding values
elsewhere name o v dash plain other =
    rw (dash, values) (rw (plain, values) (rw (other, values) refl))

pub maybe_none :
    (name : Text) (b : Bool) (xs : List Text)
    → values name at_option xs ≡ []
    → (values name at_option (if b then xs else []) ≡ [])
      × (values name at_option (if b then [] else xs) ≡ [])
unfolding values
maybe_none name true xs h = (h, refl)
maybe_none name false xs h = (refl, h)

pub both_none :
    (name : Text) (a b : List Text)
    → Whole a
    → values name at_option a ≡ []
    → values name at_option b ≡ []
    → values name at_option (a ++ b) ≡ []
both_none name a b wa ha hb =
    values-append name b wa ∙ ap (λ x. x ++ values name at_option b) ha ∙ hb
