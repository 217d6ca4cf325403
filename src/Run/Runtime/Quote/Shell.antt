-- ===== src/Run/Runtime/Quote/Shell.antt =====
-- How a POSIX shell reads a word back that shellQuote has written (runtime.go: shellQuote).
use teploy_sandbox.Prelude.{
  ℕ, ◌≡◌, refl, sym, ap, inl, inr, Bool, Option, none, some, [], ◌∷◌, ◌++◌, ◌==◌, if◌then◌else◌,
  ==_iff, Bool-cases, Text, codes, contains,
}
use teploy_sandbox.Run.Runtime.Quote.{escape_quotes, shell_quote}

-- Where a shell stands in a word: outside quotes, between single quotes, behind a backslash.
pub data Mode : Type 0 where
  plain quoted escaped : Mode

-- The characters that end a word, or stand for more than themselves, outside quotes.
pub is_special : ℕ → Bool
is_special c = contains c (codes " \t\n|&;<>()$`\"*?[#~=%{}!")

abbrev pub then_char : ℕ → Option Text → Option Text
then_char c none = none
then_char c (some word) = some (c ∷ word)

-- The word that a text reads as, if it is one word and needs no expansion.
pub read_word : Mode → Text → Option Text
read_word plain [] = some []
read_word quoted [] = none
read_word escaped [] = none
read_word plain (c ∷ s) =
    let after_quote = read_word quoted s in
    let after_backslash = read_word escaped s in
    let rest = read_word plain s in
    if c == b'\''
    then after_quote
    else if c == b'\\'
    then after_backslash
    else if is_special c
    then none
    else then_char c rest
read_word quoted (c ∷ s) =
    let after = read_word plain s in
    let rest = read_word quoted s in if c == b'\'' then after else then_char c rest
read_word escaped (c ∷ s) = then_char c (read_word plain s)

escaped-quoted : (s : Text) → read_word quoted (escape_quotes s ++ codes "'") ≡ some s
unfolding read_word escape_quotes
escaped-quoted [] = refl
escaped-quoted (c ∷ s) = elim (Bool-cases (c == b'\'')) [
  | inl quote ↦
      let same : c ≡ b'\'' = (==_iff c b'\'').0 quote in
      rw (quote, escape_quotes) (rw (escaped-quoted s) (ap (λ k. some (k ∷ s)) (sym same)))
  | inr other ↦ rw (other, escape_quotes) (rw (other, read_word) (rw (escaped-quoted s) refl))
]

-- A shell reads what shellQuote returns as one word, without any expansion, and the word is the text
-- that was quoted.
pub read_word-shell_quote : (s : Text) → read_word plain (shell_quote s) ≡ some s
unfolding read_word shell_quote
read_word-shell_quote s = escaped-quoted s
