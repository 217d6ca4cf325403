-- ===== src/Run/Runtime/Quote.antt =====
-- shellQuote, and the scripts of WriteFile and ReadFile that it quotes paths for (runtime.go).
pub mod Shell
pub mod Bound
use teploy_sandbox.Prelude.{
  ℕ, ◌+◌, Bool, true, false, ◌&&◌, List, [], ◌∷◌, ◌++◌, ltb, ◌==◌, if◌then◌else◌, length, Text,
  codes, Result, ok, err, internal,
}

-- `strings.ReplaceAll(s, "'", `'\''`)`.
escape_quotes : Text → Text
escape_quotes [] = []
escape_quotes (c ∷ s) = if c == b'\'' then codes "'\\''" ++ escape_quotes s else c ∷ escape_quotes s

-- shellQuote.
unfoldable pub shell_quote : Text → Text
unfolding escape_quotes
shell_quote s = codes "'" ++ (escape_quotes s ++ codes "'")

-- The script of WriteFile.
unfoldable pub write_script : Text → Text
unfolding shell_quote
write_script path =
    codes "mkdir -p \"$(dirname "
    ++ (shell_quote path ++ (codes ")\" && cat > " ++ shell_quote path))

-- MaxFileBytes.
abbrev pub max_file_bytes : ℕ
max_file_bytes = 67108864

-- limitedBuffer: the number of bytes that it holds, its limit, and whether it has refused any.
pub record LimitedBuffer : Type 0 where
  pub buf : List ℕ
  pub limit : ℕ
  pub truncated : Bool

-- limitedBuffer.Write: the number of bytes that it took.
unfoldable pub buffer_write : LimitedBuffer → List ℕ → ℕ × LimitedBuffer
buffer_write l p =
    if ltb l.limit (length l.buf + length p)
    then (0, record l { truncated = true })
    else (length p, record l { buf = l.buf ++ p })

-- The writes that the command's output comes in. A copy stops at a short write.
unfoldable pub copy_output : LimitedBuffer → List (List ℕ) → LimitedBuffer
unfolding buffer_write
copy_output l [] = l
copy_output l (p ∷ ps) =
    let rest = copy_output (record l { buf = l.buf ++ p }) ps in
    if ltb l.limit (length l.buf + length p) then record l { truncated = true } else rest

-- ReadFile, when `head` has passed on the chunks `ps` of the file and has ended well: the content, or
-- an error past the bound.
unfoldable pub read_output : List (List ℕ) → Result (List ℕ)
unfolding copy_output
read_output ps =
    let l = copy_output (record { buf = []; limit = max_file_bytes + 1; truncated = false }) ps in
    if l.truncated then err internal else ok l.buf
