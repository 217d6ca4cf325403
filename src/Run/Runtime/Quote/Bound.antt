-- ===== src/Run/Runtime/Quote/Bound.antt =====
-- The bound of ReadFile (runtime.go: MaxFileBytes, limitedBuffer, ReadFile).
use mathlib.Core.List.{append_assoc, append-nil}
use teploy_sandbox.Prelude.{
  ℕ, zero, suc, ◌+◌, ◌≤◌, ◌≡◌, sym, ap, ◌∙◌, false, List, [], ◌∷◌, ◌++◌, arith, ltb, length,
  length-append, ok,
}
use teploy_sandbox.Run.Runtime.Quote.{LimitedBuffer, max_file_bytes, copy_output, read_output}

unfoldable pub take : ℕ → List ℕ → List ℕ
take zero s = []
take (suc n) [] = []
take (suc n) (c ∷ s) = c ∷ take n s

-- The chunks of an output put together.
unfoldable pub join_chunks : List (List ℕ) → List ℕ
join_chunks [] = []
join_chunks (p ∷ ps) = p ++ join_chunks ps

length-take : (n : ℕ) (s : List ℕ) → length (take n s) ≤ n
unfolding take
length-take zero s = ground arith
length-take (suc n) [] = ground arith
length-take (suc n) (c ∷ s) = ground (arith, length-take n s)

copy_output-fits :
    (ps : List (List ℕ)) (l : LimitedBuffer)
    → length l.buf + length (join_chunks ps) ≤ l.limit
    → copy_output l ps ≡ record l { buf = l.buf ++ join_chunks ps }
unfolding copy_output join_chunks
copy_output-fits [] l h = ap (λ b. record l { buf = b }) (sym (append-nil l.buf))
copy_output-fits (p ∷ ps) l h =
    let whole = length-append p (join_chunks ps) in
    let fits : ltb l.limit (length l.buf + length p) ≡ false = ground (arith, whole) in
    let longer = length-append l.buf p in
    rw (fits, copy_output)
      (copy_output-fits ps (record l { buf = l.buf ++ p }) (ground (arith, whole, longer))
        ∙ ap (λ b. record l { buf = b }) (append_assoc l.buf p (join_chunks ps)))

-- Whatever chunks the first MaxFileBytes + 1 bytes of a file come in, ReadFile returns them: it
-- refuses no file, however long, and a longer file comes back cut short.
pub read_output_lem :
    (content : List ℕ) (ps : List (List ℕ))
    → join_chunks ps ≡ take (max_file_bytes + 1) content
    → read_output ps ≡ ok (take (max_file_bytes + 1) content)
unfolding read_output
read_output_lem content ps h =
    let start : LimitedBuffer = record {
      buf = [];
      limit = max_file_bytes + 1;
      truncated = false;
    } in
    let fits : length (join_chunks ps) ≤ max_file_bytes + 1 =
      rw h (length-take (max_file_bytes + 1) content) in
    rw (copy_output-fits ps start (ground (arith, fits))) (ap ok h)
