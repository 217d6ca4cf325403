-- ===== src/Server/Sse/Client.antt =====
-- What a client of the stream reads (server.go: sseWriter.frame).
use mathlib.Core.List.{append_assoc}
use teploy_sandbox.Prelude.{
  ℕ, ◌≡◌, refl, ap, ◌∙◌, Bool, true, false, ◌&&◌, ◌||◌, Option, none, some, List, [], ◌∷◌, ◌++◌,
  arith, ◌==◌, if◌then◌else◌, any, Text, codes, is_empty, contains, onto_first, split, join,
  split_without, join-split, split_line, contains-append,
}

-- The lines of a stream end in CR LF, in LF, or in CR: each end as one LF. The flag says that a CR
-- came before.
unfoldable pub line_ends : Bool → Text → Text
line_ends after_cr [] = []
line_ends after_cr (c ∷ s) =
    let behind_cr = line_ends true s in
    let rest = line_ends false s in
    if c == 0xd then b'\n' ∷ behind_cr else if after_cr && c == b'\n' then rest else c ∷ rest

-- The value of a line's field `name`: behind the colon, less one space.
unfoldable pub field : Text → Text → Option Text
field [] [] = some []
field [] (c ∷ s) = if c == b':' then some (less_space s) else none
  where
    less_space : Text → Text
    less_space [] = []
    less_space (c ∷ s) = if c == b' ' then s else c ∷ s
field (c ∷ name) [] = none
field (c ∷ name) (d ∷ line) = if c == d then field name line else none

-- The data fields of the lines up to the first empty one.
unfoldable pub data_fields : List Text → List Text
data_fields [] = []
data_fields (line ∷ lines) =
    let rest = data_fields lines in
    if is_empty line
    then []
    else elim (field (codes "data") line) [ none ↦ rest | some value ↦ value ∷ rest ]

-- The data of the first event of a stream.
unfoldable pub read_data : Text → Text
read_data stream = join (data_fields (split (line_ends false stream) b'\n')) b'\n'

unfoldable pub data_text : List Text → Text
data_text [] = []
data_text (line ∷ lines) = codes "data: " ++ (line ++ (b'\n' ∷ data_text lines))

-- The text of a frame without failures.
unfoldable pub frame_text : Text → Text → Text
frame_text event chunk =
    codes "event: " ++ (event ++ (b'\n' ∷ (data_text (split chunk b'\n') ++ codes "\n")))

pub no_cr : (s : Text) → contains 0xd s ≡ false → line_ends false s ≡ s
unfolding line_ends contains
no_cr [] h = refl
no_cr (c ∷ s) h = ground (arith, no_cr s)

contains-onto_first :
    (d c : ℕ) (ps : List Text)
    → any (contains d) (onto_first c ps) ≡ ((c == d) || any (contains d) ps)
unfolding onto_first contains
contains-onto_first d c [] = ground arith
contains-onto_first d c (p ∷ ps) = ground arith

contains-split : (s : Text) → any (contains 0xd) (split s b'\n') ≡ contains 0xd s
unfolding split contains
contains-split [] = refl
contains-split (c ∷ s) = ground (arith, contains-split s, contains-onto_first 0xd c (split s b'\n'))

contains-data_text : (lines : List Text) → contains 0xd (data_text lines) ≡ any (contains 0xd) lines
unfolding data_text contains
contains-data_text [] = refl
contains-data_text (line ∷ lines) =
    ground (arith, contains-data_text lines, contains-append 0xd line (b'\n' ∷ data_text lines))

data_fields-data_text :
    (lines : List Text)
    → any (contains b'\n') lines ≡ false
    → data_fields (split (data_text lines ++ codes "\n") b'\n') ≡ lines
unfolding data_text data_fields field split contains
data_fields-data_text [] h = refl
data_fields-data_text (line ∷ lines) h =
    let whole : contains b'\n' line ≡ false = ground arith in
    let others : any (contains b'\n') lines ≡ false = ground arith in
    let text : data_text (line ∷ lines) ++ codes "\n"
        ≡ (codes "data: " ++ line) ++ (b'\n' ∷ (data_text lines ++ codes "\n")) =
      ap (λ t. codes "data: " ++ t) (append_assoc line (b'\n' ∷ data_text lines) (codes "\n")) in
    ap (λ t. data_fields (split t b'\n')) text
    ∙ ap data_fields (split_line (codes "data: " ++ line) (data_text lines ++ codes "\n") whole)
    ∙ ap (◌∷◌ line) (data_fields-data_text lines others)

pub read_data-frame_text :
    (event chunk : Text)
    → contains 0xd event ≡ false
    → contains b'\n' event ≡ false
    → contains 0xd chunk ≡ false
    → read_data (frame_text event chunk) ≡ chunk
unfolding read_data frame_text data_fields field contains
read_data-frame_text event chunk plain single clean =
    let lines = split chunk b'\n' in
    let body = data_text lines ++ codes "\n" in
    let body_clean : contains 0xd body ≡ false =
      contains-append 0xd (data_text lines) (codes "\n")
      ∙ rw (contains-data_text lines) (rw (contains-split chunk) (rw clean refl)) in
    let text_clean : contains 0xd (frame_text event chunk) ≡ false =
      contains-append 0xd event (b'\n' ∷ body) ∙ rw plain body_clean in
    rw (no_cr (frame_text event chunk) text_clean) (
      rw (split_line (codes "event: " ++ event) body single)
        (rw (data_fields-data_text lines (split_without chunk b'\n')) (join-split chunk b'\n')))
