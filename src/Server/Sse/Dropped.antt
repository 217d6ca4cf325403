-- ===== src/Server/Sse/Dropped.antt =====
-- A carriage return in the output of an exec (server.go: sseWriter.frame).
use mathlib.Core.List.{append_assoc}
use teploy_sandbox.Prelude.{
  ℕ, ◌≡◌, refl, ap, ◌∙◌, ◌≢◌, true, false, [], ◌∷◌, ◌++◌, arith, ◌==◌, Text, codes, contains,
  onto_first, split, join, split_line, contains-append,
}
use teploy_sandbox.Server.Sse.Client.{
  line_ends, field, data_fields, read_data, data_text, frame_text, no_cr,
}

split_whole : (s : Text) → contains b'\n' s ≡ false → split s b'\n' ≡ s ∷ []
unfolding split contains onto_first
split_whole [] h = refl
split_whole (c ∷ s) h =
    let other : (c == b'\n') ≡ false = ground arith in
    let later : contains b'\n' s ≡ false = ground arith in
    rw (other, split) (rw (split_whole s later) refl)

ends_front :
    (front rest : Text)
    → contains 0xd front ≡ false
    → line_ends false (front ++ (0xd ∷ rest)) ≡ front ++ (b'\n' ∷ line_ends true rest)
unfolding line_ends contains
ends_front [] rest h = refl
ends_front (c ∷ front) rest h =
    let other : (c == 0xd) ≡ false = ground arith in
    let later : contains 0xd front ≡ false = ground arith in
    rw (other, line_ends) (ap (◌∷◌ c) (ends_front front rest later))

ends_behind :
    (c : ℕ) (s : Text)
    → (c == 0xd) ≡ false
    → (c == b'\n') ≡ false
    → contains 0xd s ≡ false
    → line_ends true (c ∷ s) ≡ c ∷ s
unfolding line_ends
ends_behind c s other single h =
    rw (other, line_ends) (rw (single, line_ends) (ap (◌∷◌ c) (no_cr s h)))

-- The lines of a frame of the event stdout with one line of data, before the client takes its line
-- ends.
abbrev head : Text
head = codes "event: stdout\ndata: "

frame_line :
    (line : Text)
    → contains b'\n' line ≡ false
    → frame_text (codes "stdout") line ≡ head ++ (line ++ codes "\n\n")
unfolding frame_text data_text
frame_line line h =
    rw (split_whole line h) (ap (λ t. head ++ t) (append_assoc line (codes "\n") (codes "\n")))

pub read_data-drops :
    (front behind : Text) (c : ℕ)
    → contains 0xd front ≡ false
    → contains b'\n' front ≡ false
    → contains 0xd (c ∷ behind) ≡ false
    → contains b'\n' (c ∷ behind) ≡ false
    → c ≢ b'd'
    → read_data (frame_text (codes "stdout") (front ++ (0xd ∷ c ∷ behind))) ≡ front
unfolding read_data data_fields field contains split onto_first join
read_data-drops front behind c a b e f g =
    let whole : contains b'\n' (front ++ (0xd ∷ c ∷ behind)) ≡ false =
      contains-append b'\n' front (0xd ∷ c ∷ behind) ∙ rw b f in
    let tail : contains 0xd (behind ++ codes "\n\n") ≡ false =
      contains-append 0xd behind (codes "\n\n") ∙ ground arith in
    let text : frame_text (codes "stdout") (front ++ (0xd ∷ c ∷ behind))
        ≡ head ++ (front ++ (0xd ∷ c ∷ (behind ++ codes "\n\n"))) =
      frame_line (front ++ (0xd ∷ c ∷ behind)) whole
      ∙ ap (λ t. head ++ t) (append_assoc front (0xd ∷ c ∷ behind) (codes "\n\n")) in
    let ended : line_ends false (head ++ (front ++ (0xd ∷ c ∷ (behind ++ codes "\n\n"))))
        ≡ head ++ (front ++ (b'\n' ∷ c ∷ (behind ++ codes "\n\n"))) =
      ends_front (head ++ front) (c ∷ (behind ++ codes "\n\n")) a
      ∙ ap (λ t. head ++ (front ++ (b'\n' ∷ t)))
          (ends_behind c (behind ++ codes "\n\n") (ground arith) (ground arith) tail) in
    let lines : split (head ++ (front ++ (b'\n' ∷ c ∷ (behind ++ codes "\n\n")))) b'\n'
        ≡ codes "event: stdout" ∷ (codes "data: " ++ front) ∷ (c ∷ behind) ∷ [] ∷ [] ∷ [] =
      ap (◌∷◌ (codes "event: stdout")) (
        split_line (codes "data: " ++ front) (c ∷ (behind ++ codes "\n\n")) b
        ∙ ap (◌∷◌ (codes "data: " ++ front)) (split_line (c ∷ behind) (codes "\n") f)) in
    let foreign : (b'd' == c) ≡ false = ground arith in
    ap (λ t. join (data_fields (split (line_ends false t) b'\n')) b'\n') text
    ∙ ap (λ t. join (data_fields (split t b'\n')) b'\n') ended
    ∙ ap (λ t. join (data_fields t) b'\n') lines
    ∙ rw foreign refl
