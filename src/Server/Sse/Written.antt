-- ===== src/Server/Sse/Written.antt =====
-- What frame writes when no write fails (server.go: sseWriter.frame).
use mathlib.Core.List.{append_assoc, append-nil}
use teploy_sandbox.Prelude.{
  ℕ, ◌≡◌, refl, sym, ap, ◌∙◌, ◌≢◌, Bool, true, false, List, [], ◌∷◌, ◌++◌, Text, codes, contains,
  split,
}
use teploy_sandbox.Server.Sse.{SseWriter, write_lines, frame, received}
use teploy_sandbox.Server.Sse.Client.{data_text, frame_text, read_data, read_data-frame_text}
use teploy_sandbox.Server.Sse.Dropped.{read_data-drops}

-- A stream that the client keeps reading, and what it holds at first.
abbrev pub always : ℕ → Bool
always n = true

abbrev pub opened : SseWriter
opened = record { written = []; failed = false }

line_joined :
    (before line rest : Text)
    → (before ++ (line ++ codes "\n")) ++ rest ≡ before ++ (line ++ (b'\n' ∷ rest))
line_joined before line rest =
    append_assoc before (line ++ codes "\n") rest
    ∙ ap (◌++◌ before) (append_assoc line (codes "\n") rest)

-- A stream that works, and what was written to it.
abbrev working : List Text → SseWriter
working texts = record { written = texts; failed = false }

write_lines-text :
    (lines texts : List Text)
    → let s = write_lines always lines (working texts) in
      (s.failed ≡ false) × (received s.written ≡ received texts ++ data_text lines)
unfolding write_lines received data_text
write_lines-text [] texts = (refl, sym (append-nil (received texts)))
write_lines-text (line ∷ lines) texts =
    let (fine, text) = write_lines-text lines ((codes "data: " ++ (line ++ codes "\n")) ∷ texts) in
    (fine, text ∙ line_joined (received texts) (codes "data: " ++ line) (data_text lines))

frame-text :
    (event chunk : Text)
    → received (frame always event chunk opened).written ≡ frame_text event chunk
unfolding frame received frame_text
frame-text event chunk =
    let named = codes "event: " ++ event in
    let (fine, text) = write_lines-text (split chunk b'\n') ((named ++ codes "\n") ∷ []) in
    rw (fine, frame)
      (ap (λ t. t ++ codes "\n") text
        ∙ ap (λ t. t ++ codes "\n")
            (append_assoc named (codes "\n") (data_text (split chunk b'\n')))
        ∙ append_assoc named (b'\n' ∷ data_text (split chunk b'\n')) (codes "\n"))

-- What a client reads as the data of a frame is the chunk that the exec wrote, line breaks
-- included, if no write fails, the chunk holds no carriage return, and the event's name no line
-- end.
pub read_data-frame :
    (event chunk : Text)
    → contains 0xd event ≡ false
    → contains b'\n' event ≡ false
    → contains 0xd chunk ≡ false
    → read_data (received (frame always event chunk opened).written) ≡ chunk
read_data-frame event chunk plain single clean =
    ap read_data (frame-text event chunk) ∙ read_data-frame_text event chunk plain single clean

-- Behind a carriage return a client starts a line of its own: what the exec wrote to stdout between
-- one and the next line end, if it does not start with a letter d, is not in the data that the
-- client reads.
pub frame-drops :
    (front behind : Text) (c : ℕ)
    → contains 0xd front ≡ false
    → contains b'\n' front ≡ false
    → contains 0xd (c ∷ behind) ≡ false
    → contains b'\n' (c ∷ behind) ≡ false
    → c ≢ b'd'
    → read_data
        (received (frame always (codes "stdout") (front ++ (0xd ∷ c ∷ behind)) opened).written)
      ≡ front
frame-drops front behind c a b d e other =
    ap read_data (frame-text (codes "stdout") (front ++ (0xd ∷ c ∷ behind)))
    ∙ read_data-drops front behind c a b d e other
