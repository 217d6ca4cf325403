-- ===== src/Server/Sse.antt =====
-- The stream of an exec's output (server.go: sseWriter). What the stream is given is a list of
-- texts, one for each write that succeeded, the last first.
pub mod Client
pub mod Dropped
pub mod Written
mod Examples
use teploy_sandbox.Prelude.{
  ℕ, Bool, true, List, [], ◌∷◌, ◌++◌, if◌then◌else◌, length, Text, codes, split, byte_length,
  Result, ok, err, internal,
}

-- sseWriter: what was written, and whether a write has failed.
pub record SseWriter : Type 0 where
  pub written : List Text
  pub failed : Bool

-- One write; `works` says of the number of writes before it whether it succeeds.
write : (ℕ → Bool) → Text → SseWriter → SseWriter
write works text s =
    if works (length s.written)
    then record s { written = text ∷ s.written }
    else record s { failed = true }

write_lines : (ℕ → Bool) → List Text → SseWriter → SseWriter
unfolding write
write_lines works [] s = s
write_lines works (line ∷ lines) s =
    let next = write works (codes "data: " ++ (line ++ codes "\n")) s in
    let rest = write_lines works lines next in if next.failed then next else rest

-- sseWriter.frame.
unfoldable pub frame : (ℕ → Bool) → Text → Text → SseWriter → SseWriter
unfolding write write_lines
frame works event chunk s =
    if s.failed
    then s
    else let begun = write works (codes "event: " ++ (event ++ codes "\n")) s in
      if begun.failed
      then begun
      else let lined = write_lines works (split chunk b'\n') begun in
        if lined.failed then lined else write works (codes "\n") lined

-- The Write of sseWriter.channel: the number of bytes that it reports, or the failure.
unfoldable pub channel_write : (ℕ → Bool) → Text → Text → SseWriter → Result ℕ × SseWriter
unfolding frame
channel_write works event p s =
    let next = frame works event p s in
    if next.failed then (err internal, next) else (ok (byte_length p), next)

-- What the client receives.
pub received : List Text → Text
received [] = []
received (text ∷ texts) = received texts ++ text
