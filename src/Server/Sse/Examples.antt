-- ===== src/Server/Sse/Examples.antt =====
-- The stream at concrete chunks.
use teploy_sandbox.Prelude.{◌≡◌, refl, false, arith, codes, contains}
use teploy_sandbox.Server.Sse.{frame, received}
use teploy_sandbox.Server.Sse.Client.{read_data}
use teploy_sandbox.Server.Sse.Written.{always, opened, read_data-frame, frame-drops}

no_cr_event : contains 0xd (codes "stdout") ≡ false
unfolding contains
no_cr_event = refl

one_line_event : contains b'\n' (codes "stdout") ≡ false
unfolding contains
one_line_event = refl

no_cr_chunk : contains 0xd (codes "a\n\nb\n") ≡ false
unfolding contains
no_cr_chunk = refl

read_data-frame_example :
    read_data (received (frame always (codes "stdout") (codes "a\n\nb\n") opened).written)
    ≡ codes "a\n\nb\n"
read_data-frame_example =
    read_data-frame (codes "stdout") (codes "a\n\nb\n") no_cr_event one_line_event no_cr_chunk

clean :
    (contains 0xd (codes "10%") ≡ false)
    × (contains b'\n' (codes "10%") ≡ false)
    × (contains 0xd (codes "20%") ≡ false)
    × (contains b'\n' (codes "20%") ≡ false)
unfolding contains
clean = (refl, refl, refl, refl)

frame-drops_example :
    read_data (received (frame always (codes "stdout") (codes "10%\r20%") opened).written)
    ≡ codes "10%"
frame-drops_example =
    frame-drops (codes "10%") (codes "0%") b'2' clean.0 clean.1 clean.2 clean.3 (omega arith)
