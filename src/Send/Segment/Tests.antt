-- ===== src/Send/Segment/Tests.antt =====
-- A file that is half sent, and the theorem on it.
use smews.Base.{ℕ, ◌≡◌, arith, []}
use smews.Handlers.{file}
use smews.Connections.Samples.{http}
use smews.Send.Samples.{idle}
use smews.Send.Packet.{segment_length, file_remaining_bytes, max_out_size}
use smews.Send.Segment.{update}
use smews.Send.Segment.Update.{Carried, update-file}

update-file_example :
    (n : ℕ) × (segment_length 5 idle (file 8000 [] []) http ≡ n)
    × Carried n http (update idle (file 8000 [] []) n http)
unfolding file_remaining_bytes max_out_size
update-file_example =
    update-file 5 8000 [] [] idle http (omega arith) (omega arith) (omega arith) (omega arith)
      (omega arith) (omega arith)
