-- ===== src/Send/Verify/Tests.antt =====
-- The packet of a segment of three characters.
use smews.Base.{◌≡◌, refl, arith, inr, false, some, [], ◌∷◌}
use smews.Handlers.{prop_volatile}
use smews.Service.{header_standard}
use smews.Coroutines.{cr_ready}
use smews.Connections.Samples.{http}
use smews.Send.Packet.{CurrOutput}
use smews.Send.Segment.{Target}
use smews.Send.Samples.{idle}
use smews.Send.Generate.{Point, next_segment}
use smews.Send.Verify.Packet.{Accepted, tcp_packet-Accepted}

abbrev three : Point
three = record { status = cr_ready; rest = 97 ∷ 98 ∷ 255 ∷ [] }

abbrev wide : CurrOutput
wide = record idle { service_header = header_standard; max_bytes = 100 }

abbrev client : Target
client = record {
  ip_addr = 0xc0a80102;
  port = 40000;
  next_outseqno = 0x42b7a491;
  current_inseqno = 17;
}

tcp_packet-Accepted_example :
    (sent : CurrOutput) × (q : Point) × (next_segment false wide three ≡ some (sent, q))
    × Accepted 5 0xc0a80101 sent client prop_volatile http
tcp_packet-Accepted_example =
    tcp_packet-Accepted 5 0xc0a80101 99 false wide three client prop_volatile http (inr refl)
      (omega arith) refl (omega arith)
