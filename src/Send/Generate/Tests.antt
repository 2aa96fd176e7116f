-- ===== src/Send/Generate/Tests.antt =====
-- A handler that gives sixty characters, and the theorems on its segments.
use smews.Base.{ℕ, ◌≡◌, refl, arith, inr, false, some, List, replicate}
use smews.Checksum.{checksum_init}
use smews.Handlers.{prop_volatile}
use smews.Service.{header_none, header_standard, header_chunks}
use smews.Coroutines.{cr_ready}
use smews.Connections.Samples.{http}
use smews.Send.Packet.{CurrOutput, service_headers_size, max_out_size}
use smews.Send.Samples.{idle}
use smews.Send.Generate.{Point, max_bytes, next_segment}
use smews.Send.Generate.Fitting.{Bounded, next_segment-Bounded, next_segment-overrun}
use smews.Send.Generate.Response.Whole.{Answered, segments-read_response}

abbrev letters : List ℕ
letters = replicate 60 97

abbrev ready : Point
ready = record { status = cr_ready; rest = letters }

abbrev first : CurrOutput
first = record idle {
  service_header = header_standard;
  max_bytes = max_bytes 5 256 128 header_chunks;
}

segments-read_response_example :
    Answered 62 (max_bytes 5 256 128 header_none) http checksum_init first letters
unfolding service_headers_size max_out_size
segments-read_response_example =
    segments-read_response 5 256 128 61 http checksum_init idle letters (omega arith) (omega arith)
      (omega arith) (omega arith) (omega arith)

next_segment-Bounded_example :
    (sent : CurrOutput) × (q : Point) × (next_segment false first ready ≡ some (sent, q))
    × Bounded 5 256 128 prop_volatile http sent
unfolding service_headers_size max_out_size
next_segment-Bounded_example =
    next_segment-Bounded 5 256 128 false header_chunks prop_volatile http first ready tt refl
      (omega arith) (omega arith) (omega arith) (inr refl) (omega arith)

abbrev narrow : CurrOutput
narrow = record idle {
  service_header = header_standard;
  max_bytes = max_bytes 5 32 64 header_chunks;
}

next_segment-overrun_example :
    (sent : CurrOutput) × (q : Point) × (next_segment false narrow ready ≡ some (sent, q))
    × (sent.buffer ≡ letters)
unfolding service_headers_size max_out_size
next_segment-overrun_example =
    next_segment-overrun 5 32 64 false header_chunks narrow ready refl (omega arith) (inr refl)
      (omega arith) (omega arith)
