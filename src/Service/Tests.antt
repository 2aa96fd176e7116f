-- ===== src/Service/Tests.antt =====
-- A service with two segments in flight, and the theorems on it.
use smews.Base.{◌≡◌, refl, arith, true, some, [], ◌∷◌}
use smews.Base.{◌==◌, if◌then◌else◌}
use smews.Memory.{Cells, Allocator, get_free_mem}
use smews.Memory.Chain.{span, Holds}
use smews.Service.{
  InFlight, buffer, GeneratorService, Sizes, header_none, header_chunks, clean_service, blocks_of,
}
use smews.Service.Release.{insert_all}
use smews.Service.Clean.{clean_service-acked}

abbrev sizes : Sizes
sizes = record {
  output_buffer_size = 16;
  context_size = 12;
  in_flight_size = 20;
  service_size = 24;
  connection_size = 40;
}

abbrev newer : InFlight
newer = record {
  node = 2;
  next_outseqno = 300;
  checksum = 0;
  infos = buffer 7;
  service_header = header_none;
}

abbrev older : InFlight
older = record {
  node = 11;
  next_outseqno = 200;
  checksum = 0;
  infos = buffer 16;
  service_header = header_chunks;
}

abbrev service : GeneratorService
service = record {
  curr_outseqno = 400;
  in_flight_infos = newer ∷ older ∷ [];
  service_header = header_none;
  is_persistent = true;
}

-- Of 20 words all but the first two are in use.
abbrev cells : Cells
cells x = if x == 0 then record { size = 2; to_next = 20 } else record { size = 0; to_next = 0 }

abbrev heap : Allocator
heap = record { cells = cells; first_free = 0 }

heap-Holds : Holds 20 heap (span 0 2 ∷ [])
heap-Holds = omega arith

clean_service-acked_example :
    (heap' : Allocator) × (clean_service 21 sizes service (some 300) heap
      ≡ some (record service { in_flight_infos = newer ∷ [] }, heap'))
    × Holds 20 heap' (insert_all (span 16 4 ∷ span 11 5 ∷ []) (span 0 2 ∷ []))
    × (get_free_mem 21 heap' ≡ some 44)
clean_service-acked_example =
    clean_service-acked 20 21 300 sizes service heap (newer ∷ []) (older ∷ [])
      (span 16 4 ∷ span 11 5 ∷ []) (span 0 2 ∷ []) (omega arith) heap-Holds refl (omega arith)
      (omega arith) (tt, tt) (unfold blocks_of in omega arith) (omega arith)
