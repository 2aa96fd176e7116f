-- ===== src/Send/Room/Tests.antt =====
-- A node with 40 free words that prepares a segment.
use smews.Base.{false, [], ◌==◌, if◌then◌else◌}
use smews.Memory.{Allocator, Cells}
use smews.Service.{Sizes, GeneratorService, header_standard}

abbrev cells : Cells
cells x = if x == 0 then record { size = 40; to_next = 40 } else record { size = 0; to_next = 0 }

abbrev heap : Allocator
heap = record { cells = cells; first_free = 0 }

abbrev sizes : Sizes
sizes = record {
  output_buffer_size = 16;
  context_size = 12;
  in_flight_size = 20;
  service_size = 24;
  connection_size = 40;
}

abbrev service : GeneratorService
service = record {
  curr_outseqno = 0;
  in_flight_infos = [];
  service_header = header_standard;
  is_persistent = false;
}
