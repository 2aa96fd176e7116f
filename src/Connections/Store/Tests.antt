-- ===== src/Connections/Store/Tests.antt =====
-- A ring of two connections in a buffer of 20 words, and the theorems on it.
use smews.Base.{◌≡◌, refl, arith, true, false, none, some, [], ◌∷◌, ◌==◌, if◌then◌else◌}
use smews.Memory.{Cells, get_free_mem}
use smews.Memory.Chain.{span, Holds}
use smews.Handlers.{general_ip, ref_ack}
use smews.Service.{Sizes, GeneratorService, header_none}
use smews.Connections.{Connection, HttpConnection, is_gpip, tcp_listen, parsing_out}
use smews.Connections.Ring.{Ring}
use smews.Connections.Ring.Laws.{IsRing}
use smews.Connections.Store.{Store, add_connection, free_connection}
use smews.Connections.Store.Laws.{free_connection-add_connection}

abbrev http : HttpConnection
http = record {
  tcp_mss = 0;
  ready_to_send = true;
  tcp_state = tcp_listen;
  next_outseqno = 0;
  final_outseqno = 0;
  current_inseqno = 0;
  port = 0;
  cwnd = 0;
  inflight = 0;
  blob = [];
  generator_service = none;
  args = none;
  curr_arg = 0;
  arg_ref_index = 128;
  transmission_time = 0;
  parsing_state = parsing_out;
  comet_passive = false;
  comet_send_ack = false;
  comet_streaming = false;
}

abbrev ping : Connection
ping = record {
  ip_addr = 10;
  output_handler = some (record ref_ack { handler_data = general_ip 1 });
  gpip = record { payload_size = 0; protocol = 1; want_to_send = 1 };
  http = http;
}

abbrev two : Ring
two = record {
  all_connections = some 4;
  next = λ x. if x == 4 then 8 else 4;
  prev = λ x. if x == 4 then 8 else 4;
  conn = λ x. ping;
}

abbrev cells : Cells
cells x =
    if x == 0
    then record { size = 2; to_next = 12 }
    else if x == 12
    then record { size = 8; to_next = 8 }
    else record { size = 0; to_next = 0 }

abbrev sizes : Sizes
sizes = record {
  output_buffer_size = 16;
  context_size = 12;
  in_flight_size = 20;
  service_size = 24;
  connection_size = 13;
}

abbrev service : GeneratorService
service = record {
  curr_outseqno = 0;
  in_flight_infos = [];
  service_header = header_none;
  is_persistent = true;
}

abbrev store : Store
store = record {
  ring = two;
  heap = record { cells = cells; first_free = 0 };
  services = λ x. service;
}

two-IsRing : IsRing two (4 ∷ 8 ∷ [])
two-IsRing = (refl, omega arith, omega arith)

heap-Holds : Holds 20 store.heap (span 0 2 ∷ span 12 8 ∷ [])
heap-Holds = omega arith

free_connection-add_connection_example :
    (s' s'' : Store) × (add_connection 21 sizes ping store ≡ some (some 12, s'))
    × IsRing s'.ring (4 ∷ 8 ∷ 12 ∷ [])
    × (get_free_mem 21 s'.heap ≡ some 24)
    × (free_connection 21 sizes 12 s' ≡ some s'')
    × IsRing s''.ring (4 ∷ 8 ∷ [])
    × Holds 20 s''.heap (span 0 2 ∷ span 12 8 ∷ [])
unfolding is_gpip
free_connection-add_connection_example =
    free_connection-add_connection 20 21 4 12 sizes ping store (span 0 2 ∷ span 12 8 ∷ [])
      (span 0 2 ∷ span 16 4 ∷ []) (4 ∷ 8 ∷ []) heap-Holds (omega arith) (omega arith) (omega arith)
      (omega arith) (omega arith) refl two-IsRing (omega arith) refl
